-- ===== src/Lib.antt =====
-- A model of the emqx-operator, the Kubernetes operator that runs clusters of EMQX, with the
-- theorems that its reconcilers rest on. The code is that of the v2beta1 API and of parts of v1beta4:
--
--   Api              apis/apps/v2beta1: the resources and the methods on them
--     Types          emqx_types.go, status.go: the EMQX resource
--     Status         status.go: the list of conditions (SetCondition, GetCondition, ...)
--     Labels         util.go: IsExistReplicant and the functions on maps of labels
--     Ports          util.go: the merges of lists of ports
--     Dashboard      util.go: the ports of the dashboard in a configuration
--     Listeners      util.go: the ports of the listeners and gateways in a configuration
--     Names          names.go: the names of the objects of a resource
--     Rebalance      rebalance_types.go: the Rebalance resource and the methods on its status
--   Errors           internal/errors/errors.go
--   Controllers      controllers/apps/v2beta1
--     Sets           util.go: the stateful sets, replica sets, pods and events that are read
--     StatusMachine  status_machine.go: the seven statuses of a cluster and NextStatus
--     Nodes          update_emqx_status.go: the nodes that the management API reports
--     UpdateStatus   update_emqx_status.go: updateStatus.reconcile
--     PodConditions  update_pod_conditions.go: which pods serve
--     Evacuation     sync_pods.go: the calls to the EMQX API, and when an evacuation comes first
--     SyncPods       sync_pods.go: the scale-down of the sets of the previous revision
--     SyncSets       sync_sets.go: the clean-up of old sets
--     Rebalance      rebalance_controller.go: the handler of phases and Reconcile
--     Reconcile      emqx_controller.go: the loop over the sub-reconcilers
--     Builders       add_emqx_core.go, add_emqx_repl.go: the generators of the two sets (Core,
--                    Replicant), and the hash and name of a new set (Named, with util.go)
--     AddSets        add_emqx_core.go, add_emqx_repl.go: the reconcilers addCore and addRepl
--     Bootstrap      add_bootstrap_resource.go, emqx_controller.go: the secrets and their reader
--     SyncConfig     sync_emqx_config.go: the configuration, sent to the nodes once
--     Services       add_svc.go, add_headless_svc.go: the three services
--     Budgets        add_pdb.go: the pod disruption budgets
--   Handler          internal/handler/handler.go: how objects are created and updated
--   V1beta4          apis/apps/v1beta4, controllers/apps/v1beta4: EmqxBroker and EmqxEnterprise
--     Status         status_types.go: the list of conditions
--     Sets           statefulset.go, statefulset_util.go: the sets and pods of the cluster
--     UpdateStatus   update_emqx_status.go: updateEmqxStatus.reconcile
--     BlueGreen      add_emqx_statefulset.go: the blue-green update of an EmqxEnterprise
--     NewSet         add_emqx_statefulset.go: the name of a new set, and the reconciler
--     PodConditions  update_pod_conditions.go: which pods serve
--     Listener       add_listener.go, util.go: the service and endpoints of the listeners
--   Kube, Http       the objects and calls of the Kubernetes and EMQX APIs, which are parameters
--   Prelude          what the other modules share
--   Examples         the theorems at small clusters
--
-- A run of a reconciler reads the sets and pods through the client (Sets), writes the counts and
-- revisions of the nodes into the status (UpdateStatus), and moves the machine (StatusMachine),
-- which keeps its status in the list of conditions (Api.Status). The loop (Reconcile) takes the
-- sub-reconcilers as a parameter. The conditions Available and Ready then let SyncPods and
-- SyncSets act. Rebalance is a resource and a controller of its own.
--
-- A Go function is a function of the same name in snake case. A method that writes to its
-- receiver returns the new value; calls that change the cluster are a list of actions, in their
-- order; a nil dereference, an index out of range and a call of panic are `none`. The clock, the
-- answers of the API server and of EMQX, JSON and printing are arguments; in one call the API
-- server answers each List the same. A Go string compared with constants only is a data type with
-- one more constructor for the other strings. An int32 is an integer whose increment and
-- decrement wrap around. All loops run over lists but one, the search for a free name
-- (V1beta4.NewSet), which has fuel; it ends when the fuel exceeds the first free collision count.
--
-- Go's sort is an insertion sort, which is what sort.Slice runs on at most twelve elements; on
-- longer slices only the order of elements that compare equal may differ. Events, logs, the
-- wrapping texts of errors, and errors of List, which the code drops, are left out.
--
-- The hash of a pod template is FNV-1a over the bytes that the spew library prints; that printer,
-- the patch library, HOCON, semver, intstr and the password generator are parameters too. What a
-- retry on a conflict ends in is the content of its last Get and the answer to its last call. A
-- field that a generator passes on unread is its text. Go's Atoi, Itoa, SplitHostPort, Split, Trim
-- and ToLower are modelled as far as the code uses them: characters that it looks for are ASCII, and
-- Itoa is applied to an int32, whose ten digits are the fuel of the loop.
--
-- Not modelled: the rest of v1beta4 (the generators of the set, the plugins, the loop), v1beta3 and
-- v2alpha1, the webhooks, the conversions, the generated code, internal/requester, main.go and the
-- sidecar; of internal/handler the option that hides other containers from the patch library.
mod Prelude
pub mod Kube
pub mod Errors
pub mod Http
pub mod Api
pub mod Handler
pub mod V1beta4
pub mod Controllers
mod Examples
