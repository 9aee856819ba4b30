-- ===== src/Controllers/UpdateStatus.antt =====
-- controllers/apps/v2beta1/update_emqx_status.go. The events that it records are left out; `none`
-- is a panic. The machine is made at the reading `now` of the clock and moved at `later`.
pub mod Counts
pub mod Revisions
pub mod Conditions
use Prim.Native.Char.{code}
use emqx_operator.Prelude.{
  ℕ, ℤ, pos, is_positive, ltb_ℤ, ◌==ℤ◌, inc_int32, String, str_eq, starts_with, Bool, true, false,
  not, ◌&&◌, ◌||◌, Option, none, some, List, [], ◌∷◌, ◌++◌, ◌==◌, ◌>>=◌, if◌then◌else◌,
}
use emqx_operator.Prelude.Sort.{sort}
use emqx_operator.Errors.{Error, other, Result, ok, err}
use emqx_operator.Http.{Requester, Response, Decoder}
use emqx_operator.Kube.{Client, Workload, Pod, Labels}
use emqx_operator.Api.Types.{
  Emqx, EmqxNode, EmqxNodesStatus, EmqxStatus, NodeEvacuationStatus, Template,
}
use emqx_operator.Api.Labels.{lookup, default_labels, labels_pod_template_hash_key}
use emqx_operator.Controllers.Sets.{Sets, get_stateful_set_list, get_replica_set_list}
use emqx_operator.Controllers.Nodes.{get_emqx_nodes, get_node_evacuation_status_by_api}
use emqx_operator.Controllers.StatusMachine.{
  EmqxStatusMachine, new_emqx_status_machine, next_status,
}

-- What a reconciliation leaves: the resource, whether its status was sent to the API server, and
-- the error.
pub record Outcome : Type 0 where
  pub emqx : Emqx
  pub sent : Bool
  pub error : Option Error

abbrev uid_is : String → Option Workload → Bool
uid_is uid none = false
uid_is uid (some w) = str_eq uid w.uid

abbrev bump : Bool → ℤ → ℤ
bump b n = if b then inc_int32 n else n

abbrev count_node : Option Workload → Option Workload → EmqxNode → EmqxNodesStatus → EmqxNodesStatus
count_node update current n s = record s {
  ready_replicas = bump (str_eq n.node_status "running") s.ready_replicas;
  current_replicas = bump (uid_is n.controller_uid current) s.current_replicas;
  update_replicas = bump (uid_is n.controller_uid update) s.update_replicas;
}

unfoldable pub count_from :
    Option Workload → Option Workload → EmqxNodesStatus → List EmqxNode → EmqxNodesStatus
unfolding inc_int32
count_from update current s [] = s
count_from update current s (n ∷ ns) = count_from update current (count_node update current n s) ns

-- The counters are reset, and each node adds to those that it counts for.
unfoldable pub count_nodes : Sets → List EmqxNode → EmqxNodesStatus → EmqxNodesStatus
unfolding count_from
count_nodes sets nodes s =
    count_from sets.update sets.current
      (record s { ready_replicas = pos 0; current_replicas = pos 0; update_replicas = pos 0 }) nodes

-- `currentSts.UID` panics where there is no current set.
unfoldable pub is_enterpriser : Option Workload → List EmqxNode → Option Bool
is_enterpriser current [] = some false
is_enterpriser none (n ∷ ns) = none
is_enterpriser (some w) (n ∷ ns) =
    if str_eq n.controller_uid w.uid && str_eq n.edition "Enterprise"
    then some true
    else is_enterpriser (some w) ns

first_running : List Workload → Option Workload
first_running [] = none
first_running (w ∷ ws) = if is_positive w.status_replicas then some w else first_running ws

-- `current == nil || (update.UID != current.UID && current.Status.Replicas == 0)`
abbrev pub vacant : Workload → Option Workload → Bool
vacant update none = true
vacant update (some w) = not (str_eq update.uid w.uid) && w.status_replicas ==ℤ pos 0

abbrev or_update : Workload → Option Workload → Workload
or_update update none = update
or_update update (some w) = w

-- The set that becomes the current one, if the present one is gone or drained.
unfoldable pub pick_current : Sets → Option Workload
unfolding first_running
pick_current sets = elim sets.update [
  | none ↦ none
  | some u ↦ if vacant u sets.current then some (or_update u (first_running sets.old)) else none
]

-- A missing label reads as the empty string.
abbrev or_empty : Option String → String
or_empty none = ""
or_empty (some s) = s

abbrev pub revision_of : Workload → String
revision_of w = or_empty (lookup labels_pod_template_hash_key w.labels)

abbrev pub default_revision : EmqxNodesStatus → EmqxNodesStatus
default_revision s =
    if not (str_eq s.update_revision "") && str_eq s.current_revision ""
    then record s { current_revision = s.update_revision }
    else s

abbrev with_core : EmqxNodesStatus → Emqx → Emqx
with_core s e = record e { status = record (e.status) { core_nodes_status = s } }

abbrev with_replicant : EmqxNodesStatus → Emqx → Emqx
with_replicant s e = record e { status = record (e.status) { replicant_nodes_status = s } }

abbrev pub set_replicant_replicas : Option Template → Emqx → Option Emqx
set_replicant_replicas none e = some e
set_replicant_replicas (some t) e =
    t.replicas
    >>= (λ n. some (with_replicant (record (e.status.replicant_nodes_status) { replicas = n }) e))

-- The statements before the lists are read.
unfoldable pub prepare : Emqx → Option Emqx
prepare e = e.spec.core_template.replicas >>= λ n.
    set_replicant_replicas e.spec.replicant_template
      (with_core (record (e.status.core_nodes_status) { replicas = n }) e)
    >>= λ e1. some (
        with_replicant (default_revision e1.status.replicant_nodes_status)
          (with_core (default_revision e1.status.core_nodes_status) e1))

abbrev nodes_or_nil : Result (List EmqxNode × List EmqxNode) → List EmqxNode × List EmqxNode
nodes_or_nil (ok ns) = ns
nodes_or_nil (err e) = ([], [])

abbrev evacuations_or_nil : Result (List NodeEvacuationStatus) → List NodeEvacuationStatus
evacuations_or_nil (ok es) = es
evacuations_or_nil (err e) = []

abbrev record_nodes : Sets → Sets → List EmqxNode × List EmqxNode → Emqx → Emqx
record_nodes sts rs nodes e = record e {
  status = record (e.status) {
    core_nodes = nodes.0;
    core_nodes_status = count_nodes sts nodes.0 e.status.core_nodes_status;
    replicant_nodes = nodes.1;
    replicant_nodes_status = count_nodes rs nodes.1 e.status.replicant_nodes_status;
  };
}

abbrev record_evacuations : Bool → Requester → Decoder → Emqx → Emqx
record_evacuations enterprise r d e =
    if enterprise
    then record e {
      status = record (e.status) {
        node_evacuations_status = evacuations_or_nil (get_node_evacuation_status_by_api r d);
      };
    }
    else e

abbrev outcome : Option Error → Option EmqxStatusMachine → Option Outcome
outcome update_error none = none
outcome update_error (some m) = some (record { emqx = m.emqx; sent = true; error = update_error })

-- The machine moves once, and the status is sent.
finish : Client → ℕ → ℕ → Option Error → Emqx → Option Outcome
finish client now later update_error e =
    outcome update_error (next_status client later (new_emqx_status_machine now e))

abbrev evacuate_and_finish :
    Client → Decoder → ℕ → ℕ → Option Error → Requester → Emqx → Option Bool → Option Outcome
evacuate_and_finish client d now later update_error r e none = none
evacuate_and_finish client d now later update_error r e (some enterprise) =
    finish client now later update_error (record_evacuations enterprise r d e)

-- The statements after both lists are found in order.
unfoldable pub refresh :
    Client → Decoder → ℕ → ℕ → Option Error → Requester → Sets → Sets → Emqx → Option Outcome
unfolding get_emqx_nodes get_node_evacuation_status_by_api count_nodes is_enterpriser finish
refresh client d now later update_error r sts rs e =
    let nodes = nodes_or_nil (get_emqx_nodes client r d e) in
    evacuate_and_finish client d now later update_error r (record_nodes sts rs nodes e)
      (is_enterpriser sts.current nodes.0)

-- The rest of the method, for the sets that become current and the requester; where a set does, the
-- new revision is sent and the method returns.
unfoldable pub proceed :
    Client
    → Decoder
    → ℕ
    → ℕ
    → Option Error
    → Sets
    → Sets
    → Emqx
    → Option Workload
    → Option Workload
    → Option Requester
    → Option Outcome
unfolding refresh
proceed client d now later update_error sts rs e (some w) rs_pick r = some (record {
  emqx = with_core (record (e.status.core_nodes_status) { current_revision = revision_of w }) e;
  sent = true;
  error = update_error;
})
proceed client d now later update_error sts rs e none (some w) r = some (record {
  emqx =
      with_replicant (record (e.status.replicant_nodes_status) { current_revision = revision_of w })
        e;
  sent = true;
  error = update_error;
})
proceed client d now later update_error sts rs e none none none =
    some (record { emqx = e; sent = false; error = none })
proceed client d now later update_error sts rs e none none (some req) =
    refresh client d now later update_error req sts rs e

-- updateStatus.reconcile, where `update_error` is what Status().Update answers.
unfoldable pub reconcile :
    Client → Decoder → ℕ → ℕ → Option Error → Option Requester → Emqx → Option Outcome
unfolding prepare pick_current proceed
reconcile client d now later update_error r instance' = prepare instance' >>= λ e.
    let sts = get_stateful_set_list client e in
    let rs = get_replica_set_list client e in
    proceed client d now later update_error sts rs e (pick_current sts) (pick_current rs) r
