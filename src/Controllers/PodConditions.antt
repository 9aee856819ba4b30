-- ===== src/Controllers/PodConditions.antt =====
-- controllers/apps/v2beta1/update_pod_conditions.go: which pods serve. The comparison of versions and
-- the request to a pod's own API are parameters; the result has the condition that is patched into
-- each pod, in order, and `none` is a panic.
pub mod Serving
use emqx_operator.Prelude.{
  ℕ, String, str_eq, Bool, true, false, not, ◌&&◌, ◌||◌, Option, none, some, List, [], ◌∷◌, ◌++◌,
  ◌==◌, ◌>>=◌, if◌then◌else◌,
}
use emqx_operator.Errors.{Result, ok, err}
use emqx_operator.Http.{Requester, Response}
use emqx_operator.Kube.{
  Client, Workload, Pod, PodCondition, ConditionStatus, is_true, is_false, is_unknown, unset,
  status_true,
}
use emqx_operator.Api.Types.{Emqx, EmqxNode}
use emqx_operator.Api.Status
use emqx_operator.Api.Status.{is_condition_true}
use emqx_operator.Api.Labels.{is_exist_replicant, default_labels}
use emqx_operator.Controllers.Sets.{get_stateful_set_list, get_replica_set_list}

-- Whether a version is at least 5.0.3, where `none` is a version that does not parse, and what the
-- availability check of a pod answers.
pub record Probe : Type 0 where
  pub at_least : String → Option Bool
  pub availability : Pod → Result Response

abbrev pub pod_on_serving : String
pod_on_serving = "apps.emqx.io/on-serving"

abbrev containers_ready : String
containers_ready = "ContainersReady"

abbrev pub same_status : ConditionStatus → ConditionStatus → Bool
same_status is_true is_true = true
same_status is_false is_false = true
same_status is_unknown is_unknown = true
same_status unset unset = true
same_status _ _ = false

abbrev no_condition : PodCondition
no_condition = record { type = pod_on_serving; status = unset; last_transition_time = none }

abbrev note : PodCondition → PodCondition → PodCondition
note found c =
    if str_eq c.type pod_on_serving
    then record found { status = c.status; last_transition_time = c.last_transition_time }
    else found

note_all : PodCondition → List PodCondition → PodCondition
note_all found [] = found
note_all found (c ∷ cs) = note_all (note found c) cs

-- The condition that the pod has.
unfoldable pub on_serving : Pod → PodCondition
unfolding note_all
on_serving pod = note_all no_condition pod.conditions

-- `condition.Type == ContainersReady && condition.Status == ConditionTrue`, for one of them.
unfoldable pub has_ready_containers : List PodCondition → Bool
has_ready_containers [] = false
has_ready_containers (c ∷ cs) =
    str_eq c.type containers_ready && status_true c.status || has_ready_containers cs

abbrev pub write_status : ℕ → ConditionStatus → PodCondition → PodCondition
write_status now status c =
    if not (same_status status c.status)
    then record c { status = status; last_transition_time = some now }
    else c

abbrev from_answer : Result Response → ConditionStatus
from_answer (err e) = is_unknown
from_answer (ok resp) = if not (resp.status_code == 200) then is_false else is_true

unfoldable pub check_rebalance_status : Probe → Option Requester → Pod → ConditionStatus
check_rebalance_status probe none pod = is_false
check_rebalance_status probe (some r) pod = from_answer (probe.availability pod)

-- A version that does not parse is a nil pointer.
abbrev check_node : Probe → Option Requester → Pod → EmqxNode → Option ConditionStatus
unfolding check_rebalance_status
check_node probe r pod node =
    if str_eq node.edition "Enterprise"
    then (probe.at_least node.version >>= λ recent.
        some (if recent then check_rebalance_status probe r pod else is_true))
    else some is_true

unfoldable pub find_in_cluster :
    Probe → Option Requester → Pod → List EmqxNode → Option ConditionStatus
unfolding check_node
find_in_cluster probe r pod [] = some is_false
find_in_cluster probe r pod (n ∷ ns) =
    if str_eq pod.uid n.pod_uid then check_node probe r pod n else find_in_cluster probe r pod ns

abbrev pub cluster_nodes : Emqx → List EmqxNode
cluster_nodes e =
    if is_exist_replicant e
    then e.status.core_nodes ++ e.status.replicant_nodes
    else e.status.core_nodes

unfoldable pub check_in_cluster : Probe → Option Requester → Emqx → Pod → Option ConditionStatus
unfolding find_in_cluster is_exist_replicant
check_in_cluster probe r e pod = find_in_cluster probe r pod (cluster_nodes e)

-- The UID of a set, or the empty one.
abbrev pub uid_of : Option Workload → String
uid_of none = ""
uid_of (some w) = w.uid

module _ (client : Client) (probe : Probe) (r : Option Requester) (now : ℕ) (e : Emqx) where
  abbrev pub is_updated : String → Bool
  is_updated uid =
      str_eq uid (uid_of (get_stateful_set_list client e).update)
      || str_eq uid (uid_of (get_replica_set_list client e).update)

  abbrev pub is_current : String → Bool
  is_current uid =
      str_eq uid (uid_of (get_stateful_set_list client e).current)
      || str_eq uid (uid_of (get_replica_set_list client e).current)

  -- A pod of an updated set.
  update_serving : Pod → PodCondition → Option PodCondition
  unfolding has_ready_containers check_in_cluster
  update_serving pod c =
      if has_ready_containers pod.conditions
      then (check_in_cluster probe r e pod >>= λ status. some (write_status now status c))
      else some c

  -- A pod of a current set that is not the updated one.
  retire_serving : Pod → PodCondition → PodCondition
  unfolding has_ready_containers
  retire_serving pod c =
      if is_condition_true e.status Status.available && has_ready_containers pod.conditions
      then write_status now is_false c
      else c

  -- The switch on the UID of the pod's controller.
  unfoldable pub next_serving : Pod → String → Option PodCondition
  unfolding update_serving retire_serving on_serving
  next_serving pod uid =
      if is_updated uid
      then update_serving pod (on_serving pod)
      else if is_current uid
      then some (retire_serving pod (on_serving pod))
      else some (on_serving pod)

  -- The loop: a pod without a controller is passed over.
  patches_of : Pod → Option String → List (Pod × PodCondition) → Option (List (Pod × PodCondition))
  unfolding next_serving
  patches_of pod none rest = some rest
  patches_of pod (some uid) rest = next_serving pod uid >>= λ c. some ((pod, c) ∷ rest)

  patch_all : List Pod → Option (List (Pod × PodCondition))
  unfolding patches_of
  patch_all [] = some []
  patch_all (p ∷ ps) = patch_all ps >>= patches_of p p.controller_uid

  unfoldable pub reconcile : Option (List (Pod × PodCondition))
  unfolding patch_all default_labels
  reconcile = patch_all (client.pods e.namespace (default_labels e))
