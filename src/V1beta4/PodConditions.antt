-- ===== src/V1beta4/PodConditions.antt =====
-- controllers/apps/v1beta4/update_pod_conditions.go: which pods serve. The request to a pod's own API
-- is a parameter; the result has the condition that is patched into each pod, in order.
pub mod Probed
use emqx_operator.Prelude.{
  ℕ, String, str_eq, Bool, true, false, not, ◌&&◌, Option, none, some, ◌>>=◌, List, [], ◌∷◌, any,
  ◌==◌, if◌then◌else◌,
}
use emqx_operator.Errors.{Error, Result, ok, err}
use emqx_operator.Http.{Response}
use emqx_operator.Kube.{
  Labels, Client, Pod, PodCondition, ConditionStatus, is_true, is_false, status_true,
}
use emqx_operator.V1beta4.{Emqx, EmqxNode}
use emqx_operator.V1beta4.BlueGreen.{extract_pod_name}

abbrev pub pod_on_serving : String
pod_on_serving = "apps.emqx.io/on-serving"

-- The entry of the map of conditions: the last one of the type.
unfoldable pub condition_of : String → List PodCondition → Option PodCondition
condition_of type [] = none
condition_of type (c ∷ cs) = elim (condition_of type cs) [
  | some found ↦ some found
  | none ↦ if str_eq c.type type then some c else none
]

abbrev pub is_ready : Option PodCondition → Bool
is_ready none = false
is_ready (some c) = status_true c.status

-- The names of the pods that the nodes run on.
unfoldable pub cluster_pods : List EmqxNode → Option (List String)
unfolding extract_pod_name
cluster_pods [] = some []
cluster_pods (n ∷ ns) =
    let rest = cluster_pods ns in
    extract_pod_name n.node >>= λ name. (rest >>= λ names. some (name ∷ names))

unfoldable pub is_eligible : List String → Pod → Bool
unfolding condition_of
is_eligible names pod =
    any (str_eq pod.name) names && is_ready (condition_of "ContainersReady" pod.conditions)

-- The transition time that the pod's condition has.
abbrev transition : ℕ → Option PodCondition → Option ℕ
transition now none = some now
transition now (some c) = c.last_transition_time

abbrev pub from_answer : Result Response → Result ConditionStatus
from_answer (err x) = err x
from_answer (ok resp) = ok (if not (resp.status_code == 200) then is_false else is_true)

pub record Patched : Type 0 where
  pub patches : List (Pod × PodCondition)
  pub error : Option Error

abbrev pub done : Option Error → Patched
done error = record { patches = []; error = error }

module _ (availability : Pod → Result Response) (patch_error : Pod → Option Error) (now : ℕ) where
  unfoldable pub check_rebalance_status : Pod → Result ConditionStatus
  check_rebalance_status pod = from_answer (availability pod)

  unfoldable pub serving_of : Bool → Pod → Result ConditionStatus
  unfolding check_rebalance_status
  serving_of is_enterprise pod = if is_enterprise then check_rebalance_status pod else ok is_true

  unfoldable pub on_serving : Pod → ConditionStatus → PodCondition
  unfolding condition_of
  on_serving pod status = record {
    type = pod_on_serving;
    status = status;
    last_transition_time = transition now (condition_of pod_on_serving pod.conditions);
  }

  abbrev pub add_patch : Pod → PodCondition → Option Error → Patched → Patched
  add_patch pod c (some x) rest = record { patches = (pod, c) ∷ []; error = some x }
  add_patch pod c none rest = record rest { patches = (pod, c) ∷ rest.patches }

  unfoldable pub patch : Pod → Result ConditionStatus → Patched → Patched
  unfolding on_serving
  patch pod (err x) rest = done (some x)
  patch pod (ok status) rest = add_patch pod (on_serving pod status) (patch_error pod) rest

  unfoldable pub patch_all : Bool → List String → List Pod → Patched
  unfolding is_eligible patch serving_of
  patch_all is_enterprise names [] = done none
  patch_all is_enterprise names (p ∷ ps) =
      let rest = patch_all is_enterprise names ps in
      if is_eligible names p then patch p (serving_of is_enterprise p) rest else rest

  -- updatePodConditions.reconcile, where the labels are those of the instance's template.
  unfoldable pub reconcile : Client → Labels → Emqx → Option Patched
  unfolding cluster_pods patch_all
  reconcile client labels e = cluster_pods e.status.emqx_nodes >>= λ names.
      some (patch_all e.is_enterprise names (client.pods e.namespace labels))
