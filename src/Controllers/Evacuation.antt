-- ===== src/Controllers/Evacuation.antt =====
-- controllers/apps/v2beta1/sync_pods.go: the calls of the scale-down that reach the cluster, and when
-- an evacuation has to come first. What the cluster answers is a parameter.
use emqx_operator.Prelude.{
  ◌+++◌, ℕ, ℤ, pos, is_positive, String, str_eq, Bool, not, ◌&&◌, Option, none, some, List, [], ◌∷◌,
  map, keep, ◌==◌, if◌then◌else◌,
}
use emqx_operator.Errors.{Error, other, Result, ok, err}
use emqx_operator.Http.{Requester, Response, Decoder, Body, number, texts}
use emqx_operator.Kube.{Workload, Pod, Event}
use emqx_operator.Api.Types.{Emqx, EmqxNode, EvacuationStrategy}
use emqx_operator.Api.Labels.{is_exist_replicant}
use emqx_operator.Controllers.Sets.{Sets, check_wait_takeover_ready, handler_event_list}

-- What the calls answer: the events of an object, fmt's printing of an integer, the two Gets of a
-- pod and the errors of the three Updates.
pub record Cluster : Type 0 where
  pub events : Workload → List Event
  pub digits : ℤ → String
  pub get_pod : String → Result Pod
  pub get_annotated : Pod → Result Pod
  pub update_pod_error : Option Error
  pub update_set_error : Option Error

pub data Action : Type 0 where
  start_evacuation : String → Body → Action
  update_pod : Pod → Action
  update_set : Workload → Action

pub record Reply : Type 0 where
  pub actions : List Action
  pub error : Option Error

-- An answer with the calls that led to it.
abbrev pub Effect : Type 0 → Type 0
Effect A = List Action × Result A

abbrev pub deletion_cost : String
deletion_cost = "controller.kubernetes.io/pod-deletion-cost"

abbrev pub stopped_node : String → EmqxNode
stopped_node name = record {
  controller_uid = "";
  pod_uid = "";
  node = name;
  node_status = "stopped";
  version = "";
  role = "";
  edition = "";
  session = pos 0;
  uptime = pos 0;
}

abbrev pub node_from : Decoder → String → Result Response → Result EmqxNode
node_from d name (err e) = err e
node_from d name (ok resp) =
    if resp.status_code == 404
    then ok (stopped_node name)
    else if not (resp.status_code == 200)
    then err (other "failed to get API")
    else elim (d.node resp.body) [
      | none ↦ err (other "failed to unmarshal node statuses")
      | some node ↦ ok node
    ]

unfoldable pub get_emqx_node_info_by_api : Requester → Decoder → String → Result EmqxNode
get_emqx_node_info_by_api r d name =
    node_from d name (r.request "GET" ("api/v5/nodes/" +++ name) [])

abbrev pub wait_takeover : EvacuationStrategy → Body
wait_takeover s =
    if is_positive s.wait_takeover then ("wait_takeover", number s.wait_takeover) ∷ [] else []

unfoldable pub evacuation_body : EvacuationStrategy → List String → Body
evacuation_body s migrate_to =
    ("conn_evict_rate", number s.conn_evict_rate)
    ∷ ("sess_evict_rate", number s.sess_evict_rate)
    ∷ ("migrate_to", texts migrate_to)
    ∷ wait_takeover s

abbrev pub started : Decoder → Result Response → Result (Unit {0})
started d (err e) = err e
started d (ok resp) =
    if resp.status_code == 400 && d.already_started resp.body
    then ok tt
    else if not (resp.status_code == 200)
    then err (other "failed to request API")
    else ok tt

-- startEvacuationByAPI: the request is an effect of its own.
unfoldable pub start_evacuation_by_api :
    Requester → Decoder → Emqx → List String → String → Effect (Unit {0})
unfolding evacuation_body
start_evacuation_by_api r d instance' migrate_to node =
    let body = evacuation_body instance'.spec.update_strategy.evacuation_strategy migrate_to in
    (
      start_evacuation node body ∷ [],
      started d (r.request "POST" ("api/v5/load_rebalance/" +++ node +++ "/evacuation/start") body),
    )

-- The names of the nodes that a set controls.
abbrev pub names_on : Option Workload → List EmqxNode → List String
names_on none nodes = []
names_on (some w) nodes = map (λ n. n.node) (keep (λ n. str_eq n.controller_uid w.uid) nodes)

-- targetedEMQXNodesName
unfoldable pub targeted_names : Emqx → Sets → Sets → List String
unfolding is_exist_replicant
targeted_names e sts rs =
    if is_exist_replicant e
    then names_on rs.update e.status.replicant_nodes
    else names_on sts.update e.status.core_nodes

abbrev pub needs_evacuation : EmqxNode → Bool
needs_evacuation node = str_eq node.edition "Enterprise" && is_positive node.session

-- After the start of an evacuation there is nothing to scale down yet.
abbrev pub not_yet {ℓ} : {A : Type ℓ} → A → Result (Unit {0}) → Result A
not_yet nothing (err e) = err e
not_yet nothing (ok _) = ok nothing

abbrev pub evacuate : {A : Type 0} → A → Effect (Unit {0}) → Effect A
evacuate nothing start = (start.0, not_yet nothing start.1)

-- The common end of canBeScaleDownRs and canBeScaleDownSts: `nothing`, or `found`.
unfoldable pub evacuate_or_wait :
    {A : Type 0}
    → Cluster
    → Requester
    → Decoder
    → ℕ
    → Emqx
    → List String
    → Workload
    → EmqxNode
    → (nothing found : A) → Effect A
unfolding start_evacuation_by_api
evacuate_or_wait c r d now e names w node nothing found =
    if needs_evacuation node
    then evacuate nothing (start_evacuation_by_api r d e names node.node)
    else if not (check_wait_takeover_ready now e (handler_event_list (c.events w)))
    then ([], ok nothing)
    else ([], ok found)
