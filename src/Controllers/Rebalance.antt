-- ===== src/Controllers/Rebalance.antt =====
-- controllers/apps/v2beta1/rebalance_controller.go: the calls of the rebalance API and the handler
-- that moves a Rebalance from phase to phase. `none` is a panic.
pub mod Handler
pub mod Reconcile
pub mod Deletion
pub mod Stopping
use emqx_operator.Prelude.{
  ◌+++◌, ℕ, ℤ, String, str_eq, Bool, true, false, not, Option, none, some, List, [], ◌∷◌, ◌++◌, map,
  ◌==◌, head?, ◌>>=◌, if◌then◌else◌,
}
use emqx_operator.Errors.{Error, other, Result, ok, err}
use emqx_operator.Http.{Requester, Response, Body, Json, number, texts, decimal}
use emqx_operator.Kube.{is_true}
use emqx_operator.Api.Types.{Emqx, EmqxNode}
use emqx_operator.Api.Rebalance.{
  Rebalance, RebalanceStatus, RebalanceState, RebalanceStrategy, RebalanceCondition, RebalancePhase,
  RebalanceConditionType, no_phase, processing, completed, failed, other_phase, set_failed,
  set_completed, set_processing,
}

-- The EMQX object that a Rebalance names: the node names in the status of a v1beta4
-- EmqxEnterprise, a v2beta1 EMQX, or an object of another kind.
pub data TargetEmqx : Type 0 where
  enterprise : List String → TargetEmqx
  emqx : Emqx → TargetEmqx
  other_object : TargetEmqx

-- gjson on the body of an answer, and strconv.ParseFloat on a threshold.
pub record RebalanceDecoder : Type 0 where
  pub code : String → String
  pub message : String → String
  pub rebalances : String → Option (List RebalanceState)
  pub parse_float : String → String
  pub error_text : Error → String

abbrev type_error : Error
type_error = other "emqx type error"

abbrev node_names : List EmqxNode → List String
node_names = map (λ n. n.node)

abbrev replicants_or_cores : List EmqxNode → List EmqxNode → List EmqxNode
replicants_or_cores [] cores = cores
replicants_or_cores (n ∷ ns) cores = n ∷ ns

unfoldable pub get_emqx_node_names : TargetEmqx → Result (List String)
get_emqx_node_names (enterprise nodes) = ok nodes
get_emqx_node_names (emqx e) =
    ok (node_names (replicants_or_cores e.status.replicant_nodes e.status.core_nodes))
get_emqx_node_names other_object = err type_error

abbrev api_path : String → String → String → String
api_path api node verb = api +++ "/" +++ node +++ verb

abbrev api_rebalance_v4 : String
api_rebalance_v4 = "api/v4/load_rebalance"

abbrev api_rebalance_v5 : String
api_rebalance_v5 = "api/v5/load_rebalance"

unfoldable pub rebalance_start_url : TargetEmqx → String → Result String
rebalance_start_url (enterprise _) node = ok (api_path api_rebalance_v4 node "/start")
rebalance_start_url (emqx _) node = ok (api_path api_rebalance_v5 node "/start")
rebalance_start_url other_object node = err type_error

unfoldable pub rebalance_stop_url : TargetEmqx → String → Result String
rebalance_stop_url (enterprise _) node = ok (api_path api_rebalance_v4 node "/stop")
rebalance_stop_url (emqx _) node = ok (api_path api_rebalance_v5 node "/stop")
rebalance_stop_url other_object node = err type_error

unfoldable pub rebalance_status_url : TargetEmqx → Result String
rebalance_status_url (enterprise _) = ok (api_rebalance_v4 +++ "/global_status")
rebalance_status_url (emqx _) = ok (api_rebalance_v5 +++ "/global_status")
rebalance_status_url other_object = err type_error

abbrev threshold : String → String → RebalanceDecoder → Body
threshold key text d = if str_eq text "" then [] else (key, decimal (d.parse_float text)) ∷ []

unfoldable pub get_request_bytes : RebalanceDecoder → RebalanceStrategy → List String → Body
get_request_bytes d s nodes =
    ("conn_evict_rate", number s.conn_evict_rate)
    ∷ ("sess_evict_rate", number s.sess_evict_rate)
    ∷ ("wait_takeover", number s.wait_takeover)
    ∷ ("wait_health_check", number s.wait_health_check)
    ∷ ("abs_conn_threshold", number s.abs_conn_threshold)
    ∷ ("abs_sess_threshold", number s.abs_sess_threshold)
    ∷ ("nodes", texts nodes)
    ∷ (threshold "rel_conn_threshold" s.rel_conn_threshold d
        ++ threshold "rel_sess_threshold" s.rel_sess_threshold d)

-- The checks on the answer to a start or a stop.
abbrev accepted : RebalanceDecoder → Result Response → Result (Unit {0})
accepted d (err e) = err e
accepted d (ok resp) =
    if not (resp.status_code == 200)
    then err (other "request api failed")
    else if str_eq (d.code resp.body) "400"
    then err (other (d.message resp.body))
    else ok tt

-- A request through the requester, which panics if that is nil.
abbrev pub send :
    RebalanceDecoder → Option Requester → Body → Result String → Option (Result (Unit {0}))
send d r body (err e) = some (err e)
send d r body (ok path) = r >>= λ req. some (accepted d (req.request "POST" path body))

abbrev start_on :
    RebalanceDecoder
    → TargetEmqx
    → Option Requester
    → Rebalance
    → Result (List String)
    → Option (Result (Unit {0}))
start_on d target r rebalance (err e) = some (err e)
start_on d target r rebalance (ok nodes) = head? nodes >>= λ node.
    send d r (get_request_bytes d rebalance.strategy nodes) (rebalance_start_url target node)

-- startRebalance; `nodes[0]` panics where there is no node.
unfoldable pub start_rebalance :
    RebalanceDecoder → TargetEmqx → Option Requester → Rebalance → Option (Result (Unit {0}))
unfolding get_emqx_node_names rebalance_start_url get_request_bytes
start_rebalance d target r rebalance = start_on d target r rebalance (get_emqx_node_names target)

abbrev states_of : RebalanceDecoder → Result Response → Result (List RebalanceState)
states_of d (err e) = err e
states_of d (ok resp) =
    if not (resp.status_code == 200)
    then err (other "request api failed")
    else elim (d.rebalances resp.body) [
      | none ↦ err (other "failed to unmarshal rebalances")
      | some states ↦ ok states
    ]

abbrev states_from :
    RebalanceDecoder → Option Requester → Result String → Option (Result (List RebalanceState))
states_from d r (err e) = some (err e)
states_from d r (ok path) = r >>= λ req. some (states_of d (req.request "GET" path []))

unfoldable pub get_rebalance_status :
    RebalanceDecoder → TargetEmqx → Option Requester → Option (Result (List RebalanceState))
unfolding rebalance_status_url
get_rebalance_status d target r = states_from d r (rebalance_status_url target)

-- stopRebalance; `RebalanceStates[0]` panics where there is no state.
unfoldable pub stop_rebalance :
    RebalanceDecoder → TargetEmqx → Option Requester → Rebalance → Option (Result (Unit {0}))
unfolding rebalance_stop_url
stop_rebalance d target r rebalance = head? rebalance.status.rebalance_states >>= λ state.
    send d r [] (rebalance_stop_url target state.coordinator_node)

abbrev pub condition_of : RebalanceConditionType → String → RebalanceCondition
condition_of type message = record {
  type = type;
  status = is_true;
  last_update_time = 0;
  last_transition_time = 0;
  message = message;
}

abbrev pub processing_condition : RebalanceCondition
processing_condition = condition_of RebalanceConditionType.processing ""

abbrev pub completed_condition : RebalanceCondition
completed_condition = condition_of RebalanceConditionType.completed ""

abbrev pub failed_condition : String → RebalanceCondition
failed_condition message = condition_of RebalanceConditionType.failed message

abbrev with_states : List RebalanceState → RebalanceStatus → RebalanceStatus
with_states states s = record s { rebalance_states = states }

-- The branch of the phase "": the second call is made after a failure too.
handle_start : (Error → String) → ℕ → Result (Unit {0}) → RebalanceStatus → RebalanceStatus
unfolding set_failed set_processing
handle_start text now (ok _) s = (set_processing now processing_condition s).0
handle_start text now (err e) s =
    (set_processing now processing_condition (
      with_states []
        (set_failed now (failed_condition ("Failed to start rebalance: " +++ text e)) s).0)).0

abbrev fail_on :
    (Error → String) → ℕ → Result (List RebalanceState) → RebalanceStatus → RebalanceStatus
fail_on text now (ok states) s = s
fail_on text now (err e) s =
    (set_failed now (failed_condition ("Failed to get rebalance status: " +++ text e)) s).0

-- Beside an error the list is nil.
abbrev states_or_nil : Result (List RebalanceState) → List RebalanceState
states_or_nil (ok states) = states
states_or_nil (err e) = []

abbrev complete_on : ℕ → List RebalanceState → RebalanceStatus → RebalanceStatus
complete_on now [] s = with_states [] (set_completed now completed_condition s).0
complete_on now (x ∷ xs) s = s

-- The branch of the phase Processing.
handle_processing :
    (Error → String) → ℕ → Result (List RebalanceState) → RebalanceStatus → RebalanceStatus
unfolding set_failed set_completed set_processing
handle_processing text now answer s =
    with_states (states_or_nil answer)
      (set_processing now processing_condition
        (complete_on now (states_or_nil answer) (fail_on text now answer s))).0

handle_phase :
    (Error → String)
    → RebalancePhase
    → ℕ
    → Option (Result (Unit {0}))
    → Option (Result (List RebalanceState))
    → RebalanceStatus
    → Option RebalanceStatus
unfolding handle_start handle_processing
handle_phase text no_phase now start states s = start >>= λ a. some (handle_start text now a s)
handle_phase text processing now start states s =
    states >>= λ a. some (handle_processing text now a s)
handle_phase text failed now start states s = some (with_states [] s)
handle_phase text completed now start states s = some (with_states [] s)
handle_phase text (other_phase p) now start states s = none

-- rebalanceStatusHandler, where `start` and `states` are what its two function arguments answer.
unfoldable pub rebalance_status_handler :
    (Error → String)
    → ℕ
    → Option (Result (Unit {0}))
    → Option (Result (List RebalanceState))
    → RebalanceStatus
    → Option RebalanceStatus
unfolding handle_phase
rebalance_status_handler text now start states s = handle_phase text s.phase now start states s
