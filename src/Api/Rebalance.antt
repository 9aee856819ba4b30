-- ===== src/Api/Rebalance.antt =====
-- apis/apps/v2beta1/rebalance_types.go: the Rebalance resource and the methods on its status. `now`
-- is the reading of metav1.Now() in a call, and a zero time is `none`.
use emqx_operator.Prelude.{
  ℕ, suc, ℤ, String, str_eq, Bool, true, false, not, Option, none, some, List, [], ◌∷◌, ◌++◌, ltb,
  set, if◌then◌else◌,
}
use emqx_operator.Prelude.Sort.{sort}
use emqx_operator.Errors.{Error, other}
use emqx_operator.Kube.{ConditionStatus, is_true, is_false, is_unknown, unset}

-- RebalancePhase: a string that the code compares with "", "Processing", "Completed" and "Failed".
pub data RebalancePhase : Type 0 where
  no_phase processing completed failed : RebalancePhase
  other_phase : String → RebalancePhase

-- RebalanceConditionType
pub data RebalanceConditionType : Type 0 where
  processing completed failed : RebalanceConditionType
  other_type : String → RebalanceConditionType

pub record RebalanceCondition : Type 0 where
  pub type : RebalanceConditionType
  pub status : ConditionStatus
  pub last_update_time : ℕ
  pub last_transition_time : ℕ
  pub message : String

pub record RebalanceState : Type 0 where
  pub state : String
  pub node : String
  pub coordinator_node : String

pub record RebalanceStrategy : Type 0 where
  pub conn_evict_rate : ℤ
  pub sess_evict_rate : ℤ
  pub wait_takeover : ℤ
  pub wait_health_check : ℤ
  pub abs_conn_threshold : ℤ
  pub rel_conn_threshold : String
  pub abs_sess_threshold : ℤ
  pub rel_sess_threshold : String

pub record RebalanceStatus : Type 0 where
  pub conditions : List RebalanceCondition
  pub phase : RebalancePhase
  pub rebalance_states : List RebalanceState
  pub started_time : Option ℕ
  pub completed_time : Option ℕ

pub record Rebalance : Type 0 where
  pub name : String
  pub namespace : String
  pub deletion_timestamp : Option ℕ
  pub finalizers : List String
  pub instance_kind : String
  pub instance_name : String
  pub strategy : RebalanceStrategy
  pub status : RebalanceStatus

abbrev pub same_type : RebalanceConditionType → RebalanceConditionType → Bool
same_type processing processing = true
same_type completed completed = true
same_type failed failed = true
same_type (other_type a) (other_type b) = str_eq a b
same_type _ _ = false

abbrev same_status : ConditionStatus → ConditionStatus → Bool
same_status is_true is_true = true
same_status is_false is_false = true
same_status is_unknown is_unknown = true
same_status unset unset = true
same_status _ _ = false

abbrev next_index : Option (ℕ × RebalanceCondition) → Option (ℕ × RebalanceCondition)
next_index none = none
next_index (some (i, c)) = some (suc i, c)

-- The index, with the condition that stands there; `none` is -1.
unfoldable pub get_condition_index :
    List RebalanceCondition → RebalanceConditionType → Option (ℕ × RebalanceCondition)
get_condition_index [] type = none
get_condition_index (c ∷ cs) type =
    if same_type type c.type then some (0, c) else next_index (get_condition_index cs type)

abbrev by_update : RebalanceCondition → RebalanceCondition → Bool
by_update a b = ltb b.last_update_time a.last_update_time

abbrev write_condition :
    ℕ
    → RebalanceCondition
    → Option (ℕ × RebalanceCondition)
    → List RebalanceCondition
    → List RebalanceCondition
write_condition now c none cs =
    cs ++ record c { last_update_time = now; last_transition_time = now } ∷ []
write_condition now c (some (pos, old)) cs = set cs pos (record c {
  last_update_time = now;
  last_transition_time = if same_status old.status c.status then old.last_transition_time else now;
})

unfoldable pub set_condition : ℕ → RebalanceCondition → RebalanceStatus → RebalanceStatus
unfolding get_condition_index sort
set_condition now c s = record s {
  conditions =
      sort by_update (write_condition now c (get_condition_index s.conditions c.type) s.conditions);
}

unfoldable pub set_failed :
    ℕ → RebalanceCondition → RebalanceStatus → RebalanceStatus × Option Error
unfolding set_condition
set_failed now c s =
    if not (same_type c.type failed)
    then (s, some (other "condition type must be Failed"))
    else (set_condition now c (record s { phase = failed }), none)

abbrev pub is_phase_processing : RebalancePhase → Bool
is_phase_processing processing = true
is_phase_processing _ = false

unfoldable pub set_completed :
    ℕ → RebalanceCondition → RebalanceStatus → RebalanceStatus × Option Error
unfolding set_condition
set_completed now c s =
    if not (is_phase_processing s.phase)
    then (s, some (other "rebalance job is not in processing"))
    else if not (same_type c.type completed)
    then (s, some (other "condition type must be Completed"))
    else (set_condition now c (record s { phase = completed; completed_time = some now }), none)

abbrev started_at : ℕ → Option ℕ → Option ℕ
started_at now none = some now
started_at now (some t) = some t

abbrev start_processing : ℕ → RebalanceCondition → RebalanceStatus → RebalanceStatus × Option Error
start_processing now c s =
    if not (same_type c.type processing)
    then (s, some (other "condition type must be Processing"))
    else (
      set_condition now c
          (record s { phase = processing; started_time = started_at now s.started_time }),
      none,
    )

abbrev processing_from :
    RebalancePhase → ℕ → RebalanceCondition → RebalanceStatus → RebalanceStatus × Option Error
processing_from failed now c s = (s, some (other "rebalance job has been failed"))
processing_from completed now c s = (s, some (other "rebalance job has been completed"))
processing_from _ now c s = start_processing now c s

unfoldable pub set_processing :
    ℕ → RebalanceCondition → RebalanceStatus → RebalanceStatus × Option Error
unfolding set_condition
set_processing now c s = processing_from s.phase now c s
