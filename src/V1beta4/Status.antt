-- ===== src/V1beta4/Status.antt =====
-- apis/apps/v1beta4/status_types.go and the methods on the status in emqxenterprise_types.go, which
-- those in emqxbroker_types.go repeat.
use emqx_operator.Prelude.{
  ℕ, zero, suc, String, str_eq, Bool, false, Option, none, some, List, [], ◌∷◌, ◌++◌, ltb, set,
  if◌then◌else◌,
}
use emqx_operator.Prelude.Sort.{sort}
use emqx_operator.Kube.{ConditionStatus, status_true}
use emqx_operator.V1beta4.{Condition, EmqxStatus}

abbrev pub running : String
running = "Running"

abbrev pub blue_green_updating : String
blue_green_updating = "BlueGreenUpdating"

abbrev shift : Option (ℕ × Condition) → Option (ℕ × Condition)
shift none = none
shift (some (i, c)) = some (suc i, c)

-- indexCondition, with the condition; `none` is -1.
unfoldable pub index_condition : List Condition → String → Option (ℕ × Condition)
index_condition [] type = none
index_condition (c ∷ cs) type =
    let rest = index_condition cs type in if str_eq type c.type then some (0, c) else shift rest

abbrev pub newer : Condition → Condition → Bool
newer a b = ltb b.last_update_time a.last_update_time

-- Only the first condition keeps its transition time.
abbrev pub write_condition : List Condition → Condition → Option (ℕ × Condition) → List Condition
write_condition cs c none = cs ++ c ∷ []
write_condition cs c (some (zero, old)) =
    set cs 0 (record c { last_transition_time = old.last_transition_time })
write_condition cs c (some (suc i, old)) = set cs (suc i) c

unfoldable pub add_condition_to : ℕ → List Condition → Condition → List Condition
unfolding index_condition sort
add_condition_to now cs c =
    let stamped = record c { last_update_time = now; last_transition_time = now } in
    sort newer (write_condition cs stamped (index_condition cs c.type))

unfoldable pub get_condition : EmqxStatus → String → Option (ℕ × Condition)
unfolding index_condition
get_condition s type = index_condition s.conditions type

unfoldable pub is_condition_true : EmqxStatus → String → Bool
unfolding get_condition
is_condition_true s type = elim (get_condition s type) [
  | none ↦ false
  | some (i, c) ↦ status_true c.status
]

unfoldable pub add_condition :
    ℕ → String → ConditionStatus → String → String → EmqxStatus → EmqxStatus
unfolding add_condition_to
add_condition now type status reason message s = record s {
  conditions = add_condition_to now s.conditions (record {
    type = type;
    status = status;
    last_update_time = now;
    last_transition_time = now;
    reason = reason;
    message = message;
  });
}
