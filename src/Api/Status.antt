-- ===== src/Api/Status.antt =====
-- apis/apps/v2beta1/status.go: the list of conditions in the status of an EMQX resource. `now` is
-- the reading of metav1.Now() in a call.
pub mod Conditions
pub mod Queries
use emqx_operator.Prelude.{
  ℕ, suc, ◌+◌, String, str_eq, Bool, false, Option, none, some, List, [], ◌∷◌, ◌++◌, ltb, set, take,
  drop, if◌then◌else◌,
}
use emqx_operator.Prelude.Sort.{sort}
use emqx_operator.Kube.{Condition, status_true}
use emqx_operator.Api.Types.{EmqxStatus}

abbrev pub initialized : String
initialized = "Initialized"

abbrev pub core_nodes_progressing : String
core_nodes_progressing = "CoreNodesProgressing"

abbrev pub core_nodes_ready : String
core_nodes_ready = "CoreNodesReady"

abbrev pub replicant_nodes_progressing : String
replicant_nodes_progressing = "ReplicantNodesProgressing"

abbrev pub replicant_nodes_ready : String
replicant_nodes_ready = "ReplicantNodesReady"

abbrev pub available : String
available = "Available"

abbrev pub ready : String
ready = "Ready"

abbrev shift : Option (ℕ × Condition) → Option (ℕ × Condition)
shift none = none
shift (some (i, c)) = some (suc i, c)

find_condition : String → List Condition → Option (ℕ × Condition)
find_condition type [] = none
find_condition type (c ∷ cs) =
    if str_eq c.type type then some (0, c) else shift (find_condition type cs)

-- `none` is the answer (-1, nil).
unfoldable pub get_condition : EmqxStatus → String → Option (ℕ × Condition)
unfolding find_condition
get_condition s type = find_condition type s.conditions

-- The `less` of the sort: the latest transition comes first.
abbrev pub newer : Condition → Condition → Bool
newer a b = ltb b.last_transition_time a.last_transition_time

write_condition : Condition → Option (ℕ × Condition) → List Condition → List Condition
write_condition c (some (pos, old)) cs = set cs pos c
write_condition c none cs = cs ++ c ∷ []

unfoldable pub set_condition : ℕ → Condition → EmqxStatus → EmqxStatus
unfolding get_condition write_condition sort
set_condition now c s =
    let stamped = record c { last_transition_time = now } in
    record s {
      conditions = sort newer (write_condition stamped (get_condition s stamped.type) s.conditions);
    }

unfoldable pub last_true : List Condition → Option Condition
last_true [] = none
last_true (c ∷ cs) = if status_true c.status then some c else last_true cs

unfoldable pub get_last_true_condition : EmqxStatus → Option Condition
unfolding last_true
get_last_true_condition s = last_true s.conditions

unfoldable pub is_condition_true : EmqxStatus → String → Bool
unfolding get_condition
is_condition_true s type = elim (get_condition s type) [
  | none ↦ false
  | some (i, c) ↦ status_true c.status
]

cut_condition : Option (ℕ × Condition) → List Condition → List Condition
cut_condition none cs = cs
cut_condition (some (pos, c)) cs = take pos cs ++ drop (pos + 1) cs

unfoldable pub remove_condition : String → EmqxStatus → EmqxStatus
unfolding get_condition cut_condition
remove_condition type s = record s {
  conditions = cut_condition (get_condition s type) s.conditions;
}
