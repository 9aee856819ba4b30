-- ===== src/Api/Status/Queries.antt =====
-- What the queries on the conditions answer after a write or a removal.
use emqx_operator.Prelude.{
  ℕ, String, str_eq, eq_iff, Bool, true, false, ◌≡◌, refl, Option, none, some, List, [], ◌∷◌, arith,
  if◌then◌else◌, All,
}
use emqx_operator.Kube.{Condition, status_true}
use emqx_operator.Api.Types.{EmqxStatus}
use emqx_operator.Api.Status.{
  shift, find_condition, last_true, set_condition, get_last_true_condition, is_condition_true,
  remove_condition,
}
use emqx_operator.Api.Status.Conditions.{
  erase, Distinct, IsLog, set_condition-conditions, remove_condition-conditions,
}

abbrev holds : Option (ℕ × Condition) → Bool
holds none = false
holds (some (i, c)) = status_true c.status

holds-shift : (r : Option (ℕ × Condition)) → holds (shift r) ≡ holds r
holds-shift none = refl
holds-shift (some (i, c)) = refl

holds_absent :
    (type : String) (cs : List Condition)
    → All (λ d. str_eq d.type type ≡ false) cs
    → holds (find_condition type cs) ≡ false
unfolding find_condition
holds_absent type [] h = refl
holds_absent type (c ∷ cs) h = rw (h.0, holds-shift) (holds_absent type cs h.1)

holds-erase :
    (type other : String) (cs : List Condition)
    → Distinct cs
    → holds (find_condition other (erase type cs))
      ≡ (if str_eq type other then false else holds (find_condition other cs))
unfolding find_condition erase
holds-erase type other [] h = ground arith
holds-erase type other (c ∷ cs) h = ground (
  arith,
  eq_iff type other,
  eq_iff c.type type,
  eq_iff c.type other,
  holds-shift (find_condition other (erase type cs)),
  holds-shift (find_condition other cs),
  holds-erase type other cs h.1,
  holds_absent c.type cs h.0,
)

is_condition_true-holds :
    (s : EmqxStatus) (type : String)
    → is_condition_true s type ≡ holds (find_condition type s.conditions)
unfolding is_condition_true
is_condition_true-holds s type = ground arith

holds-cons :
    (c : Condition) (cs : List Condition) (type : String)
    → holds (find_condition type (c ∷ cs))
      ≡ (if str_eq c.type type then status_true c.status else holds (find_condition type cs))
unfolding find_condition
holds-cons c cs type = ground (arith, holds-shift (find_condition type cs))

-- After SetCondition the query IsConditionTrue answers by the written condition for its type, and
-- as before for every other type, if the list of conditions was in order.
pub is_condition_true-set_condition :
    (now : ℕ) (c : Condition) (s : EmqxStatus) (type : String)
    → IsLog now s.conditions
    → is_condition_true (set_condition now c s) type
      ≡ (if str_eq c.type type then status_true c.status else is_condition_true s type)
is_condition_true-set_condition now c s type log =
    rw
      (
        is_condition_true-holds (set_condition now c s) type,
        is_condition_true-holds s type,
        set_condition-conditions now c s log,
        holds-cons,
      )
      (ground (arith, holds-erase c.type type s.conditions log.distinct))

-- After RemoveCondition the query IsConditionTrue answers no for the removed type, and as before
-- for every other type, if the list of conditions was in order.
pub is_condition_true-remove_condition :
    (now : ℕ) (s : EmqxStatus) (type other : String)
    → IsLog now s.conditions
    → is_condition_true (remove_condition type s) other
      ≡ (if str_eq type other then false else is_condition_true s other)
is_condition_true-remove_condition now s type other log =
    rw
      (
        is_condition_true-holds (remove_condition type s) other,
        is_condition_true-holds s other,
        remove_condition-conditions type s,
      )
      (holds-erase type other s.conditions log.distinct)

-- After a condition with status True is set, it is the last true condition, if the list of
-- conditions was in order.
pub get_last_true_condition-set_condition :
    (now : ℕ) (c : Condition) (s : EmqxStatus)
    → IsLog now s.conditions
    → status_true c.status ≡ true
    → get_last_true_condition (set_condition now c s)
      ≡ some (record c { last_transition_time = now })
unfolding get_last_true_condition last_true
get_last_true_condition-set_condition now c s log h =
    rw (set_condition-conditions now c s log) (rw h)
