-- ===== src/Api/Status/Conditions.antt =====
-- The conditions in the status of an EMQX resource stay one to a type, the latest first.
use emqx_operator.Prelude.{
  ℕ, suc, ◌+◌, ◌<◌, ◌≤◌, String, str_eq, eq_iff, false, ◌≡◌, refl, ap, Option, none, some, inl, inr,
  List, [], ◌∷◌, All, All-mono, arith, Bool-cases, lt→ltb, ◌∙◌, if◌then◌else◌,
}
use emqx_operator.Prelude.Sort.{sort, insert, IsSorted, insert_front, sort_of_IsSorted}
use emqx_operator.Kube.{Condition}
use emqx_operator.Api.Types.{EmqxStatus}
use emqx_operator.Api.Status.{
  newer, shift, find_condition, write_condition, cut_condition, set_condition, remove_condition,
}

-- The list without its first condition of a type.
unfoldable pub erase : String → List Condition → List Condition
erase type [] = []
erase type (c ∷ cs) = if str_eq c.type type then cs else c ∷ erase type cs

abbrev pub Distinct : List Condition → Type 0
Distinct [] = Unit {0}
Distinct (c ∷ cs) = All (λ d. str_eq d.type c.type ≡ false) cs × Distinct cs

abbrev pub Before : ℕ → List Condition → Type 0
Before now = All (λ c. c.last_transition_time < now)

-- The state in which every operation leaves the list: one condition of each type, the latest
-- transition first, and all of them before the next reading of the clock.
pub record IsLog (now : ℕ) (cs : List Condition) : Type 0 where
  pub distinct : Distinct cs
  pub sorted : IsSorted newer cs
  pub past : Before now cs

write_condition-shift :
    (c x : Condition) (r : Option (ℕ × Condition)) (cs : List Condition)
    → write_condition c (shift r) (x ∷ cs) ≡ x ∷ write_condition c r cs
unfolding write_condition
write_condition-shift c x none cs = refl
write_condition-shift c x (some (i, d)) cs = refl

cut_condition-shift :
    (x : Condition) (r : Option (ℕ × Condition)) (cs : List Condition)
    → cut_condition (shift r) (x ∷ cs) ≡ x ∷ cut_condition r cs
unfolding cut_condition
cut_condition-shift x none cs = refl
cut_condition-shift x (some (i, d)) cs = let e : suc i + 1 ≡ suc (i + 1) = omega arith in rw e

cut-eq-erase :
    (type : String) (cs : List Condition)
    → cut_condition (find_condition type cs) cs ≡ erase type cs
unfolding cut_condition find_condition erase
cut-eq-erase type [] = refl
cut-eq-erase type (c ∷ cs) = elim (Bool-cases (str_eq c.type type)) [
  | inl e ↦ rw e
  | inr e ↦
      rw e (cut_condition-shift c (find_condition type cs) cs ∙ ap (◌∷◌ c) (cut-eq-erase type cs))
]

All-erase {κ} :
    (P : Condition → Type κ) (type : String) (cs : List Condition)
    → All P cs
    → All P (erase type cs)
unfolding erase
All-erase P type [] h = tt
All-erase P type (c ∷ cs) h = elim (Bool-cases (str_eq c.type type)) [
  | inl e ↦ rw e h.1
  | inr e ↦ rw e (h.0, All-erase P type cs h.1)
]

erase-Distinct : (type : String) (cs : List Condition) → Distinct cs → Distinct (erase type cs)
unfolding erase
erase-Distinct type [] h = tt
erase-Distinct type (c ∷ cs) h = elim (Bool-cases (str_eq c.type type)) [
  | inl e ↦ rw e h.1
  | inr e ↦ rw e (All-erase _ type cs h.0, erase-Distinct type cs h.1)
]

erase-IsSorted :
    (type : String) (cs : List Condition) → IsSorted newer cs → IsSorted newer (erase type cs)
unfolding erase
erase-IsSorted type [] h = tt
erase-IsSorted type (c ∷ cs) h = elim (Bool-cases (str_eq c.type type)) [
  | inl e ↦ rw e h.1
  | inr e ↦ rw e (All-erase _ type cs h.0, erase-IsSorted type cs h.1)
]

older : (c y : Condition) → y.last_transition_time < c.last_transition_time → newer y c ≡ false
older c y h = ground arith

-- The written condition is the latest, so the sort takes it to the front and moves nothing else.
sort-write_condition :
    (c : Condition) (cs : List Condition)
    → IsSorted newer cs
    → Before c.last_transition_time cs
    → sort newer (write_condition c (find_condition c.type cs) cs) ≡ c ∷ erase c.type cs
unfolding sort find_condition write_condition erase insert
sort-write_condition c [] s b = refl
sort-write_condition c (x ∷ cs) s b = elim (Bool-cases (str_eq x.type c.type)) [
  | inl e ↦ rw e (sort_of_IsSorted newer (c ∷ cs) (All-mono _ _ cs (λ y h. older c y h) b.1, s.1))
  | inr e ↦
      rw
        (
          e,
          write_condition-shift c x (find_condition c.type cs) cs,
          sort-write_condition c cs s.1 b.1,
        )
        (rw (lt→ltb x.last_transition_time c.last_transition_time b.0)
          (ap (◌∷◌ c) (insert_front newer x _ (All-erase _ c.type cs s.0))))
]

-- Writing a condition drops the old one of its type and puts the new one first.
pub set_condition-conditions :
    (now : ℕ) (c : Condition) (s : EmqxStatus)
    → IsLog now s.conditions
    → (set_condition now c s).conditions
      ≡ record c { last_transition_time = now } ∷ erase c.type s.conditions
unfolding set_condition
set_condition-conditions now c s log =
    sort-write_condition (record c { last_transition_time = now }) s.conditions log.sorted log.past

pub remove_condition-conditions :
    (type : String) (s : EmqxStatus)
    → (remove_condition type s).conditions ≡ erase type s.conditions
unfolding remove_condition
remove_condition-conditions type s = cut-eq-erase type s.conditions

erase-not_of_Distinct :
    (type : String) (cs : List Condition)
    → Distinct cs
    → All (λ d. str_eq d.type type ≡ false) (erase type cs)
unfolding erase
erase-not_of_Distinct type [] h = tt
erase-not_of_Distinct type (c ∷ cs) h = elim (Bool-cases (str_eq c.type type)) [
  | inl e ↦ rw e (rw ((eq_iff c.type type).0 e) at h.0)
  | inr e ↦ rw e (e, erase-not_of_Distinct type cs h.1)
]

Before-mono : {m n : ℕ} (cs : List Condition) → m ≤ n → Before m cs → Before n cs
Before-mono [] h b = tt
Before-mono (c ∷ cs) h b = (omega arith, Before-mono cs h b.1)

pub IsLog-mono : {m n : ℕ} {cs : List Condition} → m ≤ n → IsLog m cs → IsLog n cs
IsLog-mono {cs = cs} h log = record {
  distinct = log.distinct;
  sorted = log.sorted;
  past = Before-mono cs h log.past;
}

erase-IsLog :
    (now : ℕ) (type : String) (cs : List Condition) → IsLog now cs → IsLog now (erase type cs)
erase-IsLog now type cs log = record {
  distinct = erase-Distinct type cs log.distinct;
  sorted = erase-IsSorted type cs log.sorted;
  past = All-erase _ type cs log.past;
}

-- RemoveCondition keeps the conditions one to a type, the latest first, and all of them before a
-- reading of the clock.
pub remove_condition-IsLog :
    (now : ℕ) (type : String) (s : EmqxStatus)
    → IsLog now s.conditions
    → IsLog now (remove_condition type s).conditions
remove_condition-IsLog now type s log =
    rw (remove_condition-conditions type s) (erase-IsLog now type s.conditions log)

-- SetCondition at the next reading of the clock keeps the conditions one to a type, the latest first,
-- and all of them before any later reading.
pub set_condition-IsLog :
    (now later : ℕ) (c : Condition) (s : EmqxStatus)
    → now < later
    → IsLog now s.conditions
    → IsLog later (set_condition now c s).conditions
set_condition-IsLog now later c s h log = rw (set_condition-conditions now c s log) (record {
  distinct = (erase-not_of_Distinct c.type s.conditions log.distinct, e.distinct);
  sorted = (
    All-mono _ _ _ (λ y b. older (record c { last_transition_time = now }) y b) e.past,
    e.sorted,
  );
  past = (h, Before-mono _ (omega arith) e.past);
})
  where
    e : IsLog now (erase c.type s.conditions)
    e = erase-IsLog now c.type s.conditions log
