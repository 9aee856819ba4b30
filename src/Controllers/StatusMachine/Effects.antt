-- ===== src/Controllers/StatusMachine/Effects.antt =====
-- The effects of an arrow of the status machine on the list of conditions, written out.
use emqx_operator.Prelude.{
  ℕ, ◌≡◌, refl, sym, ap, ◌∙◌, String, str_eq, eq_iff, Bool, true, false, not, List, [], ◌∷◌, keep,
  All, Bool-cases, inl, inr, if◌then◌else◌,
}
use emqx_operator.Kube.{Condition}
use emqx_operator.Api.Types.{Emqx}
use emqx_operator.Api.Status.{set_condition, remove_condition}
use emqx_operator.Api.Status.Conditions.{
  erase, Distinct, IsLog, set_condition-conditions, remove_condition-conditions,
  remove_condition-IsLog,
}
use emqx_operator.Controllers.StatusMachine.{put, drop_condition}

-- The conditions of no type of the list.
abbrev pub without : List String → List Condition → List Condition
without [] cs = cs
without (type ∷ types) cs = keep (λ c. not (str_eq c.type type)) (without types cs)

abbrev pub with_conditions : List Condition → Emqx → Emqx
with_conditions cs e = record e { status = record e.status { conditions = cs } }

-- The resource with one condition, of the time `now`, in front of those of other types than it and
-- the types `gone`.
abbrev pub rewritten : ℕ → Condition → List String → Emqx → Emqx
rewritten now c gone e =
    with_conditions
      (record c { last_transition_time = now } ∷ without (c.type ∷ gone) e.status.conditions) e

-- The test of `without`.
abbrev other_than : String → Condition → Bool
other_than type c = not (str_eq c.type type)

keep-taken :
    (type : String) (c : Condition) (cs : List Condition)
    → str_eq c.type type ≡ false
    → keep (other_than type) (c ∷ cs) ≡ c ∷ keep (other_than type) cs
keep-taken type c cs e = rw (ap not e, keep) refl

keep-dropped :
    (type : String) (c : Condition) (cs : List Condition)
    → str_eq c.type type ≡ true
    → keep (other_than type) (c ∷ cs) ≡ keep (other_than type) cs
keep-dropped type c cs e = rw (ap not e, keep) refl

keep-All :
    (type : String) (cs : List Condition)
    → All (λ d. str_eq d.type type ≡ false) cs
    → keep (other_than type) cs ≡ cs
keep-All type [] h = refl
keep-All type (c ∷ cs) h = keep-taken type c cs h.0 ∙ ap (λ ds. c ∷ ds) (keep-All type cs h.1)

erase-keep :
    (type : String) (cs : List Condition) → Distinct cs → erase type cs ≡ keep (other_than type) cs
unfolding erase
erase-keep type [] h = refl
erase-keep type (c ∷ cs) h = elim (Bool-cases (str_eq c.type type)) [
  | inl e ↦
      ap (λ b. if b then cs else c ∷ erase type cs) e
      ∙ sym (keep-dropped type c cs e ∙ keep-All type cs (rw ((eq_iff c.type type).0 e) at h.0))
  | inr e ↦
      ap (λ b. if b then cs else c ∷ erase type cs) e
      ∙ ap (λ ds. c ∷ ds) (erase-keep type cs h.1)
      ∙ sym (keep-taken type c cs e)
]

abbrev pub drop_all : List String → Emqx → Emqx
drop_all [] e = e
drop_all (type ∷ types) e = drop_condition type (drop_all types e)

drop_all-IsLog :
    (now : ℕ) (types : List String) (e : Emqx)
    → IsLog now e.status.conditions
    → IsLog now (drop_all types e).status.conditions
drop_all-IsLog now [] e log = log
drop_all-IsLog now (type ∷ types) e log =
    remove_condition-IsLog now type (drop_all types e).status (drop_all-IsLog now types e log)

drop_all-without :
    (now : ℕ) (types : List String) (e : Emqx)
    → IsLog now e.status.conditions
    → drop_all types e ≡ with_conditions (without types e.status.conditions) e
unfolding remove_condition
drop_all-without now [] e log = refl
drop_all-without now (type ∷ types) e log =
    ap (λ cs. with_conditions cs (drop_all types e))
      (remove_condition-conditions type (drop_all types e).status
        ∙ erase-keep type _ (drop_all-IsLog now types e log).distinct)
    ∙ ap (λ (d : Emqx). with_conditions (keep (other_than type) d.status.conditions) d)
        (drop_all-without now types e log)

pub put-rewritten :
    (now : ℕ) (c : Condition) (gone : List String) (e : Emqx)
    → IsLog now e.status.conditions
    → put now c (drop_all gone e) ≡ rewritten now c gone e
unfolding set_condition
put-rewritten now c gone e log =
    ap (λ cs. with_conditions cs (drop_all gone e))
      (set_condition-conditions now c (drop_all gone e).status (drop_all-IsLog now gone e log)
        ∙ ap (λ cs. record c { last_transition_time = now } ∷ cs)
            (erase-keep c.type _ (drop_all-IsLog now gone e log).distinct))
    ∙ ap
        (λ (d : Emqx).
          with_conditions
            (record c { last_transition_time = now } ∷ keep (other_than c.type) d.status.conditions)
            d)
        (drop_all-without now gone e log)
