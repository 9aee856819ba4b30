-- ===== src/Prelude/Text/Lines.antt =====
-- strings.Split at line feeds, and strings.Index of a colon, with the text on either side of it.
use Prim.Native.Char.{Char, code}
use Prim.Native.String.{String}
use mathlib.Core.Option.{Option, none, some}
use native.Mathlib.Omega.{arith}
use mathlib.Core.List.{List, [], ◌∷◌}
use mathlib.Core.Path.{◌≡◌, refl, ap}
use mathlib.Core.Bool.{Bool, true, false, ◌||◌}
use mathlib.Core.Logic.{inl, inr}
use text.Mathlib.TextLemmas.{nil-append, cons-append}
use emqx_operator.Prelude.Tests.{◌==◌, if◌then◌else◌, Bool-cases}
use emqx_operator.Prelude.Go.{◌+++◌}
use emqx_operator.Prelude.Text.{contains}

abbrev pub onto_first : Char → List String → List String
onto_first c [] = String.◌∷◌ c String.[] ∷ []
onto_first c (l ∷ ls) = String.◌∷◌ c l ∷ ls

unfoldable pub split_lines : String → List String
split_lines String.[] = String.[] ∷ []
split_lines (String.◌∷◌ c s) =
    let rest = split_lines s in if code c == b'\n' then String.[] ∷ rest else onto_first c rest

-- The parts before and after the first colon, if there is one.
unfoldable pub cut_colon : String → Option (String × String)
cut_colon String.[] = none
cut_colon (String.◌∷◌ c s) =
    let rest = cut_colon s in
    if code c == b':'
    then some (String.[], s)
    else elim rest [ none ↦ none | some (l, r) ↦ some (String.◌∷◌ c l, r) ]

clash {ℓ} : {A : Type ℓ} (a b : Bool) → a ≡ true → (a || b) ≡ false → A
clash a b e h = absurd (contra a b e h)
  where
    contra : (a b : Bool) → a ≡ true → (a || b) ≡ false → ⊥
    contra a b e h = ground arith

or-right : (a b : Bool) → a ≡ false → (a || b) ≡ false → b ≡ false
or-right a b e h = ground arith

-- A line followed by a line feed is the first of the lines.
pub split_lines-append :
    (l t : String) → contains b'\n' l ≡ false → split_lines (l +++ "\n" +++ t) ≡ l ∷ split_lines t
unfolding split_lines contains
split_lines-append String.[] t h =
    rw (nil-append ("\n" +++ t)) (rw (cons-append "\n" "" t, nil-append t) refl)
split_lines-append (String.◌∷◌ c s) t h = elim (Bool-cases (code c == b'\n')) [
  | inl e ↦ clash _ _ e h
  | inr e ↦
      rw (cons-append c s ("\n" +++ t))
        (rw e (ap (onto_first c) (split_lines-append s t (or-right _ _ e h))))
]

-- A text without a line feed is one line.
pub split_lines_of_line : (l : String) → contains b'\n' l ≡ false → split_lines l ≡ l ∷ []
unfolding split_lines contains
split_lines_of_line String.[] h = refl
split_lines_of_line (String.◌∷◌ c s) h = elim (Bool-cases (code c == b'\n')) [
  | inl e ↦ clash _ _ e h
  | inr e ↦ rw e (ap (onto_first c) (split_lines_of_line s (or-right _ _ e h)))
]

-- The first colon of a key and a value is the one between them, if the key has none.
pub cut_colon-append :
    (k s : String) → contains b':' k ≡ false → cut_colon (k +++ ":" +++ s) ≡ some (k, s)
unfolding cut_colon contains
cut_colon-append String.[] s h =
    rw (nil-append (":" +++ s)) (rw (cons-append ":" "" s, nil-append s) refl)
cut_colon-append (String.◌∷◌ c k) s h = elim (Bool-cases (code c == b':')) [
  | inl e ↦ clash _ _ e h
  | inr e ↦ rw (cons-append c k (":" +++ s)) (
      rw e (
        ap (λ o. elim o [ none ↦ none | some (l, r) ↦ some (String.◌∷◌ c l, r) ])
          (cut_colon-append k s (or-right _ _ e h))))
]
