-- ===== src/V1beta4/Listener/Common.antt =====
-- Which listeners the service has ports for.
use emqx_operator.Prelude.{
  String, str_eq, eq_iff, subst, Bool-cases, inl, inr, true, false, not, ◌&&◌, List, [], ◌∷◌, ◌++◌,
  map, keep, ◌≡◌, refl, sym, ap, ◌∙◌, arith,
}
use emqx_operator.V1beta4.Listener.{
  Listener, is_in, take_those, intersection, neighbours, common_listeners,
}

abbrev pub addresses : List Listener → List String
addresses = map (λ l. l.listen_on)

is_in-keep :
    (on : List String) (y x : String)
    → is_in (keep (λ a. not (str_eq a y)) on) x ≡ (is_in on x && not (str_eq x y))
is_in-keep [] y x = refl
is_in-keep (a ∷ on) y x = ground (arith, eq_iff a y, eq_iff x y, eq_iff x a, is_in-keep on y x)

abbrev without : String → List String → List String
without x on = keep (λ a. not (str_eq a x)) on

take_those-taken :
    (on : List String) (l : Listener) (ls : List Listener)
    → is_in on l.listen_on ≡ true
    → take_those on (l ∷ ls) ≡ l ∷ take_those (without l.listen_on on) ls
unfolding take_those
take_those-taken on l ls e = rw (e, take_those) refl

take_those-left :
    (on : List String) (l : Listener) (ls : List Listener)
    → is_in on l.listen_on ≡ false
    → take_those on (l ∷ ls) ≡ take_those on ls
unfolding take_those
take_those-left on l ls e = rw (e, take_those) refl

take_those-is_in :
    (on : List String) (ls : List Listener) (x : String)
    → is_in (addresses (take_those on ls)) x ≡ (is_in on x && is_in (addresses ls) x)
unfolding take_those
take_those-is_in on [] x = ground arith
take_those-is_in on (l ∷ ls) x = elim (Bool-cases (is_in on l.listen_on)) [
  | inl e ↦
      ap (λ ls. is_in (addresses ls) x) (take_those-taken on l ls e)
      ∙ ground (
        arith,
        e,
        eq_iff x l.listen_on,
        is_in-keep on l.listen_on x,
        take_those-is_in (without l.listen_on on) ls x,
      )
  | inr e ↦
      ap (λ ls. is_in (addresses ls) x) (take_those-left on l ls e)
      ∙ ground (arith, e, eq_iff x l.listen_on, take_those-is_in on ls x)
]

-- No address twice.
abbrev pub IsUnique : List String → Type 0
IsUnique [] = Unit
IsUnique (a ∷ on) = (is_in on a ≡ false) × IsUnique on

take_those-IsUnique :
    (on : List String) (ls : List Listener) → IsUnique (addresses (take_those on ls))
unfolding take_those
take_those-IsUnique on [] = tt
take_those-IsUnique on (l ∷ ls) = elim (Bool-cases (is_in on l.listen_on)) [
  | inl e ↦
      subst (λ ls. IsUnique (addresses ls)) (sym (take_those-taken on l ls e))
        (
          take_those-is_in (without l.listen_on on) ls l.listen_on
              ∙ ground
                  (arith, eq_iff l.listen_on l.listen_on, is_in-keep on l.listen_on l.listen_on),
          take_those-IsUnique (without l.listen_on on) ls,
        )
  | inr e ↦
      subst (λ ls. IsUnique (addresses ls)) (sym (take_those-left on l ls e))
        (take_those-IsUnique on ls)
]

neighbours-last :
    (found a : List Listener) (before : List (List Listener)) (b c : List Listener)
    → neighbours found a (before ++ b ∷ c ∷ []) ≡ intersection b c
unfolding neighbours
neighbours-last found a [] b c = refl
neighbours-last found a (n ∷ before) b c = neighbours-last (intersection a n) n before b c

common_listeners-last :
    (before : List (List Listener)) (b c : List Listener)
    → common_listeners (before ++ b ∷ c ∷ []) ≡ intersection b c
unfolding common_listeners neighbours
common_listeners-last [] b c = refl
common_listeners-last (a ∷ []) b c = refl
common_listeners-last (a ∷ n ∷ before) b c = neighbours-last [] a (n ∷ before) b c

-- With at least two nodes the listeners that get ports stand on the addresses that the last two of
-- them listen on, each of these once, whatever the nodes before them have.
pub common_listeners_lem :
    (before : List (List Listener)) (b c : List Listener) (address : String)
    → (is_in (addresses (common_listeners (before ++ b ∷ c ∷ []))) address
        ≡ (is_in (addresses b) address && is_in (addresses c) address))
      × IsUnique (addresses (common_listeners (before ++ b ∷ c ∷ [])))
unfolding intersection
common_listeners_lem before b c address = (
  ap (λ ls. is_in (addresses ls) address) (common_listeners-last before b c)
      ∙ take_those-is_in (addresses b) c address,
  subst (λ ls. IsUnique (addresses ls)) (sym (common_listeners-last before b c))
      (take_those-IsUnique (addresses b) c),
)
