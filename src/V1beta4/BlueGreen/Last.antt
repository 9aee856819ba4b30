-- ===== src/V1beta4/BlueGreen/Last.antt =====
-- The pod of a set that the code takes for the newest one.
use Prim.Native.Nat.{Ordering, compare as compare_nat}
use Prim.Native.Char.{Char, code}
use Prim.Native.String.compare
use Prim.Native.String.{compare, then}
use mathlib.Core.List.{Memᴰ}
use mathlib.Core.List.Memᴰ.{head, tail}
use emqx_operator.Prelude.{
  ℕ, String, eq_iff, true, false, ◌&&◌, ◌||◌, is_lt, ltb, ◌==◌, ◌≡◌, refl, sym, ap, ◌∙◌, subst,
  arith, some, some-eq, List, [], ◌∷◌, head?, All, All-mono, Bool-cases, inl, inr,
}
use emqx_operator.Prelude.Sort.{insert, sort, All-insert, All-sort}
use emqx_operator.Kube.{Workload, Pod}
use emqx_operator.Controllers.Sets.{PodMap, name_newer, str_lt}
use emqx_operator.V1beta4.Sets.{pods_in}
use emqx_operator.V1beta4.BlueGreen.{newest_pods}

lt_then :
    (m n : ℕ) (o : Ordering) → is_lt (then (compare_nat m n) o) ≡ (ltb m n || (m == n && is_lt o))
lt_then m n o = ground arith

lt_cons :
    (c d : Char) (s t : String)
    → str_lt (String.◌∷◌ c s) (String.◌∷◌ d t)
      ≡ (ltb (code c) (code d) || (code c == code d && str_lt s t))
lt_cons c d s t = ap is_lt (compare.cons-cons c d s t) ∙ lt_then (code c) (code d) (compare s t)

-- Of the order of strings: what does not come before a text does not come before a later one.
lt_neg_trans : (x y z : String) → str_lt x y ≡ false → str_lt y z ≡ false → str_lt x z ≡ false
lt_neg_trans String.[] y String.[] h k = refl
lt_neg_trans (String.◌∷◌ c x) y String.[] h k = ap is_lt (compare.cons-nil c x)
lt_neg_trans String.[] String.[] (String.◌∷◌ e z) h k = k
lt_neg_trans String.[] (String.◌∷◌ d y) (String.◌∷◌ e z) h k =
    absurd (ground (arith, sym (ap is_lt (compare.nil-cons d y)) ∙ h))
lt_neg_trans (String.◌∷◌ c x) String.[] (String.◌∷◌ e z) h k =
    absurd (ground (arith, sym (ap is_lt (compare.nil-cons e z)) ∙ k))
lt_neg_trans (String.◌∷◌ c x) (String.◌∷◌ d y) (String.◌∷◌ e z) h k =
    lt_cons c e x z ∙ ground (arith, lt_cons c d x y, lt_cons d e y z, lt_neg_trans x y z)

lt_irrefl : (x : String) → str_lt x x ≡ false
lt_irrefl String.[] = refl
lt_irrefl (String.◌∷◌ c x) = lt_cons c c x x ∙ ground (arith, lt_irrefl x)

lt_asym : (x y : String) → str_lt x y ≡ true → str_lt y x ≡ false
lt_asym String.[] String.[] h = refl
lt_asym (String.◌∷◌ c x) String.[] h =
    absurd (ground (arith, sym (ap is_lt (compare.cons-nil c x)) ∙ h))
lt_asym String.[] (String.◌∷◌ d y) h = ap is_lt (compare.cons-nil d y)
lt_asym (String.◌∷◌ c x) (String.◌∷◌ d y) h =
    lt_cons d c y x ∙ ground (arith, lt_cons c d x y, lt_asym x y)

-- No name of the pods comes after that of the pod, in the order of strings.
abbrev pub IsMax : Pod → List Pod → Type 0
IsMax p = All (λ q. str_lt p.name q.name ≡ false)

-- The first of a sorted list is the last by name.
abbrev HasMax : List Pod → Type 0
HasMax [] = Unit
HasMax (p ∷ ps) = IsMax p (p ∷ ps)

insert-HasMax : (x : Pod) (ps : List Pod) → HasMax ps → HasMax (insert name_newer x ps)
unfolding insert
insert-HasMax x [] h = (lt_irrefl x.name, tt)
insert-HasMax x (y ∷ ys) h = elim (Bool-cases (name_newer y x)) [
  | inl e ↦
      rw (e, insert)
        (
          lt_irrefl y.name,
          All-insert name_newer (λ (q : Pod). str_lt y.name q.name ≡ false) x ys
              (ground (arith, e, eq_iff y.name x.name, lt_asym x.name y.name, lt_irrefl y.name))
              h.1,
        )
  | inr e ↦
      rw (e, insert)
        (
          lt_irrefl x.name,
          All-mono _ _ (y ∷ ys) (λ q at. lt_neg_trans x.name y.name q.name (not_before e) at) h,
        )
]
  where
    not_before : name_newer y x ≡ false → str_lt x.name y.name ≡ false
    not_before e = ground (arith, e, eq_iff y.name x.name, lt_irrefl x.name)

sort-HasMax : (ps : List Pod) → HasMax (sort name_newer ps)
unfolding sort
sort-HasMax [] = tt
sort-HasMax (p ∷ ps) = insert-HasMax p (sort name_newer ps) (sort-HasMax ps)

module _ (P : Pod → Type 0) where
  inserted-All : (x : Pod) (ps : List Pod) → All P (insert name_newer x ps) → P x × All P ps
  unfolding insert
  inserted-All x [] h = (h.0, tt)
  inserted-All x (y ∷ ys) h = elim (Bool-cases (name_newer y x)) [
    | inl e ↦
        let h1 : All P (y ∷ insert name_newer x ys) = subst (All P) (taken e) h in
        let (px, rest) = inserted-All x ys h1.1 in (px, (h1.0, rest))
    | inr e ↦ let h1 : All P (x ∷ y ∷ ys) = subst (All P) (left e) h in (h1.0, h1.1)
  ]
    where
      taken : name_newer y x ≡ true → insert name_newer x (y ∷ ys) ≡ y ∷ insert name_newer x ys
      taken e = rw (e, insert) refl

      left : name_newer y x ≡ false → insert name_newer x (y ∷ ys) ≡ x ∷ y ∷ ys
      left e = rw (e, insert) refl

  sorted-All : (ps : List Pod) → All P (sort name_newer ps) → All P ps
  unfolding sort
  sorted-All [] h = tt
  sorted-All (p ∷ ps) h =
      let (q, rest) = inserted-All p (sort name_newer ps) h in (q, sorted-All ps rest)

members : (ps : List Pod) → All (λ p. Memᴰ p ps) ps
members [] = tt
members (p ∷ ps) = (head refl, All-mono _ _ ps (λ q m. tail m) (members ps))

-- A pod of the set whose name is last in the order of strings, in which emqx-9 comes after emqx-10.
pub record IsLast (m : PodMap) (w : Workload) (p : Pod) : Type 0 where
  pub is_listed : Memᴰ p (pods_in w.uid m)
  pub is_max : IsMax p (pods_in w.uid m)

pub newest_pods-IsLast :
    (m : PodMap) (w : Workload) (p : Pod) → head? (newest_pods m w) ≡ some p → IsLast m w p
unfolding newest_pods
newest_pods-IsLast m w p h =
    by_sorted (sort name_newer (pods_in w.uid m)) (sort-HasMax (pods_in w.uid m))
      (All-sort name_newer _ _ (members (pods_in w.uid m)))
      (λ p. sorted-All (λ q. str_lt p.name q.name ≡ false) (pods_in w.uid m)) h
  where
    by_sorted :
        (ps : List Pod)
        → HasMax ps
        → All (λ p. Memᴰ p (pods_in w.uid m)) ps
        → ((p : Pod) → IsMax p ps → IsMax p (pods_in w.uid m))
        → head? ps ≡ some p
        → IsLast m w p
    by_sorted [] max listed back h = absurd (ground arith)
    by_sorted (q ∷ ps) max listed back h =
        subst (IsLast m w) (some-eq h) (record { is_listed = listed.0; is_max = back q max })
