-- ===== src/Api/Ports/Merge.antt =====
-- util.go, MergeServicePorts and MergeContainerPorts: the names and the numbers of a merged list.
use emqx_operator.Prelude.{
  ℤ, ◌==ℤ◌, String, str_eq, eq_refl, Bool, true, false, ◌||◌, ◌≡◌, refl, sym, ap, ◌∙◌, subst, inl,
  inr, List, [], ◌∷◌, ◌++◌, any, All, All-mono, arith, Bool-cases,
}
use emqx_operator.Kube.Pods.{ServicePort, ContainerPort}
use emqx_operator.Api.Ports.{is_taken, keep_new, merge_service_ports, merge_container_ports}

module _ {A : Type 0} (name : A → String) (port : A → ℤ) where
  -- Two ports with a name or a number in common.
  abbrev pub clashes : A → A → Bool
  clashes x y = str_eq (name x) (name y) || port x ==ℤ port y

  -- No two of the ports clash.
  abbrev pub IsUnique : List A → Type 0
  IsUnique [] = Unit
  IsUnique (x ∷ xs) = All (λ y. clashes y x ≡ false) xs × IsUnique xs

  -- One of the ports clashes with this one.
  abbrev pub is_met : List A → A → Bool
  is_met xs x = any (clashes x) xs

  taken-cons :
      (names : List String) (ports : List ℤ) (x y : A)
      → is_taken name port (name x ∷ names) (port x ∷ ports) y
        ≡ (clashes y x || is_taken name port names ports y)
  taken-cons names ports x y = ground arith

  abbrev step : List String → List ℤ → A → List A → Bool → List A
  step names ports x xs b = elim b [
    | true ↦ keep_new name port names ports xs
    | false ↦ x ∷ keep_new name port (name x ∷ names) (port x ∷ ports) xs
  ]

  or_false : (a b : Bool) → (a || b) ≡ false → (a ≡ false) × (b ≡ false)
  or_false a b h = ground arith

  weaker :
      (names : List String) (ports : List ℤ) (x y : A)
      → is_taken name port (name x ∷ names) (port x ∷ ports) y ≡ false
      → is_taken name port names ports y ≡ false
  weaker names ports x y h =
      (or_false (clashes y x) (is_taken name port names ports y)
        (sym (taken-cons names ports x y) ∙ h)).1

  apart :
      (names : List String) (ports : List ℤ) (x y : A)
      → is_taken name port (name x ∷ names) (port x ∷ ports) y ≡ false
      → clashes y x ≡ false
  apart names ports x y h =
      (or_false (clashes y x) (is_taken name port names ports y)
        (sym (taken-cons names ports x y) ∙ h)).0

  keep_new-taken :
      (names : List String) (ports : List ℤ) (x : A) (xs : List A)
      → is_taken name port names ports x ≡ true
      → keep_new name port names ports (x ∷ xs) ≡ keep_new name port names ports xs
  unfolding keep_new
  keep_new-taken names ports x xs e = ap (step names ports x xs) e

  keep_new-fresh :
      (names : List String) (ports : List ℤ) (x : A) (xs : List A)
      → is_taken name port names ports x ≡ false
      → keep_new name port names ports (x ∷ xs)
        ≡ x ∷ keep_new name port (name x ∷ names) (port x ∷ ports) xs
  unfolding keep_new
  keep_new-fresh names ports x xs e = ap (step names ports x xs) e

  keep_new-free :
      (names : List String) (ports : List ℤ) (xs : List A)
      → All (λ y. is_taken name port names ports y ≡ false) (keep_new name port names ports xs)
  unfolding keep_new
  keep_new-free names ports [] = tt
  keep_new-free names ports (x ∷ xs) = elim (Bool-cases (is_taken name port names ports x)) [
    | inl e ↦ rw (keep_new-taken names ports x xs e) (keep_new-free names ports xs)
    | inr e ↦ rw (keep_new-fresh names ports x xs e) (
      e,
      All-mono _ _ (keep_new name port (name x ∷ names) (port x ∷ ports) xs) (weaker names ports x)
          (keep_new-free (name x ∷ names) (port x ∷ ports) xs),
    )
  ]

  keep_new-IsUnique :
      (names : List String) (ports : List ℤ) (xs : List A)
      → IsUnique (keep_new name port names ports xs)
  unfolding keep_new
  keep_new-IsUnique names ports [] = tt
  keep_new-IsUnique names ports (x ∷ xs) = elim (Bool-cases (is_taken name port names ports x)) [
    | inl e ↦ rw (keep_new-taken names ports x xs e) (keep_new-IsUnique names ports xs)
    | inr e ↦ rw (keep_new-fresh names ports x xs e) (
      All-mono _ _ (keep_new name port (name x ∷ names) (port x ∷ ports) xs) (apart names ports x)
          (keep_new-free (name x ∷ names) (port x ∷ ports) xs),
      keep_new-IsUnique (name x ∷ names) (port x ∷ ports) xs,
    )
  ]

  clashes_refl : (x : A) → clashes x x ≡ true
  clashes_refl x = rw (eq_refl (name x)) refl

  abbrev Covers : List String → List ℤ → List A → A → Type 0
  Covers names ports xs y =
      (is_taken name port names ports y || is_met (keep_new name port names ports xs) y) ≡ true

  Covers-cons :
      (names : List String) (ports : List ℤ) (x : A) (xs : List A) (y : A)
      → is_taken name port names ports x ≡ false
      → Covers (name x ∷ names) (port x ∷ ports) xs y
      → Covers names ports (x ∷ xs) y
  Covers-cons names ports x xs y e h =
      rw (keep_new-fresh names ports x xs e) (ground (arith, taken-cons names ports x y))

  keep_new-Covers :
      (names : List String) (ports : List ℤ) (xs : List A) → All (Covers names ports xs) xs
  unfolding keep_new
  keep_new-Covers names ports [] = tt
  keep_new-Covers names ports (x ∷ xs) = elim (Bool-cases (is_taken name port names ports x)) [
    | inl e ↦ (
      rw e refl,
      subst (λ ys. All (λ y. (is_taken name port names ports y || is_met ys y) ≡ true) xs)
          (sym (keep_new-taken names ports x xs e)) (keep_new-Covers names ports xs),
    )
    | inr e ↦ (
      Covers-cons names ports x xs x e (rw (taken-cons names ports x x, clashes_refl x) refl),
      All-mono _ _ xs (λ y. Covers-cons names ports x xs y e)
          (keep_new-Covers (name x ∷ names) (port x ∷ ports) xs),
    )
  ]

module _ {A : Type 0} (name : A → String) (port : A → ℤ) where
  abbrev both_false : {a b : Bool} → a ≡ false → b ≡ false → (a || b) ≡ false
  both_false ha hb = rw ha hb

  still_free :
      (names : List String) (ports : List ℤ) (x : A) (xs : List A)
      → All (λ y. is_taken name port names ports y ≡ false) xs
      → All (λ y. clashes name port y x ≡ false) xs
      → All (λ y. is_taken name port (name x ∷ names) (port x ∷ ports) y ≡ false) xs
  still_free names ports x [] f c = tt
  still_free names ports x (y ∷ xs) f c = (
    taken-cons name port names ports x y ∙ both_false c.0 f.0,
    still_free names ports x xs f.1 c.1,
  )

  keep_new-prefix :
      (names : List String) (ports : List ℤ) (xs ys : List A)
      → All (λ y. is_taken name port names ports y ≡ false) xs
      → IsUnique name port xs
      → (rest : List A) × (keep_new name port names ports (xs ++ ys) ≡ xs ++ rest)
  keep_new-prefix names ports [] ys f u = (keep_new name port names ports ys, refl)
  keep_new-prefix names ports (x ∷ xs) ys f u =
      let (rest, e) =
        keep_new-prefix (name x ∷ names) (port x ∷ ports) xs ys
          (still_free names ports x xs f.1 u.0) u.1 in
      (rest, keep_new-fresh name port names ports x (xs ++ ys) f.0 ∙ ap (◌∷◌ x) e)

  nothing_taken : (xs : List A) → All (λ y. is_taken name port [] [] y ≡ false) xs
  nothing_taken [] = tt
  nothing_taken (x ∷ xs) = (refl, nothing_taken xs)

-- No two ports of a merged list have a name or a number in common.
pub merge_ports-IsUnique :
    (s1 s2 : List ServicePort) (c1 c2 : List ContainerPort)
    → IsUnique
        (λ (p : ServicePort). p.name)
        (λ (p : ServicePort). p.port)
        (merge_service_ports s1 s2)
      × IsUnique
          (λ (p : ContainerPort). p.name)
          (λ (p : ContainerPort). p.container_port)
          (merge_container_ports c1 c2)
unfolding merge_service_ports merge_container_ports
merge_ports-IsUnique s1 s2 c1 c2 =
    (keep_new-IsUnique _ _ [] [] (s1 ++ s2), keep_new-IsUnique _ _ [] [] (c1 ++ c2))

-- Each port of the two lists has its name or its number in the merged list.
pub merge_ports-is_met :
    (s1 s2 : List ServicePort) (c1 c2 : List ContainerPort)
    → All
        (λ p.
          is_met
            (λ (p : ServicePort). p.name)
            (λ (p : ServicePort). p.port)
            (merge_service_ports s1 s2)
            p
          ≡ true)
        (s1 ++ s2)
      × All
          (λ p.
            is_met
              (λ (p : ContainerPort). p.name)
              (λ (p : ContainerPort). p.container_port)
              (merge_container_ports c1 c2)
              p
            ≡ true)
          (c1 ++ c2)
unfolding merge_service_ports merge_container_ports
merge_ports-is_met s1 s2 c1 c2 =
    (keep_new-Covers _ _ [] [] (s1 ++ s2), keep_new-Covers _ _ [] [] (c1 ++ c2))

-- A merged list begins with the first of the two lists, if no two of its ports clash.
pub merge_service_ports-prefix :
    (s1 s2 : List ServicePort)
    → IsUnique (λ (p : ServicePort). p.name) (λ (p : ServicePort). p.port) s1
    → (rest : List ServicePort) × (merge_service_ports s1 s2 ≡ s1 ++ rest)
unfolding merge_service_ports
merge_service_ports-prefix s1 s2 u =
    keep_new-prefix (λ p. p.name) (λ p. p.port) [] [] s1 s2
      (nothing_taken (λ p. p.name) (λ p. p.port) s1) u
