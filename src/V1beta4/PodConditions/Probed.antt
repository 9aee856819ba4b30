-- ===== src/V1beta4/PodConditions/Probed.antt =====
-- Which pods are patched, and with what.
use emqx_operator.Prelude.{
  ℕ, String, Bool, true, false, not, Option, none, some, some-eq, ◌>>=◌, List, [], ◌∷◌, map, keep,
  All, ◌==◌, ==_iff, ◌≡◌, refl, sym, ap, ◌∙◌, subst, arith, if◌then◌else◌,
}
use emqx_operator.Errors.{Error, Result, ok, err}
use emqx_operator.Http.{Response}
use emqx_operator.Kube.{Labels, Client, Pod, PodCondition, ConditionStatus, is_true, is_false}
use emqx_operator.V1beta4.{Emqx}
use emqx_operator.V1beta4.PodConditions.{
  Patched, cluster_pods, is_eligible, from_answer, check_rebalance_status, serving_of, on_serving,
  add_patch, patch, patch_all, reconcile,
}

keep-true :
    (f : Pod → Bool) (p : Pod) (ps : List Pod) → f p ≡ true → keep f (p ∷ ps) ≡ p ∷ keep f ps
keep-true f p ps e = rw (e, keep) refl

keep-false : (f : Pod → Bool) (p : Pod) (ps : List Pod) → f p ≡ false → keep f (p ∷ ps) ≡ keep f ps
keep-false f p ps e = rw (e, keep) refl

module _ (availability : Pod → Result Response) (patch_error : Pod → Option Error) (now : ℕ) where
  -- The status that a pod gets, of an instance that is an EmqxEnterprise or not.
  pub data IsProbed : Bool → Pod → ConditionStatus → Type 0 where
    broker : {p : Pod} → IsProbed false p is_true
    available :
        {p : Pod} {resp : Response}
        → availability p ≡ ok resp
        → resp.status_code ≡ 200
        → IsProbed true p is_true
    unavailable :
        {p : Pod} {resp : Response}
        → availability p ≡ ok resp
        → (resp.status_code == 200) ≡ false
        → IsProbed true p is_false

  abbrev pub IsPatch : Bool → List String → Pod × PodCondition → Type 0
  IsPatch is_enterprise names (p, c) =
      (is_eligible names p ≡ true) × IsProbed is_enterprise p c.status

  ok-eq : {a b : ConditionStatus} → ok a ≡ ok b → a ≡ b
  ok-eq h = cc

  from_answer-IsProbed :
      (p : Pod) (status : ConditionStatus) (x : Result Response)
      → availability p ≡ x
      → from_answer x ≡ ok status
      → IsProbed true p status
  from_answer-IsProbed p status (err x) is h = absurd (ground arith)
  from_answer-IsProbed p status (ok resp) is h = by_code (resp.status_code == 200) refl h
    where
      by_code :
          (b : Bool)
          → (resp.status_code == 200) ≡ b
          → ok (if not b then is_false else is_true) ≡ ok status
          → IsProbed true p status
      by_code true code h =
          subst (IsProbed true p) (ok-eq h) (available is ((==_iff resp.status_code 200).0 code))
      by_code false code h = subst (IsProbed true p) (ok-eq h) (unavailable is code)

  serving_of-IsProbed :
      (is_enterprise : Bool) (p : Pod) (status : ConditionStatus)
      → serving_of availability patch_error now is_enterprise p ≡ ok status
      → IsProbed is_enterprise p status
  unfolding serving_of check_rebalance_status
  serving_of-IsProbed false p status h = subst (IsProbed false p) (ok-eq h) broker
  serving_of-IsProbed true p status h = from_answer-IsProbed p status (availability p) refl h

  -- The patches of a run, which without an error are those of all pods that are eligible.
  abbrev pub ArePatches : Bool → List String → List Pod → Patched → Type 0
  ArePatches is_enterprise names pods o =
      All (IsPatch is_enterprise names) o.patches
      × (o.error ≡ none
          → map (λ (q : Pod × PodCondition). q.0) o.patches ≡ keep (is_eligible names) pods)

  module _ (is_enterprise : Bool) (names : List String) where
    add_patch-ArePatches :
        (p : Pod) (c : PodCondition) (ps : List Pod) (x : Option Error) (rest : Patched)
        → is_eligible names p ≡ true
        → IsProbed is_enterprise p c.status
        → ArePatches is_enterprise names ps rest
        → ArePatches is_enterprise names
            (p ∷ ps)
            (add_patch availability patch_error now p c x rest)
    add_patch-ArePatches p c ps (some x) rest can probed h =
        (((can, probed), tt), λ e. absurd (ground arith))
    add_patch-ArePatches p c ps none rest can probed h = (
      ((can, probed), h.0),
      λ e. ap (λ qs. p ∷ qs) (h.1 e) ∙ sym (keep-true (is_eligible names) p ps can),
    )

    patch-ArePatches :
        (p : Pod) (ps : List Pod) (x : Result ConditionStatus) (rest : Patched)
        → is_eligible names p ≡ true
        → serving_of availability patch_error now is_enterprise p ≡ x
        → ArePatches is_enterprise names ps rest
        → ArePatches is_enterprise names (p ∷ ps) (patch availability patch_error now p x rest)
    unfolding patch on_serving
    patch-ArePatches p ps (err x) rest can is h = (tt, λ e. absurd (ground arith))
    patch-ArePatches p ps (ok status) rest can is h =
        add_patch-ArePatches p (on_serving availability patch_error now p status) ps (patch_error p)
          rest can (serving_of-IsProbed is_enterprise p status is) h

    patch_all-ArePatches :
        (pods : List Pod)
        → ArePatches is_enterprise names pods
            (patch_all availability patch_error now is_enterprise names pods)
    unfolding patch_all
    patch_all-ArePatches [] = (tt, λ e. refl)
    patch_all-ArePatches (p ∷ ps) =
        by_test (is_eligible names p)
          (patch_all availability patch_error now is_enterprise names ps) refl
          (patch_all-ArePatches ps)
      where
        by_test :
            (b : Bool) (rest : Patched)
            → is_eligible names p ≡ b
            → ArePatches is_enterprise names ps rest
            → ArePatches is_enterprise names (p ∷ ps) (
                if b
                then patch availability patch_error now p
                    (serving_of availability patch_error now is_enterprise p)
                    rest
                else rest)
        by_test true rest can h = patch-ArePatches p ps _ rest can refl h
        by_test false rest can h = (h.0, λ e. h.1 e ∙ sym (keep-false (is_eligible names) p ps can))

  -- updatePodConditions patches only listed pods that a node of the status runs on and whose
  -- containers are ready, and puts a pod of an EmqxEnterprise on serving just if its availability
  -- check answers 200; each such pod is patched unless an error is reported.
  pub reconcile-ArePatches :
      (client : Client) (labels : Labels) (e : Emqx) (names : List String) (o : Patched)
      → cluster_pods e.status.emqx_nodes ≡ some names
      → reconcile availability patch_error now client labels e ≡ some o
      → ArePatches e.is_enterprise names (client.pods e.namespace labels) o
  unfolding reconcile
  reconcile-ArePatches client labels e names o named h =
      subst (ArePatches e.is_enterprise names (client.pods e.namespace labels))
        (some-eq (
          sym (
            ap
              (λ ns. ns >>= λ names. some (
                patch_all availability patch_error now e.is_enterprise names
                  (client.pods e.namespace labels)))
              named)
          ∙ h))
        (patch_all-ArePatches e.is_enterprise names (client.pods e.namespace labels))
