-- ===== src/Controllers/PodConditions/Serving.antt =====
-- Which pods the patches put on serving.
use emqx_operator.Prelude.{
  ℕ, String, Bool, true, false, ◌&&◌, ◌≡◌, refl, sym, ap, ◌∙◌, subst, Option, none, some, ◌⊎◌, inl,
  inr, List, [], ◌∷◌, All, arith, some-eq, ◌>>=◌, if◌then◌else◌, Bool-cases, >>=-eq-some,
}
use emqx_operator.Http.{Requester}
use emqx_operator.Kube.{
  Client, Pod, PodCondition, ConditionStatus, is_true, is_false, is_unknown, unset, status_true,
}
use emqx_operator.Api.Types.{Emqx}
use emqx_operator.Api.Labels.{default_labels}
use emqx_operator.Api.Status
use emqx_operator.Api.Status.{is_condition_true}
use emqx_operator.Controllers.PodConditions.{
  Probe, on_serving, has_ready_containers, write_status, check_in_cluster, is_updated, is_current,
  update_serving, retire_serving, next_serving, patches_of, patch_all, reconcile,
}

abbrev serves : PodCondition → Bool
serves c = status_true c.status

serves-write_status :
    (now : ℕ) (s : ConditionStatus) (c : PodCondition)
    → serves (write_status now s c) ≡ status_true s
serves-write_status now s c = ground arith

is_true_of : (s : ConditionStatus) → status_true s ≡ true → s ≡ is_true
is_true_of is_true h = refl
is_true_of is_false h = cc
is_true_of is_unknown h = cc
is_true_of unset h = cc

true-false : true ≡ false → ⊥
true-false h = cc

module _ (client : Client) (probe : Probe) (r : Option Requester) (now : ℕ) (e : Emqx) where
  -- Why a patch may say that the pod serves: it does already, or it is a pod of an updated set whose
  -- containers are ready and whose node is in the cluster.
  pub data MayServe (pod : Pod) : Type 0 where
    serves_already : serves (on_serving pod) ≡ true → MayServe pod
    joins :
        {uid : String}
        → pod.controller_uid ≡ some uid
        → is_updated client probe r now e uid ≡ true
        → has_ready_containers pod.conditions ≡ true
        → check_in_cluster probe r e pod ≡ some is_true
        → MayServe pod

  update_serving-joins :
      (pod : Pod) (c c' : PodCondition)
      → update_serving client probe r now e pod c ≡ some c'
      → serves c' ≡ true
      → (serves c ≡ true)
        ⊎ ((has_ready_containers pod.conditions ≡ true)
            × (check_in_cluster probe r e pod ≡ some is_true))
  unfolding update_serving
  update_serving-joins pod c c' h s =
      by_ready (has_ready_containers pod.conditions) (check_in_cluster probe r e pod) refl refl h
    where
      by_ready :
          (b : Bool) (o : Option ConditionStatus)
          → has_ready_containers pod.conditions ≡ b
          → check_in_cluster probe r e pod ≡ o
          → (if b then (o >>= λ status. some (write_status now status c)) else some c) ≡ some c'
          → (serves c ≡ true)
            ⊎ ((has_ready_containers pod.conditions ≡ true)
                × (check_in_cluster probe r e pod ≡ some is_true))
      by_ready false o b q h = inl (ap serves (some-eq h) ∙ s)
      by_ready true none b q h = cc
      by_ready true (some status) b q h = inr (
        b,
        q
            ∙ ap some (
                is_true_of status
                  (sym (serves-write_status now status c) ∙ ap serves (some-eq h) ∙ s)),
      )

  retire_serving-serves :
      (pod : Pod) (c : PodCondition)
      → serves (retire_serving client probe r now e pod c) ≡ true
      → serves c ≡ true
  unfolding retire_serving
  retire_serving-serves pod c s =
      elim (Bool-cases
        (is_condition_true e.status Status.available && has_ready_containers pod.conditions)) [
          | inl b ↦ absurd (
              true-false (
                sym s
                ∙ ap (λ x. serves (if x then write_status now is_false c else c)) b
                ∙ serves-write_status now is_false c))
          | inr b ↦ ap (λ x. serves (if x then write_status now is_false c else c)) (sym b) ∙ s
        ]

  next_serving-MayServe :
      (pod : Pod) (uid : String) (c : PodCondition)
      → pod.controller_uid ≡ some uid
      → next_serving client probe r now e pod uid ≡ some c
      → serves c ≡ true
      → MayServe pod
  unfolding next_serving
  next_serving-MayServe pod uid c o h s =
      by_role (is_updated client probe r now e uid) (is_current client probe r now e uid) refl h
    where
      by_role :
          (u k : Bool)
          → is_updated client probe r now e uid ≡ u
          → (if u
              then update_serving client probe r now e pod (on_serving pod)
              else if k
              then some (retire_serving client probe r now e pod (on_serving pod))
              else some (on_serving pod))
            ≡ some c
          → MayServe pod
      by_role true k q h = elim (update_serving-joins pod (on_serving pod) c h s) [
        | inl a ↦ serves_already a
        | inr (b, d) ↦ joins o q b d
      ]
      by_role false true q h =
          serves_already (retire_serving-serves pod (on_serving pod) (ap serves (some-eq h) ∙ s))
      by_role false false q h = serves_already (ap serves (some-eq h) ∙ s)

  abbrev pub IsJustified : Pod × PodCondition → Type 0
  IsJustified p = (serves p.1 ≡ false) ⊎ MayServe p.0

  patches_of-IsJustified :
      (pod : Pod) (o : Option String) (rest ps : List (Pod × PodCondition))
      → pod.controller_uid ≡ o
      → All IsJustified rest
      → patches_of client probe r now e pod o rest ≡ some ps
      → All IsJustified ps
  unfolding patches_of
  patches_of-IsJustified pod none rest ps o a h = subst (All IsJustified) (some-eq h) a
  patches_of-IsJustified pod (some uid) rest ps o a h =
      let (c, q, h1) =
        >>=-eq-some (next_serving client probe r now e pod uid) (λ c. some ((pod, c) ∷ rest)) h in
      subst (All IsJustified) (some-eq h1) (justified c q, a)
    where
      justified :
          (c : PodCondition)
          → next_serving client probe r now e pod uid ≡ some c
          → IsJustified (pod, c)
      justified c q = elim (Bool-cases (serves c)) [
        | inl s ↦ inr (next_serving-MayServe pod uid c o q s)
        | inr s ↦ inl s
      ]

  patch_all-IsJustified :
      (pods : List Pod) (ps : List (Pod × PodCondition))
      → patch_all client probe r now e pods ≡ some ps
      → All IsJustified ps
  unfolding patch_all
  patch_all-IsJustified [] ps h = subst (All IsJustified) (some-eq h) tt
  patch_all-IsJustified (p ∷ pods) ps h =
      let (rest, q, h1) =
        >>=-eq-some (patch_all client probe r now e pods)
          (patches_of client probe r now e p p.controller_uid) h in
      patches_of-IsJustified p p.controller_uid rest ps refl (patch_all-IsJustified pods rest q) h1

-- A patch puts a pod on serving only if the pod serves already, or if a set of the update revision
-- controls it, its containers are ready, and the cluster, asked for the pod's node, says that it
-- takes part; so no other pod ever starts to serve.
pub reconcile-IsJustified :
    (client : Client) (probe : Probe) (r : Option Requester) (now : ℕ) (e : Emqx)
    (ps : List (Pod × PodCondition))
    → reconcile client probe r now e ≡ some ps
    → All (IsJustified client probe r now e) ps
unfolding reconcile
reconcile-IsJustified client probe r now e ps h =
    patch_all-IsJustified client probe r now e (client.pods e.namespace (default_labels e)) ps h
