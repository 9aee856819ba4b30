-- ===== src/Controllers/SyncPods/Plan.antt =====
-- What one reconciliation may do to the pods.
use emqx_operator.Prelude.{
  ℕ, ℤ, dec_int32, String, Bool, true, false, not, Option, none, some, List, [], ◌∷◌, ◌>>=◌, ◌≡◌,
  refl, subst, some-eq, if_lem,
}
use emqx_operator.Errors.{Error, Result, ok, err, is_not_found}
use emqx_operator.Http.{Requester, Decoder, Body}
use emqx_operator.Kube.{Client, Workload, Pod}
use emqx_operator.Api.Types.{Emqx}
use emqx_operator.Api.Status
use emqx_operator.Api.Status.{is_condition_true}
use emqx_operator.Controllers.Sets.{get_stateful_set_list, get_replica_set_list}
use emqx_operator.Controllers.Evacuation.{
  Cluster, Action, start_evacuation, update_pod, update_set, Reply, Effect,
}
use emqx_operator.Controllers.SyncPods.{
  can_be_scale_down_rs, can_be_scale_down_sts, done, scale_down, mark, after_mark, after_update,
  mark_and_scale, scale_down_rs, scale_down_sts, previous, sync, run, reconcile, is_marked,
  is_deleted,
}
use emqx_operator.Controllers.SyncPods.Exclusive.{
  IsExclusive, calm, starts, fails, Exclusive, can_be_scale_down_rs-Exclusive,
  can_be_scale_down_sts-Exclusive,
}

-- The calls of one run, where `rs` and `sts` are the previous sets: none, the start of an
-- evacuation, the mark on a pod, and the scale-down of one set by one, which in a replica set
-- follows the mark.
pub data IsPlan (rs sts : Option Workload) : List Action → Type 0 where
  rests : IsPlan rs sts []
  evacuates : {node : String} {body : Body} → IsPlan rs sts (start_evacuation node body ∷ [])
  marks : {p : Pod} → IsPlan rs sts (update_pod p ∷ [])
  scales_rs :
      {w : Workload} {n : ℤ} {p : Pod}
      → rs ≡ some w
      → w.spec_replicas ≡ some n
      → IsPlan rs sts
          (update_pod p ∷ update_set (record w { spec_replicas = some (dec_int32 n) }) ∷ [])
  scales_sts :
      {w : Workload} {n : ℤ}
      → rs ≡ none
      → sts ≡ some w
      → w.spec_replicas ≡ some n
      → IsPlan rs sts (update_set (record w { spec_replicas = some (dec_int32 n) }) ∷ [])

-- A run that panics, or whose calls are a plan.
data Plans (rs sts : Option Workload) : Option Reply → Type 0 where
  panics : Plans rs sts none
  answers :
      {actions : List Action} {error : Option Error}
      → IsPlan rs sts actions
      → Plans rs sts (some (record { actions = actions; error = error }))

module _ (c : Cluster) (client : Client) (r : Requester) (d : Decoder) (now : ℕ) (e : Emqx)
    (w : Workload) (sts : Option Workload) where
  scale_down-rs :
      (p : Pod) → Plans (some w) sts (scale_down c client r d now e (update_pod p ∷ []) w)
  scale_down-rs p = by_replicas w.spec_replicas refl
    where
      by_replicas :
          (o : Option ℤ)
          → w.spec_replicas ≡ o
          → Plans (some w) sts (
              o >>= λ n.
              done c client r d now e
                (update_pod p ∷ update_set (record w { spec_replicas = some (dec_int32 n) }) ∷ [])
                c.update_set_error)
      by_replicas none h = panics
      by_replicas (some n) h = answers (scales_rs refl h)

  after_mark-rs :
      (p : Pod) (o : Result Pod)
      → Plans (some w) sts (after_mark c client r d now e (update_pod p ∷ []) w o)
  after_mark-rs p (err x) =
      if_lem (Plans (some w) sts) (is_not_found x) (answers marks) (answers marks)
  after_mark-rs p (ok q) =
      if_lem (Plans (some w) sts) (is_marked q) (scale_down-rs p) (answers marks)

  after_update-rs :
      (p : Pod) (o : Option Error)
      → Plans (some w) sts (after_update c client r d now e (update_pod p ∷ []) w p o)
  unfolding after_update
  after_update-rs p none = after_mark-rs p (c.get_annotated p)
  after_update-rs p (some x) = answers marks

  scale_down_rs-Plans :
      (x : Effect (Option Pod))
      → IsExclusive none x
      → Plans (some w) sts (scale_down_rs c client r d now e w x)
  unfolding scale_down_rs mark_and_scale
  scale_down_rs-Plans ([], err x) calm = answers rests
  scale_down_rs-Plans ([], ok none) calm = answers rests
  scale_down_rs-Plans ([], ok (some p)) calm =
      if_lem (Plans (some w) sts) (is_deleted p) (answers rests)
        (after_update-rs (mark c client r d now e p) c.update_pod_error)
  scale_down_rs-Plans (_, _) starts = answers evacuates
  scale_down_rs-Plans (_, _) fails = answers evacuates

module _ (c : Cluster) (client : Client) (r : Requester) (d : Decoder) (now : ℕ) (e : Emqx) where
  scale_down-sts : (w : Workload) → Plans none (some w) (scale_down c client r d now e [] w)
  scale_down-sts w = by_replicas w.spec_replicas refl
    where
      by_replicas :
          (o : Option ℤ)
          → w.spec_replicas ≡ o
          → Plans none (some w) (
              o >>= λ n.
              done c client r d now e
                (update_set (record w { spec_replicas = some (dec_int32 n) }) ∷ [])
                c.update_set_error)
      by_replicas none h = panics
      by_replicas (some n) h = answers (scales_sts refl refl h)

  scale_down_sts-Plans :
      (w : Workload) (x : Effect Bool)
      → IsExclusive false x
      → Plans none (some w) (scale_down_sts c client r d now e w x)
  unfolding scale_down_sts
  scale_down_sts-Plans w ([], err x) calm = answers rests
  scale_down_sts-Plans w ([], ok false) calm = answers rests
  scale_down_sts-Plans w ([], ok true) calm = scale_down-sts w
  scale_down_sts-Plans w (_, _) starts = answers evacuates
  scale_down_sts-Plans w (_, _) fails = answers evacuates

  >>=-Plans :
      {A : Type 0} {nothing : A} {rs sts : Option Workload} (o : Option (Effect A))
      (f : Effect A → Option Reply)
      → Exclusive nothing o
      → ((x : Effect A) → IsExclusive nothing x → Plans rs sts (f x))
      → Plans rs sts (o >>= f)
  >>=-Plans none f Exclusive.panics g = panics
  >>=-Plans (some x) f (Exclusive.answers h) g = g x h

  sync-Plans :
      (names : List String) (rs sts : Option Workload)
      → Plans rs sts (sync c client r d now e names rs sts)
  unfolding sync
  sync-Plans names (some w) sts =
      >>=-Plans (can_be_scale_down_rs c client r d now e w names)
        (scale_down_rs c client r d now e w)
        (can_be_scale_down_rs-Exclusive c client r d now e w names)
        (scale_down_rs-Plans c client r d now e w sts)
  sync-Plans names none (some w) =
      >>=-Plans (can_be_scale_down_sts c client r d now e w names)
        (scale_down_sts c client r d now e w)
        (can_be_scale_down_sts-Exclusive c client r d now e w names) (scale_down_sts-Plans w)
  sync-Plans names none none = answers rests

abbrev previous_rs : Client → Emqx → Option Workload
previous_rs client e = previous (get_replica_set_list client e)

abbrev previous_sts : Client → Emqx → Option Workload
previous_sts client e = previous (get_stateful_set_list client e)

Plans-IsPlan :
    {rs sts : Option Workload} {o : Option Reply} {reply : Reply}
    → Plans rs sts o
    → o ≡ some reply
    → IsPlan rs sts reply.actions
Plans-IsPlan panics h = cc
Plans-IsPlan {rs} {sts} (answers p) h = subst (λ (s : Reply). IsPlan rs sts s.actions) (some-eq h) p

-- The calls of one reconciliation are a plan for the previous sets: it never scales down beside the
-- start of an evacuation, it scales down at most one set and that by one replica, a replica set only
-- after the mark on a pod, and a stateful set only when no previous replica set is left.
pub reconcile-IsPlan :
    (c : Cluster) (client : Client) (r : Option Requester) (d : Decoder) (now : ℕ) (e : Emqx)
    (reply : Reply)
    → reconcile c client r d now e ≡ some reply
    → IsPlan (previous_rs client e) (previous_sts client e) reply.actions
unfolding reconcile run
reconcile-IsPlan c client none d now e reply h = Plans-IsPlan (answers rests) h
reconcile-IsPlan c client (some r) d now e reply h =
    Plans-IsPlan
      (if_lem (Plans (previous_rs client e) (previous_sts client e))
        (not (is_condition_true e.status Status.available)) (answers rests)
        (sync-Plans c client r d now e _ (previous_rs client e) (previous_sts client e)))
      h
