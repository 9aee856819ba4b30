-- ===== src/Controllers/SyncSets/Retired.antt =====
-- Only what is old and idle is deleted.
use emqx_operator.Prelude.{
  ℕ, zero, suc, ◌≤◌, ℤ, pos, Bool, true, false, not, ◌≡◌, refl, sym, ap, subst, ◌∙◌, Option, none,
  some, List, [], ◌∷◌, length, take, All, All-mono, arith, ◌>>=◌, if◌then◌else◌,
}
use mathlib.Core.List.{Memᴰ}
use mathlib.Core.List.Memᴰ.{head, tail}
use emqx_operator.Errors.{Error}
use emqx_operator.Kube.{Client, Workload, Claim}
use emqx_operator.Api.Types.{Emqx}
use emqx_operator.Api.Status
use emqx_operator.Api.Status.{is_condition_true}
use emqx_operator.Controllers.Sets.{get_stateful_set_list, get_replica_set_list}
use emqx_operator.Controllers.SyncSets.{
  Deletion, replica_set, stateful_set, volume_claim, Swept, nothing, is_kept, refusal, go_on,
  delete, delete_claims, delete_replica_set, delete_stateful_set, sweep, sweeps, is_some, excess,
  reconcile,
}

-- The set has no replicas, and wants none, at the latest generation, and is not being deleted.
pub record IsIdle (w : Workload) : Type 0 where
  pub has_none : w.status_replicas ≡ pos 0
  pub wants_none : w.spec_replicas ≡ some (pos 0)
  pub is_observed : w.generation ≤ w.observed_generation
  pub is_live : w.deletion_timestamp ≡ none

is_kept-IsIdle : (w : Workload) → is_kept w ≡ some false → IsIdle w
unfolding is_kept
is_kept-IsIdle w h = record {
  has_none = ground arith;
  wants_none = ground arith;
  is_observed = ground arith;
  is_live = ground arith;
}

pub members {ℓ} : {A : Type ℓ} (xs : List A) → All (λ x. Memᴰ x xs) xs
members [] = tt
members (x ∷ xs) = (head refl, All-mono _ _ xs (λ y m. tail m) (members xs))

abbrev AllDeleted : (Deletion → Type 0) → Option Swept → Type 0
AllDeleted P none = Unit
AllDeleted P (some s) = All P s.deletions

module _ (P : Deletion → Type 0) where
  go_on-All :
      (x : Deletion) (refused : Option Error) (rest : Option Swept)
      → P x
      → AllDeleted P rest
      → AllDeleted P (go_on x refused rest)
  go_on-All x (some e) rest p h = (p, tt)
  go_on-All x none none p h = tt
  go_on-All x none (some s) p h = (p, h)

  delete_claims-All :
      (delete_error : Deletion → Option Error) (cs : List Claim) (rest : Option Swept)
      → ((c : Claim) → c.deletion_timestamp ≡ none → P (volume_claim c))
      → AllDeleted P rest
      → AllDeleted P (delete_claims delete_error cs rest)
  unfolding delete_claims
  delete_claims-All f [] rest p h = h
  delete_claims-All f (c ∷ cs) rest p h =
      by_timestamp c.deletion_timestamp (p c) (delete_claims-All f cs rest p h)
    where
      by_timestamp :
          (t : Option ℕ)
          → (t ≡ none → P (volume_claim c))
          → AllDeleted P (delete_claims f cs rest)
          → AllDeleted P (
              if is_some t
              then delete_claims f cs rest
              else delete f (volume_claim c) (delete_claims f cs rest))
      by_timestamp none p h =
          go_on-All (volume_claim c) (refusal (f (volume_claim c))) (delete_claims f cs rest)
            (p refl) h
      by_timestamp (some t) p h = h

  sweep-All :
      (remove : Workload → Option Swept → Option Swept) (n : ℕ) (ws : List Workload)
      (rest : Option Swept)
      → All
          (λ w. IsIdle w → (rest : Option Swept) → AllDeleted P rest → AllDeleted P (remove w rest))
          (take n ws)
      → AllDeleted P rest
      → AllDeleted P (sweep remove n ws rest)
  unfolding sweep
  sweep-All remove zero ws rest p h = h
  sweep-All remove (suc n) [] rest p h = tt
  sweep-All remove (suc n) (w ∷ ws) rest p h =
      by_kept (is_kept w) (is_kept-IsIdle w) (sweep-All remove n ws rest p.1 h)
    where
      by_kept :
          (o : Option Bool)
          → (o ≡ some false → IsIdle w)
          → AllDeleted P (sweep remove n ws rest)
          → AllDeleted P (
              o >>= λ kept.
              if kept then sweep remove n ws rest else remove w (sweep remove n ws rest))
      by_kept none e h = tt
      by_kept (some true) e h = h
      by_kept (some false) e h = p.0 (e refl) (sweep remove n ws rest) h

-- What may be deleted, where these are the old replica sets and stateful sets beyond the limit.
pub data IsRetired (replica_sets stateful_sets : List Workload) : Deletion → Type 0 where
  old_replica_set :
      {w : Workload}
      → Memᴰ w replica_sets
      → IsIdle w
      → IsRetired replica_sets stateful_sets (replica_set w)
  old_stateful_set :
      {w : Workload}
      → Memᴰ w stateful_sets
      → IsIdle w
      → IsRetired replica_sets stateful_sets (stateful_set w)
  live_claim :
      {c : Claim}
      → c.deletion_timestamp ≡ none
      → IsRetired replica_sets stateful_sets (volume_claim c)

module _ (delete_error : Deletion → Option Error) (client : Client) (e : Emqx) where
  -- The old sets beyond the history limit: the list is in the order of creation.
  abbrev pub beyond : ℤ → List Workload → List Workload
  beyond limit ws = take (excess (length ws) limit) ws

  abbrev pub MayDelete : ℤ → Deletion → Type 0
  MayDelete limit =
      IsRetired (beyond limit (get_replica_set_list client e).old)
        (beyond limit (get_stateful_set_list client e).old)

  sweeps-All : (limit : ℤ) → AllDeleted (MayDelete limit) (sweeps delete_error client e limit)
  unfolding sweeps delete_stateful_set
  sweeps-All limit =
      sweep-All (MayDelete limit) (delete_replica_set delete_error) _
        (get_replica_set_list client e).old _
        (All-mono _ _ (beyond limit (get_replica_set_list client e).old)
          (λ w m idle rest h.
            go_on-All (MayDelete limit) (replica_set w) (refusal (delete_error (replica_set w)))
              rest (old_replica_set m idle) h)
          (members (beyond limit (get_replica_set_list client e).old)))
        (sweep-All (MayDelete limit) (delete_stateful_set delete_error client e) _
          (get_stateful_set_list client e).old _
          (All-mono _ _ (beyond limit (get_stateful_set_list client e).old)
            (λ w m idle rest h.
              go_on-All (MayDelete limit) (stateful_set w) (refusal (delete_error (stateful_set w)))
                (delete_claims delete_error (client.claims e.namespace w.match_labels) rest)
                (old_stateful_set m idle)
                (delete_claims-All (MayDelete limit) delete_error
                  (client.claims e.namespace w.match_labels) rest (λ c h. live_claim h) h))
            (members (beyond limit (get_stateful_set_list client e).old)))
          tt)

-- A reconciliation deletes only replica sets and stateful sets that are among the oldest beyond the
-- history limit of those that are neither updated to nor current, that have no replicas and want
-- none, and that are not being deleted yet, and only volume claims that are not being deleted yet.
pub reconcile-IsRetired :
    (delete_error : Deletion → Option Error) (client : Client) (e : Emqx) (limit : ℤ) (s : Swept)
    → e.spec.revision_history_limit ≡ some limit
    → reconcile delete_error client e ≡ some s
    → All (MayDelete delete_error client e limit) s.deletions
unfolding reconcile
reconcile-IsRetired delete_error client e limit s l h =
    by_ready (is_condition_true e.status Status.ready) h
  where
    by_ready :
        (b : Bool)
        → (if not b
            then some nothing
            else e.spec.revision_history_limit >>= sweeps delete_error client e)
          ≡ some s
        → All (MayDelete delete_error client e limit) s.deletions
    by_ready false h = subst (AllDeleted (MayDelete delete_error client e limit)) h tt
    by_ready true h =
        subst (AllDeleted (MayDelete delete_error client e limit))
          (sym (ap (λ o. o >>= sweeps delete_error client e) l) ∙ h)
          (sweeps-All delete_error client e limit)
