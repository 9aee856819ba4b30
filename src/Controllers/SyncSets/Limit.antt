-- ===== src/Controllers/SyncSets/Limit.antt =====
-- When the clean-up ends.
use emqx_operator.Prelude.{
  ℕ, zero, suc, ◌-◌, ◌%◌, ◌^◌, ltb, leb, ◌≤◌, ◌<◌, pos, negsuc, Bool, true, false, not, ◌≡◌, refl,
  sym, subst, Option, none, some, List, [], ◌∷◌, length, All, max_int32, arith, ◌>>=◌,
  if◌then◌else◌,
}
use emqx_operator.Prelude.Text.{to_int32, signed}
use emqx_operator.Errors.{Error}
use emqx_operator.Kube.{Client, Workload, Claim}
use emqx_operator.Api.Types.{Emqx}
use emqx_operator.Api.Status
use emqx_operator.Api.Status.{is_condition_true}
use emqx_operator.Controllers.Sets.{get_stateful_set_list, get_replica_set_list}
use emqx_operator.Controllers.SyncSets.{
  Deletion, replica_set, stateful_set, volume_claim, Swept, nothing, is_kept, is_some, refusal,
  go_on, delete, delete_claims, delete_replica_set, delete_stateful_set, sweep, sweeps, excess,
  rounds, reconcile,
}

abbrev Ends : Option Swept → Type 0
Ends o = is_some o ≡ true

abbrev HasReplicas : Workload → Type 0
HasReplicas w = is_some w.spec_replicas ≡ true

is_kept-total : (w : Workload) → HasReplicas w → is_some (is_kept w) ≡ true
unfolding is_kept
is_kept-total w h = ground arith

go_on-Ends :
    (x : Deletion) (refused : Option Error) (rest : Option Swept)
    → Ends rest
    → Ends (go_on x refused rest)
go_on-Ends x refused rest h = ground arith

delete_claims-Ends :
    (f : Deletion → Option Error) (cs : List Claim) (rest : Option Swept)
    → Ends rest
    → Ends (delete_claims f cs rest)
unfolding delete_claims
delete_claims-Ends f [] rest h = h
delete_claims-Ends f (c ∷ cs) rest h =
    by_timestamp (is_some c.deletion_timestamp) (delete_claims-Ends f cs rest h)
  where
    by_timestamp :
        (b : Bool)
        → Ends (delete_claims f cs rest)
        → Ends (
            if b
            then delete_claims f cs rest
            else delete f (volume_claim c) (delete_claims f cs rest))
    by_timestamp true h = h
    by_timestamp false h =
        go_on-Ends (volume_claim c) (refusal (f (volume_claim c))) (delete_claims f cs rest) h

sweep-Ends :
    (remove : Workload → Option Swept → Option Swept)
    → ((w : Workload) (rest : Option Swept) → Ends rest → Ends (remove w rest))
    → (n : ℕ) (ws : List Workload) (rest : Option Swept) → n ≤ length ws
    → All HasReplicas ws
    → Ends rest
    → Ends (sweep remove n ws rest)
unfolding sweep
sweep-Ends remove r zero ws rest b a h = h
sweep-Ends remove r (suc n) [] rest b a h = absurd (ground arith)
sweep-Ends remove r (suc n) (w ∷ ws) rest b a h =
    by_kept (is_kept w) (is_kept-total w a.0) (sweep-Ends remove r n ws rest (ground arith) a.1 h)
  where
    by_kept :
        (o : Option Bool)
        → is_some o ≡ true
        → Ends (sweep remove n ws rest)
        → Ends (
            o >>= λ kept.
            if kept then sweep remove n ws rest else remove w (sweep remove n ws rest))
    by_kept none e h = cc
    by_kept (some true) e h = h
    by_kept (some false) e h = r w (sweep remove n ws rest) h

signed-le : (m : ℕ) → rounds (signed m) ≤ m
signed-le m = by_size (ltb m (2 ^ 31))
  where
    by_size : (b : Bool) → rounds (if b then pos m else negsuc (2 ^ 32 - 1 - m)) ≤ m
    by_size true = omega arith
    by_size false = omega arith

mod-le : (m : ℕ) → m % 2 ^ 32 ≤ m
mod-le m = omega arith

signed_below_zero : (k : ℕ) → k < max_int32 → rounds (signed (2 ^ 32 - 1 - k % 2 ^ 32)) ≡ 0
signed_below_zero k h = ground arith

-- With a limit that is an int32 and not negative the loop never runs past the end of the list.
excess-le : (n limit : ℕ) → limit ≤ max_int32 → excess n (pos limit) ≤ n
unfolding excess to_int32
excess-le n limit h = by_limit (leb limit n) refl
  where
    by_limit :
        (b : Bool)
        → leb limit n ≡ b
        → rounds (to_int32 (if b then pos (n - limit) else negsuc (limit - n - 1))) ≤ n
    by_limit true e = omega (arith, signed-le ((n - limit) % 2 ^ 32), mod-le (n - limit))
    by_limit false e = omega (arith, signed_below_zero (limit - n - 1) (ground arith))

module _ (delete_error : Deletion → Option Error) (client : Client) (e : Emqx) where
  -- A reconciliation under a history limit that is an int32 and not negative ends without a panic,
  -- where each old set has its number of replicas.
  pub reconcile-ends :
      (limit : ℕ)
      → limit ≤ max_int32
      → e.spec.revision_history_limit ≡ some (pos limit)
      → All HasReplicas (get_replica_set_list client e).old
      → All HasReplicas (get_stateful_set_list client e).old
      → is_some (reconcile delete_error client e) ≡ true
  unfolding reconcile sweeps delete_stateful_set
  reconcile-ends limit small l a b = by_ready (is_condition_true e.status Status.ready)
    where
      ends : Ends (sweeps delete_error client e (pos limit))
      ends =
          sweep-Ends (delete_replica_set delete_error)
            (λ w rest h. go_on-Ends (replica_set w) (refusal (delete_error (replica_set w))) rest h)
            _ (get_replica_set_list client e).old _ (excess-le _ limit small) a
            (sweep-Ends (delete_stateful_set delete_error client e)
              (λ w rest h.
                go_on-Ends (stateful_set w) (refusal (delete_error (stateful_set w)))
                  (delete_claims delete_error (client.claims e.namespace w.match_labels) rest)
                  (delete_claims-Ends delete_error (client.claims e.namespace w.match_labels) rest
                    h))
              _ (get_stateful_set_list client e).old _ (excess-le _ limit small) b refl)

      by_ready :
          (b : Bool)
          → Ends (
              if not b
              then some nothing
              else e.spec.revision_history_limit >>= sweeps delete_error client e)
      by_ready false = refl
      by_ready true = subst (λ o. Ends (o >>= sweeps delete_error client e)) (sym l) ends
