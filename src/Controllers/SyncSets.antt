-- ===== src/Controllers/SyncSets.antt =====
-- controllers/apps/v2beta1/sync_sets.go: the clean-up of old sets. Logs are left out; `none` is a
-- panic: a nil pointer, or an index past the end of a list.
pub mod Retired
pub mod Limit
use emqx_operator.Prelude.{
  ℕ, zero, suc, ◌+◌, ◌-◌, ℤ, pos, negsuc, ◌==ℤ◌, String, Bool, true, false, not, ◌&&◌, ◌||◌, ltb,
  leb, Option, none, some, List, [], ◌∷◌, ◌++◌, length, ◌>>=◌, if◌then◌else◌,
}
use emqx_operator.Prelude.Text.{to_int32}
use emqx_operator.Errors.{Error, is_not_found}
use emqx_operator.Kube.{Client, Workload, Claim}
use emqx_operator.Api.Types.{Emqx}
use emqx_operator.Api.Status
use emqx_operator.Api.Status.{is_condition_true}
use emqx_operator.Controllers.Sets.{get_stateful_set_list, get_replica_set_list}

-- A call of client.Client.Delete.
pub data Deletion : Type 0 where
  replica_set stateful_set : Workload → Deletion
  volume_claim : Claim → Deletion

-- The calls made, in order, and the error that ended them.
pub record Swept : Type 0 where
  pub deletions : List Deletion
  pub error : Option Error

abbrev pub nothing : Swept
nothing = record { deletions = []; error = none }

abbrev pub is_some : {A : Type 0} → Option A → Bool
is_some none = false
is_some (some a) = true

-- The test before a deletion, which stops at a set that still has replicas; later `*Spec.Replicas`
-- panics where it is nil.
unfoldable pub is_kept : Workload → Option Bool
is_kept w =
    if not (w.status_replicas ==ℤ pos 0)
    then some true
    else w.spec_replicas >>= λ n. some (
        not (n ==ℤ pos 0) || ltb w.observed_generation w.generation || is_some w.deletion_timestamp)

abbrev pub refusal : Option Error → Option Error
refusal none = none
refusal (some e) = if is_not_found e then none else some e

-- One deletion, and then the rest unless it is refused.
abbrev pub go_on : Deletion → Option Error → Option Swept → Option Swept
go_on x (some e) rest = some (record { deletions = x ∷ []; error = some e })
go_on x none rest = rest >>= λ s. some (record s { deletions = x ∷ s.deletions })

module _ (delete_error : Deletion → Option Error) where
  abbrev pub delete : Deletion → Option Swept → Option Swept
  delete x rest = go_on x (refusal (delete_error x)) rest

  unfoldable pub delete_claims : List Claim → Option Swept → Option Swept
  delete_claims [] rest = rest
  delete_claims (c ∷ cs) rest =
      let later = delete_claims cs rest in
      if is_some c.deletion_timestamp then later else delete (volume_claim c) later

  abbrev pub delete_replica_set : Workload → Option Swept → Option Swept
  delete_replica_set w rest = delete (replica_set w) rest

  unfoldable pub delete_stateful_set : Client → Emqx → Workload → Option Swept → Option Swept
  unfolding delete_claims
  delete_stateful_set client instance' w rest =
      delete (stateful_set w)
        (delete_claims (client.claims instance'.namespace w.match_labels) rest)

-- The loop over the first `n` old sets, and what comes after it.
unfoldable pub sweep :
    (Workload → Option Swept → Option Swept) → ℕ → List Workload → Option Swept → Option Swept
unfolding is_kept
sweep remove zero ws rest = rest
sweep remove (suc n) [] rest = none
sweep remove (suc n) (w ∷ ws) rest =
    let later = sweep remove n ws rest in
    is_kept w >>= λ kept. if kept then later else remove w later

-- `len - limit` of integers.
abbrev pub difference : ℕ → ℤ → ℤ
difference n (pos limit) = if leb limit n then pos (n - limit) else negsuc (limit - n - 1)
difference n (negsuc limit) = pos (n + limit + 1)

abbrev pub rounds : ℤ → ℕ
rounds (pos n) = n
rounds (negsuc n) = 0

-- How often a loop up to int32(len(old)) - *RevisionHistoryLimit runs; the difference wraps around.
unfoldable pub excess : ℕ → ℤ → ℕ
unfolding to_int32
excess n limit = rounds (to_int32 (difference n limit))

-- The two loops.
unfoldable pub sweeps : (Deletion → Option Error) → Client → Emqx → ℤ → Option Swept
unfolding sweep delete_stateful_set excess
sweeps delete_error client instance' limit =
    let replica_sets = (get_replica_set_list client instance').old in
    let stateful_sets = (get_stateful_set_list client instance').old in
    sweep (delete_replica_set delete_error) (excess (length replica_sets) limit) replica_sets (
      sweep (delete_stateful_set delete_error client instance')
        (excess (length stateful_sets) limit) stateful_sets (some nothing))

unfoldable pub reconcile : (Deletion → Option Error) → Client → Emqx → Option Swept
unfolding sweeps
reconcile delete_error client instance' =
    if not (is_condition_true instance'.status Status.ready)
    then some nothing
    else instance'.spec.revision_history_limit >>= sweeps delete_error client instance'
