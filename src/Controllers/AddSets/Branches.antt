-- ===== src/Controllers/AddSets/Branches.antt =====
-- The branches on which a run of addCore or addRepl ends, each with its test.
use emqx_operator.Prelude.{ℕ, Bool, true, false, ◌≡◌, Option, none, some, [], ◌∷◌}
use emqx_operator.Errors.{Error, already_exists}
use emqx_operator.Kube.{Workload}
use emqx_operator.Kube.Pods.{SetKind, SetObject, PodTemplate}
use emqx_operator.Api.Types.{Emqx}
use emqx_operator.Controllers.Reconcile.{after, fail}
use emqx_operator.Controllers.AddSets.{
  Cluster, Call, create_set, update_set, update_status, Added, unchanged, count_collision, hash_of,
  adopt, without_hash, is_rolling_out, nodes_status,
}
use emqx_operator.Controllers.AddSets.Reported.{IsReported}

-- The listed set of the update revision has other pods, or there is none.
pub data NeedsNew (c : Cluster) (new : SetObject) : Option Workload → Type 0 where
  nothing_listed : NeedsNew c new none
  other_pods :
      {w : Workload}
      → c.is_template_patch_empty
          (without_hash (c.object_of w).template)
          (without_hash new.template)
        ≡ some false
      → NeedsNew c new (some w)

-- The listed set has the wanted pods; it is as it is wanted, or not.
pub data HasPods (c : Cluster) (new : SetObject) (is_same : Bool) : Workload → Type 0 where
  has_pods :
      {w : Workload}
      → c.is_template_patch_empty
          (without_hash (c.object_of w).template)
          (without_hash new.template)
        ≡ some true
      → c.is_set_patch_empty (c.object_of w) (adopt new (c.object_of w)) ≡ some is_same
      → HasPods c new is_same w

-- A new set is created, or one with the wanted pods replaced, and what the API server answers.
pub data IsWrite (c : Cluster) (new : SetObject)
    : Option Workload → Call → Option Error → Type 0 where
  creation :
      {listed : Option Workload}
      → NeedsNew c new listed
      → IsWrite c new listed (create_set new) (c.create_error new)
  replacement :
      {w : Workload}
      → HasPods c new false w
      → IsWrite c new
          (some w)
          (update_set (adopt new (c.object_of w)))
          (c.update_error (adopt new (c.object_of w)))

-- The resource is being rolled out from the wanted set, which is a return to it.
abbrev pub Returns : SetKind → Emqx → SetObject → Type 0
Returns kind e new =
    (is_rolling_out e ≡ true) × (hash_of new ≡ (nodes_status kind e).current_revision)

-- Nothing is done for a set that is as it is wanted; or the set is written, and the status reports a
-- roll-out of its hash; or the name of a new set is taken, and the status reports the return to it or
-- else the collision count says so for the next run; or the write is refused.
pub data IsOutcome (c : Cluster) (listed : Option Workload) (later : ℕ) (kind : SetKind) (e : Emqx)
    (new : SetObject) : Added → Type 0 where
  kept :
      {w : Workload}
      → listed ≡ some w
      → HasPods c new true w
      → IsOutcome c listed later kind e new (unchanged e)
  rolled_out :
      (e2 : Emqx) (x : Call)
      → IsWrite c new listed x none
      → IsReported later kind (hash_of new) e2
      → IsOutcome c listed later kind e new
          (record { emqx = e2; calls = x ∷ update_status e2 ∷ []; result = after 0 })
  returned :
      (e2 : Emqx)
      → IsWrite c new listed (create_set new) (some already_exists)
      → Returns kind e new
      → IsReported later kind (hash_of new) e2
      → IsOutcome c listed later kind e new
          (record { emqx = e2; calls = create_set new ∷ update_status e2 ∷ []; result = after 0 })
  collided :
      IsWrite c new listed (create_set new) (some already_exists)
      → ¬ Returns kind e new
      → IsOutcome c listed later kind e new (record {
        emqx = count_collision kind e;
        calls = create_set new ∷ update_status (count_collision kind e) ∷ [];
        result = record (after 0) { result = record { requeue = true; requeue_after = 0 } };
      })
  refused_creation :
      (error : Error)
      → IsWrite c new listed (create_set new) (some error)
      → ¬ (error ≡ already_exists)
      → IsOutcome c listed later kind e new
          (record { emqx = e; calls = create_set new ∷ []; result = fail error })
  refused_update :
      (error : Error) (s : SetObject)
      → IsWrite c new listed (update_set s) (some error)
      → IsOutcome c listed later kind e new
          (record { emqx = e; calls = update_set s ∷ []; result = fail error })

-- The patch library answers: it neither panics nor gives nil.
pub record Answers (c : Cluster) : Type 0 where
  pub template : (s t : PodTemplate) → (b : Bool) × (c.is_template_patch_empty s t ≡ some b)
  pub set : (s t : SetObject) → (b : Bool) × (c.is_set_patch_empty s t ≡ some b)

-- A result, and that it is an outcome.
abbrev pub Ends : Cluster → Option Workload → ℕ → SetKind → Emqx → SetObject → Option Added → Type 0
Ends c listed later kind e new r =
    (a : Added) × (r ≡ some a) × IsOutcome c listed later kind e new a
