-- ===== src/V1beta4/NewSet.antt =====
-- controllers/apps/v1beta4/add_emqx_statefulset.go: the set that is written for an instance, under the
-- name of a set with the same pods or a new one, and addEmqxStatefulSet.reconcile. The patch library,
-- a Get of a set by its name and CreateOrUpdate are parameters. `none` is a panic, or a search for a
-- name that outlives its fuel.
pub mod Free
use emqx_operator.Prelude.{
  ℕ, zero, suc, ℤ, pos, inc_int32, ◌+++◌, String, Bool, true, false, not, ◌||◌, Option, none, some,
  ◌>>=◌, List, [], ◌∷◌, if◌then◌else◌,
}
use emqx_operator.Errors.{Error, is_not_found, Result, ok, err}
use emqx_operator.Kube.{Workload}
use emqx_operator.Kube.Pods.{SetObject, Metadata}
use emqx_operator.Controllers.Builders.Named.{Printer, compute_hash}
use emqx_operator.Controllers.Reconcile.{SubResult, after, fail}
use emqx_operator.V1beta4.{Emqx, BlueGreenUpdate, Cluster}
use emqx_operator.V1beta4.Sets.{get_all_stateful_set}
use emqx_operator.V1beta4.BlueGreen.{Action, Synced, handle_blue_green_update}

-- Whether the patch between the pod templates of two sets is empty, the metadata of a set, and what
-- CreateOrUpdate answers.
pub record Calls : Type 0 where
  pub is_patch_empty : Workload → SetObject → Option Bool
  pub metadata_of : Workload → Metadata
  pub create_or_update : SetObject → Option Error

abbrev pub adopt : Metadata → Workload → SetObject → SetObject
adopt m w sts = record sts { name = w.name; namespace = w.namespace; metadata = m }

abbrev pub is_some {ℓ} : {A : Type ℓ} → Option A → Bool
is_some none = false
is_some (some a) = true

abbrev pub or_nil : Result (List Workload) → List Workload
or_nil (err x) = []
or_nil (ok ws) = ws

module _ (c : Cluster) (calls : Calls) (printer : Printer) where
  -- The set with the metadata of the first that has its pods, if there is one.
  unfoldable pub find_same : SetObject → List Workload → Option (Option SetObject)
  find_same sts [] = some none
  find_same sts (w ∷ ws) =
      let rest = find_same sts ws in
      calls.is_patch_empty w sts >>= λ same.
      (if same then some (some (adopt (calls.metadata_of w) w sts)) else rest)

  unfoldable pub name_at : SetObject → ℤ → String
  unfolding compute_hash
  name_at sts count = sts.name +++ "-" +++ compute_hash printer sts.template (some count)

  -- The do-while loop: what one round makes of the answer about a name.
  abbrev pub round :
      SetObject → String → Option (Result SetObject) → Result Workload → Option (Result SetObject)
  round sts name rest (ok w) = rest
  round sts name rest (err x) =
      if is_not_found x then some (ok (record sts { name = name })) else some (err x)

  unfoldable pub free_name : ℕ → SetObject → ℤ → Option (Result SetObject)
  unfolding name_at inc_int32
  free_name zero sts count = none
  free_name (suc fuel) sts count =
      let name = name_at sts count in
      round sts name (free_name fuel sts (inc_int32 count)) (c.get_set name)

  abbrev pub same_or_new : ℕ → SetObject → Option SetObject → Option (Result SetObject)
  same_or_new fuel sts (some found) = some (ok found)
  same_or_new fuel sts none = free_name fuel sts (pos 0)

  unfoldable pub get_new_stateful_set : ℕ → Emqx → SetObject → Option (Result SetObject)
  unfolding get_all_stateful_set find_same free_name
  get_new_stateful_set fuel e sts =
      if not e.is_enterprise || not (is_some e.blue_green_update)
      then some (ok sts)
      else (get_all_stateful_set c e >>= λ all.
          find_same sts (or_nil all) >>= λ found. same_or_new fuel sts found)

  module _ (sync : Option Synced) (now : ℕ) where
    abbrev pub after_write : Emqx → Option Error → Option (List Action × SubResult)
    after_write e (some x) = some ([], fail x)
    after_write e none =
        if e.is_enterprise
        then handle_blue_green_update sync now e.status.blue_green e.blue_green_update
        else some ([], after 0)

    abbrev pub write_set : Emqx → Result SetObject → Option (List Action × SubResult)
    write_set e (err x) = some ([], fail x)
    write_set e (ok sts) = after_write e (calls.create_or_update sts)

    -- addEmqxStatefulSet.reconcile, with the further calls that change the cluster.
    unfoldable pub reconcile : ℕ → Emqx → SetObject → Option (List Action × SubResult)
    unfolding get_new_stateful_set handle_blue_green_update
    reconcile fuel e sts = get_new_stateful_set fuel e sts >>= λ new. write_set e new
