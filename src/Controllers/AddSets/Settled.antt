-- ===== src/Controllers/AddSets/Settled.antt =====
-- A set that addCore has created is the one that its next run finds, and leaves alone.
use emqx_operator.Prelude.{
  ℕ, String, eq_refl, Bool, true, ◌≡◌, refl, ap, ◌∙◌, Option, none, some, ◌>>=◌, List, [], ◌∷◌,
  ◌++◌, if◌then◌else◌,
}
use emqx_operator.Kube.{Workload}
use emqx_operator.Kube.Pods.{stateful_set, SetObject}
use emqx_operator.Api.Types.{Emqx}
use emqx_operator.Api.Labels.{lookup, default_core_labels, labels_pod_template_hash_key}
use emqx_operator.Api.Labels.Distinct.{clone_and_merge_map-Distinct}
use emqx_operator.Api.Dashboard.{Hocon}
use emqx_operator.Controllers.Sets.{get_stateful_set_list}
use emqx_operator.Controllers.Sets.Roles.{has_revision, last_or, get_sets-HasRoles}
use emqx_operator.Controllers.Builders.Core.{generate_stateful_set}
use emqx_operator.Controllers.Builders.Labelled.{named-IsLabelled}
use emqx_operator.Controllers.Builders.Named.{
  Printer, get_new_stateful_set, dashboard_of, compute_hash,
}
use emqx_operator.Controllers.AddSets.{
  Cluster, unchanged, hash_of, without_hash, add_set, update, update_emqx_status, reconcile_core,
}

-- The resource after a report of the roll-out of a set.
abbrev pub reported : ℕ → String → String → SetObject → Emqx → Emqx
reported now reason message new e =
    update_emqx_status stateful_set now reason message (hash_of new) e

-- The cluster after the creation: the set is listed last, with its labels, and its object is found.
-- An object does not differ from itself.
pub record HasCreated (c : Cluster) (ws : List Workload) (w : Workload) (new : SetObject) (e : Emqx)
    : Type 0 where
  pub is_listed : c.client.stateful_sets e.namespace (default_core_labels e) ≡ ws ++ w ∷ []
  pub has_labels : w.labels ≡ new.metadata.labels
  pub is_stored : c.object_of w ≡ new
  pub template_is_same :
      c.is_template_patch_empty (without_hash new.template) (without_hash new.template) ≡ some true
  pub set_is_same : c.is_set_patch_empty new new ≡ some true

last_or-append :
    (found : Option Workload) (p : Workload → Bool) (ws : List Workload) (w : Workload)
    → p w ≡ true
    → last_or found p (ws ++ w ∷ []) ≡ some w
last_or-append found p [] w h = rw h refl
last_or-append found p (x ∷ ws) w h = last_or-append (if p x then some x else found) p ws w h

-- A report does not change the set that the operator wants.
get_new-reported :
    (p : Printer) (hocon : Hocon) (now : ℕ) (reason message : String) (new : SetObject) (e : Emqx)
    → get_new_stateful_set p hocon (reported now reason message new e)
      ≡ get_new_stateful_set p hocon e
unfolding get_new_stateful_set update_emqx_status generate_stateful_set default_core_labels
get_new-reported p hocon now reason message new e = refl

abbrev hash_or_nil : Option String → String
hash_or_nil o = elim o [ none ↦ "" | some h ↦ h ]

is_own_hash :
    (o : Option String) (w : Workload) (hash : String)
    → lookup labels_pod_template_hash_key w.labels ≡ o
    → o ≡ some hash
    → has_revision (hash_or_nil o) w ≡ true
is_own_hash o w hash h k = rw (h, k) (eq_refl hash)

module _ (c : Cluster) (p : Printer) (hocon : Hocon) (e : Emqx) (ws : List Workload) (w : Workload)
    (new : SetObject) (found : get_new_stateful_set p hocon e ≡ some new)
    (created : HasCreated c ws w new e) where
  has_hash :
      lookup labels_pod_template_hash_key new.metadata.labels
      ≡ some (
          compute_hash p
            (generate_stateful_set e).template
            e.status.core_nodes_status.collision_count)
  unfolding get_new_stateful_set generate_stateful_set
  has_hash =
      (named-IsLabelled p (dashboard_of hocon e) e.status.core_nodes_status.collision_count
        (generate_stateful_set e) new _ (clone_and_merge_map-Distinct _ _) refl refl refl
        found).has_hash

  is_updated :
      (now : ℕ) (reason message : String)
      → (get_stateful_set_list c.client (reported now reason message new e)).update ≡ some w
  unfolding update_emqx_status default_core_labels
  is_updated now reason message =
      (get_sets-HasRoles c.client (reported now reason message new e)).0.is_update
      ∙ ap (last_or none (has_revision (hash_of new))) created.is_listed
      ∙ last_or-append none (has_revision (hash_of new)) ws w (
          is_own_hash (lookup labels_pod_template_hash_key new.metadata.labels) w _
            (ap (lookup labels_pod_template_hash_key) created.has_labels) has_hash)

  update-settled :
      (later : ℕ) (r : Emqx) → update c stateful_set later r new new ≡ some (unchanged r)
  unfolding update
  update-settled later r = rw (created.set_is_same, update) refl

  add_set-settled :
      (later : ℕ) (r : Emqx) → add_set c stateful_set later r new (some w) ≡ some (unchanged r)
  unfolding add_set
  add_set-settled later r =
      rw (created.is_stored, add_set)
        (rw (created.template_is_same, add_set) (update-settled later r))

  -- Once addCore has reported a set that it created, with a cluster that lists it, its next run finds
  -- the set of the update revision, makes no call and leaves the resource alone: the roll-out is
  -- started once.
  pub reconcile_core-settled :
      (now later : ℕ) (reason message : String)
      → reconcile_core c p hocon later (reported now reason message new e)
        ≡ some (unchanged (reported now reason message new e))
  unfolding reconcile_core
  reconcile_core-settled now later reason message =
      let r = reported now reason message new e in
      ap
        (λ o.
          o >>= λ s. (add_set c stateful_set later r s (get_stateful_set_list c.client r).update))
        (get_new-reported p hocon now reason message new e ∙ found)
      ∙ ap (add_set c stateful_set later r new) (is_updated now reason message)
      ∙ add_set-settled later r
