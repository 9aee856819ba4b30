-- ===== src/Controllers/Sets/Roles.antt =====
-- Each listed set has the role that its revision label gives it.
use emqx_operator.Prelude.{
  String, str_eq, Bool, true, false, not, ◌&&◌, ◌≡◌, refl, sym, ap, ◌∙◌, Option, none, some, List,
  [], ◌∷◌, ◌++◌, keep, arith, if◌then◌else◌, Perm, subst,
}
use mathlib.Core.List.{append-nil, append_assoc}
use emqx_operator.Prelude.Sort.{sort, sort-perm}
use emqx_operator.Kube.{Client, Workload}
use emqx_operator.Api.Types.{Emqx}
use emqx_operator.Api.Labels.{
  lookup, default_core_labels, default_replicant_labels, labels_pod_template_hash_key,
}
use emqx_operator.Controllers.Sets.{
  Sets, note, scan, assign_roles, workload_less, get_stateful_set_list, get_replica_set_list,
}

abbrev hash_is : String → Option String → Bool
hash_is revision none = false
hash_is revision (some hash) = str_eq hash revision

-- The set carries the revision in its label.
abbrev pub has_revision : String → Workload → Bool
has_revision revision w = hash_is revision (lookup labels_pod_template_hash_key w.labels)

abbrev hash_is_other : String → String → Option String → Bool
hash_is_other update current none = false
hash_is_other update current (some hash) = not (str_eq hash update) && not (str_eq hash current)

-- The set carries a revision that is neither of the two.
abbrev pub has_other_revision : String → String → Workload → Bool
has_other_revision update current w =
    hash_is_other update current (lookup labels_pod_template_hash_key w.labels)

abbrev pub last_or : Option Workload → (Workload → Bool) → List Workload → Option Workload
last_or found p [] = found
last_or found p (w ∷ ws) = last_or (if p w then some w else found) p ws

-- Of the listed sets, the last of the update revision, the last of the current revision, and all
-- of other revisions, in some order.
pub record HasRoles (update current : String) (items : List Workload) (s : Sets) : Type 0 where
  pub is_update : s.update ≡ last_or none (has_revision update) items
  pub is_current : s.current ≡ last_or none (has_revision current) items
  pub is_old : Perm s.old (keep (has_other_revision update current) items)

module _ (u c : String) where
  note-update :
      (w : Workload) (f : Sets)
      → (note u c w f).update ≡ (if has_revision u w then some w else f.update)
  note-update w f = ground arith

  note-current :
      (w : Workload) (f : Sets)
      → (note u c w f).current ≡ (if has_revision c w then some w else f.current)
  note-current w f = ground arith

  note-old :
      (w : Workload) (f : Sets)
      → (note u c w f).old ≡ (if has_other_revision u c w then f.old ++ w ∷ [] else f.old)
  note-old w f = ground arith

  scan-update :
      (f : Sets) (items : List Workload)
      → (scan u c f items).update ≡ last_or f.update (has_revision u) items
  unfolding scan
  scan-update f [] = refl
  scan-update f (w ∷ ws) =
      scan-update (note u c w f) ws ∙ ap (λ o. last_or o (has_revision u) ws) (note-update w f)

  scan-current :
      (f : Sets) (items : List Workload)
      → (scan u c f items).current ≡ last_or f.current (has_revision c) items
  unfolding scan
  scan-current f [] = refl
  scan-current f (w ∷ ws) =
      scan-current (note u c w f) ws ∙ ap (λ o. last_or o (has_revision c) ws) (note-current w f)

  scan-old :
      (f : Sets) (items : List Workload)
      → (scan u c f items).old ≡ f.old ++ keep (has_other_revision u c) items
  unfolding scan
  scan-old f [] = sym (append-nil f.old)
  scan-old f (w ∷ ws) =
      scan-old (note u c w f) ws
      ∙ ap (λ o. o ++ keep (has_other_revision u c) ws) (note-old w f)
      ∙ split (has_other_revision u c w)
    where
      split :
          (b : Bool)
          → (if b then f.old ++ w ∷ [] else f.old) ++ keep (has_other_revision u c) ws
            ≡ f.old ++ elim b [
              | true ↦ w ∷ keep (has_other_revision u c) ws
              | false ↦ keep (has_other_revision u c) ws
            ]
      split true = append_assoc f.old (w ∷ []) (keep (has_other_revision u c) ws)
      split false = refl

  assign_roles-HasRoles : (items : List Workload) → HasRoles u c items (assign_roles u c items)
  unfolding assign_roles
  assign_roles-HasRoles items = record {
    is_update = scan-update start items;
    is_current = scan-current start items;
    is_old =
        subst (Perm (sort workload_less (scan u c start items).old)) (scan-old start items)
          (sort-perm workload_less (scan u c start items).old);
  }
    where
      start : Sets
      start = record { update = none; current = none; old = [] }

-- getStateFulSetList gives the listed stateful sets their roles by the revisions in the status of
-- the core nodes, and getReplicaSetList the replica sets by those of the replicant nodes.
pub get_sets-HasRoles :
    (client : Client) (e : Emqx)
    → HasRoles e.status.core_nodes_status.update_revision
        e.status.core_nodes_status.current_revision
        (client.stateful_sets e.namespace (default_core_labels e))
        (get_stateful_set_list client e)
      × HasRoles e.status.replicant_nodes_status.update_revision
          e.status.replicant_nodes_status.current_revision
          (client.replica_sets e.namespace (default_replicant_labels e))
          (get_replica_set_list client e)
unfolding get_stateful_set_list get_replica_set_list
get_sets-HasRoles client e = (assign_roles-HasRoles _ _ _, assign_roles-HasRoles _ _ _)
