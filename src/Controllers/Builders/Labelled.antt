-- ===== src/Controllers/Builders/Labelled.antt =====
-- The labels of the sets that the operator asks for.
use emqx_operator.Prelude.{
  String, str_eq, ◌+++◌, false, ◌≡◌, refl, sym, ap, ◌∙◌, subst, Option, none, some, some-eq, ◌>>=◌,
  List, [], if◌then◌else◌,
}
use emqx_operator.Kube.{Labels}
use emqx_operator.Kube.Pods.{SetObject, ServicePort, Container}
use emqx_operator.Api.Types.{Emqx, Template}
use emqx_operator.Api.Labels.{lookup, copy_into, clone_and_add_label, labels_pod_template_hash_key}
use emqx_operator.Api.Labels.Lookup.{Distinct, lookup-insert, lookup-copy}
use emqx_operator.Api.Labels.Distinct.{clone_and_merge_map-Distinct}
use emqx_operator.Api.Dashboard.{Hocon}
use emqx_operator.Controllers.Builders.Core.{generate_stateful_set, core_labels}
use emqx_operator.Controllers.Builders.Replicant.{generate_replica_set, replicant_labels}
use emqx_operator.Controllers.Builders.Named.{
  Printer, named, compute_hash, with_first, with_ports, with_hash, select_hash, add_hash,
  clone_selector_and_add_label, get_new_stateful_set, get_new_replica_set, dashboard_of,
}

-- A set that the API server accepts, and that the readers of sets find again: its selector, its own
-- labels and those of its pods are the given ones with the hash added, and its name ends in the hash.
pub record IsLabelled (name : String) (labels : Labels) (hash : String) (s : SetObject)
    : Type 0 where
  pub is_named : s.name ≡ name +++ "-" +++ hash
  pub selects_its_pods : s.match_labels ≡ s.template.metadata.labels
  pub is_like_its_pods : s.metadata.labels ≡ s.template.metadata.labels
  pub has_hash : lookup labels_pod_template_hash_key s.metadata.labels ≡ some hash
  pub has_labels :
      (key : String)
      → str_eq labels_pod_template_hash_key key ≡ false
      → lookup key s.metadata.labels ≡ lookup key labels

select-eq-add : (hash : String) (labels : Labels) → select_hash hash labels ≡ add_hash hash labels
unfolding clone_selector_and_add_label clone_and_add_label
select-eq-add hash labels = refl

lookup-add_hash :
    (key hash : String) (labels : Labels)
    → lookup key (add_hash hash labels) ≡ (
        if str_eq labels_pod_template_hash_key key
        then some hash
        else lookup key (copy_into [] labels))
unfolding clone_and_add_label
lookup-add_hash key hash labels =
    lookup-insert labels_pod_template_hash_key key hash (copy_into [] labels)

with_hash-IsLabelled :
    (hash : String) (s : SetObject) (labels : Labels) (cs : List Container)
    → Distinct labels
    → s.match_labels ≡ labels
    → s.template.metadata.labels ≡ labels
    → s.metadata.labels ≡ labels
    → IsLabelled s.name labels hash (with_hash hash s cs)
with_hash-IsLabelled hash s labels cs d hm ht ho = record {
  is_named = refl;
  selects_its_pods =
      ap (select_hash hash) hm ∙ select-eq-add hash labels ∙ ap (add_hash hash) (sym ht);
  is_like_its_pods = ap (add_hash hash) (ho ∙ sym ht);
  has_hash = lookup-add_hash labels_pod_template_hash_key hash s.metadata.labels;
  has_labels = λ key other.
      lookup-add_hash key hash s.metadata.labels
      ∙ rw other (ap (λ m. lookup key (copy_into [] m)) ho ∙ lookup-copy key labels d);
}

pub named-IsLabelled :
    (p : Printer) (ports : List ServicePort) (count : Option _) (s r : SetObject) (labels : Labels)
    → Distinct labels
    → s.match_labels ≡ labels
    → s.template.metadata.labels ≡ labels
    → s.metadata.labels ≡ labels
    → named p ports count s ≡ some r
    → IsLabelled s.name labels (compute_hash p s.template count) r
unfolding named
named-IsLabelled p ports count s r labels d hm ht ho h =
    by_containers (with_first (with_ports ports) s.template.spec.containers) h
  where
    hash : String
    hash = compute_hash p s.template count

    by_containers :
        (o : Option (List Container))
        → (o >>= λ cs. some (with_hash hash s cs)) ≡ some r
        → IsLabelled s.name labels hash r
    by_containers (some cs) e =
        subst (IsLabelled s.name labels hash) (some-eq e)
          (with_hash-IsLabelled hash s labels cs d hm ht ho)
    by_containers none e = cc

-- The set that the operator asks for is one whose selector selects its own pods, and which carries,
-- like them, the labels of its kind and of its template with the hash of its pod template, which
-- its name ends in.
pub get_new_sets-IsLabelled :
    (p : Printer) (hocon : Hocon) (e : Emqx) (t : Template) (sts rs : SetObject)
    → get_new_stateful_set p hocon e ≡ some sts
    → get_new_replica_set p hocon e t ≡ some rs
    → IsLabelled
        (e.name +++ "-core")
        (core_labels e)
        (compute_hash p
          (generate_stateful_set e).template
          e.status.core_nodes_status.collision_count)
        sts
      × IsLabelled
          (e.name +++ "-replicant")
          (replicant_labels e t)
          (compute_hash p
            (generate_replica_set e t).template
            e.status.replicant_nodes_status.collision_count)
          rs
unfolding get_new_stateful_set get_new_replica_set generate_stateful_set generate_replica_set
get_new_sets-IsLabelled p hocon e t sts rs h k = (
  named-IsLabelled p (dashboard_of hocon e) _ (generate_stateful_set e) sts (core_labels e)
      (clone_and_merge_map-Distinct _ _) refl refl refl h,
  named-IsLabelled p (dashboard_of hocon e) _ (generate_replica_set e t) rs (replicant_labels e t)
      (clone_and_merge_map-Distinct _ _) refl refl refl k,
)
