-- ===== src/Api/Labels.antt =====
-- apis/apps/v2beta1/util.go: IsExistReplicant, and the functions on maps of labels. A Go map is an
-- association list in which `lookup` finds the first entry of a key; a write replaces the entry.
pub mod Lookup
pub mod Distinct
use emqx_operator.Prelude.{
  String, str_eq, Bool, true, false, Option, none, some, List, [], ◌∷◌, foldl, is_positive,
  if◌then◌else◌,
}
use emqx_operator.Kube.{Labels}
use emqx_operator.Api.Types.{Emqx, Template}

abbrev replicas_positive : Option Template → Bool
replicas_positive none = false
replicas_positive (some t) = elim t.replicas [ none ↦ false | some n ↦ is_positive n ]

unfoldable pub is_exist_replicant : Emqx → Bool
is_exist_replicant instance' = replicas_positive instance'.spec.replicant_template

unfoldable pub lookup : String → Labels → Option String
lookup key [] = none
lookup key ((k, v) ∷ m) = if str_eq k key then some v else lookup key m

-- `m[key] = value`
unfoldable pub insert : String → String → Labels → Labels
insert key value [] = (key, value) ∷ []
insert key value ((k, v) ∷ m) =
    if str_eq k key then (key, value) ∷ m else (k, v) ∷ insert key value m

-- `delete(m, key)`
unfoldable pub delete : String → Labels → Labels
delete key [] = []
delete key ((k, v) ∷ m) = let rest = delete key m in if str_eq k key then rest else (k, v) ∷ rest

-- `for key, value := range m { new[key] = value }`
unfoldable pub copy_into : Labels → Labels → Labels
unfolding insert
copy_into new [] = new
copy_into new ((k, v) ∷ m) = copy_into (insert k v new) m

-- `for key, value := range m { if _, ok := new[key]; !ok { new[key] = value } }`
unfoldable pub merge_into : Labels → Labels → Labels
unfolding insert lookup
merge_into new [] = new
merge_into new ((k, v) ∷ m) =
    merge_into (elim (lookup k new) [ some w ↦ new | none ↦ insert k v new ]) m

unfoldable pub clone_and_merge_map : Labels → List Labels → Labels
unfolding copy_into merge_into
clone_and_merge_map dst src = foldl merge_into (copy_into [] dst) src

unfoldable pub clone_and_add_label : Labels → String → String → Labels
unfolding copy_into insert
clone_and_add_label labels key value =
    if str_eq key "" then labels else insert key value (copy_into [] labels)

unfoldable pub clone_and_remove_label : Labels → String → Labels
unfolding copy_into delete
clone_and_remove_label labels key =
    if str_eq key "" then labels else delete key (copy_into [] labels)

-- AddLabel writes into the given map itself.
unfoldable pub add_label : Labels → String → String → Labels
unfolding insert
add_label labels key value = if str_eq key "" then labels else insert key value labels

unfoldable pub merge_map : Labels → Labels → Labels
unfolding merge_into
merge_map dst src = merge_into dst src

abbrev pub labels_instance_key : String
labels_instance_key = "apps.emqx.io/instance"

abbrev pub labels_managed_by_key : String
labels_managed_by_key = "apps.emqx.io/managed-by"

abbrev pub labels_db_role_key : String
labels_db_role_key = "apps.emqx.io/db-role"

abbrev pub labels_pod_template_hash_key : String
labels_pod_template_hash_key = "apps.emqx.io/pod-template-hash"

unfoldable pub default_labels : Emqx → Labels
unfolding insert
default_labels instance' =
    insert labels_managed_by_key "emqx-operator" (insert labels_instance_key instance'.name [])

unfoldable pub default_core_labels : Emqx → Labels
unfolding default_labels clone_and_add_label
default_core_labels instance' =
    clone_and_add_label (default_labels instance') labels_db_role_key "core"

unfoldable pub default_replicant_labels : Emqx → Labels
unfolding default_labels clone_and_add_label
default_replicant_labels instance' =
    clone_and_add_label (default_labels instance') labels_db_role_key "replicant"
