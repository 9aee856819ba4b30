-- ===== src/Api/Labels/Lookup.antt =====
-- The functions on labels, seen through the lookup of a key. `Distinct` says that a list of entries
-- is a map: it has one entry for a key.
use emqx_operator.Prelude.{
  String, str_eq, eq_iff, not, ◌&&◌, ◌≡◌, refl, ap, ◌∙◌, Option, none, some, List, [], ◌∷◌, foldl,
  arith, if◌then◌else◌,
}
use emqx_operator.Kube.{Labels}
use emqx_operator.Api.Types.{Emqx}
use emqx_operator.Api.Labels.{
  lookup, insert, delete, copy_into, merge_into, clone_and_merge_map, clone_and_add_label,
  clone_and_remove_label, default_labels, default_core_labels, default_replicant_labels,
  labels_db_role_key,
}

abbrev pub or_else : Option String → Option String → Option String
or_else none o = o
or_else (some v) o = some v

or_else_assoc : (a b c : Option String) → or_else (or_else a b) c ≡ or_else a (or_else b c)
or_else_assoc none b c = refl
or_else_assoc (some v) b c = refl

pub lookup-insert :
    (key other value : String) (m : Labels)
    → lookup other (insert key value m) ≡ (if str_eq key other then some value else lookup other m)
unfolding lookup insert
lookup-insert key other value [] = refl
lookup-insert key other value ((k, v) ∷ m) =
    ground (arith, eq_iff key other, eq_iff k key, eq_iff k other, lookup-insert key other value m)

pub lookup-delete :
    (key other : String) (m : Labels)
    → lookup other (delete key m) ≡ (if str_eq key other then none else lookup other m)
unfolding lookup delete
lookup-delete key other [] = ground arith
lookup-delete key other ((k, v) ∷ m) =
    ground (arith, eq_iff key other, eq_iff k key, eq_iff k other, lookup-delete key other m)

abbrev pub Distinct : Labels → Type 0
Distinct [] = Unit {0}
Distinct ((k, v) ∷ m) = (lookup k m ≡ none) × Distinct m

lookup-copy_into :
    (key : String) (new m : Labels)
    → Distinct m
    → lookup key (copy_into new m) ≡ or_else (lookup key m) (lookup key new)
unfolding lookup copy_into
lookup-copy_into key new [] d = refl
lookup-copy_into key new ((k, v) ∷ m) d =
    ground
      (arith, eq_iff k key, lookup-copy_into key (insert k v new) m d.1, lookup-insert k key v new)

lookup-merge_into :
    (key : String) (new m : Labels)
    → lookup key (merge_into new m) ≡ or_else (lookup key new) (lookup key m)
unfolding lookup merge_into
lookup-merge_into key new [] = ground arith
lookup-merge_into key new ((k, v) ∷ m) = ground (
  arith,
  eq_iff k key,
  lookup-merge_into key new m,
  lookup-merge_into key (insert k v new) m,
  lookup-insert k key v new,
)

-- The value of a key in the first of several maps that has it.
abbrev pub first_value : String → List Labels → Option String
first_value key [] = none
first_value key (m ∷ ms) = or_else (lookup key m) (first_value key ms)

lookup-foldl :
    (key : String) (new : Labels) (ms : List Labels)
    → lookup key (foldl merge_into new ms) ≡ or_else (lookup key new) (first_value key ms)
lookup-foldl key new [] = ground arith
lookup-foldl key new (m ∷ ms) =
    lookup-foldl key (merge_into new m) ms
    ∙ ap (λ o. or_else o (first_value key ms)) (lookup-merge_into key new m)
    ∙ or_else_assoc (lookup key new) (lookup key m) (first_value key ms)

or_else-none : (o : Option String) → or_else o none ≡ o
or_else-none none = refl
or_else-none (some v) = refl

pub lookup-copy :
    (key : String) (m : Labels) → Distinct m → lookup key (copy_into [] m) ≡ lookup key m
unfolding lookup
lookup-copy key m d = lookup-copy_into key [] m d ∙ or_else-none (lookup key m)

-- In the map that CloneAndMergeMap builds a key has its value in the destination, and failing that
-- its value in the first source that has the key.
pub lookup-clone_and_merge_map :
    (key : String) (dst : Labels) (src : List Labels)
    → Distinct dst
    → lookup key (clone_and_merge_map dst src) ≡ or_else (lookup key dst) (first_value key src)
unfolding clone_and_merge_map
lookup-clone_and_merge_map key dst src d =
    lookup-foldl key (copy_into [] dst) src
    ∙ ap (λ o. or_else o (first_value key src)) (lookup-copy key dst d)

-- CloneAndAddLabel sets the value of its key and keeps every other; an empty key changes nothing.
pub lookup-clone_and_add_label :
    (labels : Labels) (key value other : String)
    → Distinct labels
    → lookup other (clone_and_add_label labels key value)
      ≡ (if not (str_eq key "") && str_eq key other then some value else lookup other labels)
unfolding clone_and_add_label
lookup-clone_and_add_label labels key value other d =
    ground (arith, lookup-insert key other value (copy_into [] labels), lookup-copy other labels d)

-- CloneAndRemoveLabel removes its key and keeps every other; an empty key changes nothing.
pub lookup-clone_and_remove_label :
    (labels : Labels) (key other : String)
    → Distinct labels
    → lookup other (clone_and_remove_label labels key)
      ≡ (if not (str_eq key "") && str_eq key other then none else lookup other labels)
unfolding clone_and_remove_label
lookup-clone_and_remove_label labels key other d =
    ground (arith, lookup-delete key other (copy_into [] labels), lookup-copy other labels d)

pub default_labels-Distinct : (instance' : Emqx) → Distinct (default_labels instance')
unfolding default_labels lookup
default_labels-Distinct instance' = (refl, (refl, tt))

-- The labels by which the operator selects core pods and replicant pods differ in the role, and in
-- nothing else.
pub lookup_role_labels :
    (instance' : Emqx) (key : String)
    → (lookup key (default_core_labels instance') ≡ (
        if str_eq labels_db_role_key key
        then some "core"
        else lookup key (default_labels instance')))
      × (lookup key (default_replicant_labels instance') ≡ (
          if str_eq labels_db_role_key key
          then some "replicant"
          else lookup key (default_labels instance')))
unfolding default_core_labels default_replicant_labels
lookup_role_labels instance' key = (
  lookup-clone_and_add_label (default_labels instance') labels_db_role_key "core" key
      (default_labels-Distinct instance'),
  lookup-clone_and_add_label (default_labels instance') labels_db_role_key "replicant" key
      (default_labels-Distinct instance'),
)
