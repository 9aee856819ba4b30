-- ===== src/Api/Labels/Distinct.antt =====
-- The functions on maps of labels build maps: one entry for a key.
use emqx_operator.Prelude.{
  String, str_eq, eq_iff, false, ◌≡◌, refl, inl, inr, Option, none, some, List, [], ◌∷◌, foldl,
  arith, Bool-cases,
}
use emqx_operator.Kube.{Labels}
use emqx_operator.Api.Labels.{lookup, insert, copy_into, merge_into, clone_and_merge_map}
use emqx_operator.Api.Labels.Lookup.{Distinct, lookup-insert}

absent-insert :
    (key other value : String) (m : Labels)
    → str_eq key other ≡ false
    → lookup other m ≡ none
    → lookup other (insert key value m) ≡ none
absent-insert key other value m h k = ground (arith, lookup-insert key other value m)

insert-Distinct : (key value : String) (m : Labels) → Distinct m → Distinct (insert key value m)
unfolding insert lookup
insert-Distinct key value [] d = (refl, tt)
insert-Distinct key value ((k, v) ∷ m) d = elim (Bool-cases (str_eq k key)) [
  | inl e ↦ let same : k ≡ key = (eq_iff k key).0 e in rw e (rw same at d)
  | inr e ↦ rw e (absent-insert key k value m (flipped e) d.0, insert-Distinct key value m d.1)
]
  where
    flipped : str_eq k key ≡ false → str_eq key k ≡ false
    flipped e = ground (arith, eq_iff key k, eq_iff k key)

copy_into-Distinct : (new m : Labels) → Distinct new → Distinct (copy_into new m)
unfolding copy_into
copy_into-Distinct new [] d = d
copy_into-Distinct new ((k, v) ∷ m) d =
    copy_into-Distinct (insert k v new) m (insert-Distinct k v new d)

merge_into-Distinct : (new m : Labels) → Distinct new → Distinct (merge_into new m)
unfolding merge_into
merge_into-Distinct new [] d = d
merge_into-Distinct new ((k, v) ∷ m) d =
    merge_into-Distinct (elim (lookup k new) [ some w ↦ new | none ↦ insert k v new ]) m
      (by_value (lookup k new))
  where
    by_value : (o : Option String) → Distinct (elim o [ some w ↦ new | none ↦ insert k v new ])
    by_value (some w) = d
    by_value none = insert-Distinct k v new d

foldl-Distinct :
    (new : Labels) (ms : List Labels) → Distinct new → Distinct (foldl merge_into new ms)
foldl-Distinct new [] d = d
foldl-Distinct new (m ∷ ms) d = foldl-Distinct (merge_into new m) ms (merge_into-Distinct new m d)

pub clone_and_merge_map-Distinct :
    (dst : Labels) (src : List Labels) → Distinct (clone_and_merge_map dst src)
unfolding clone_and_merge_map
clone_and_merge_map-Distinct dst src =
    foldl-Distinct (copy_into [] dst) src (copy_into-Distinct [] dst tt)

-- Every entry of the first map is one of the second.
abbrev pub Covers : Labels → Labels → Type 0
Covers selector labels =
    (key value : String) → lookup key selector ≡ some value → lookup key labels ≡ some value
