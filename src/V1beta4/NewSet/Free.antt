-- ===== src/V1beta4/NewSet/Free.antt =====
-- The search for the name of a new set.
use emqx_operator.Prelude.{
  ◌>>=◌, ◌||◌, List, ℕ, zero, suc, ◌+◌, ◌<◌, pos, inc_int32, inc_int32-pos, max_int32, true, not,
  Option, none, some, ◌≡◌, ap, ◌∙◌, arith, if◌then◌else◌,
}
use emqx_operator.Errors.{not_found, Result, ok, err}
use emqx_operator.Kube.{Workload}
use emqx_operator.Kube.Pods.{SetObject}
use emqx_operator.Controllers.Builders.Named.{Printer}
use emqx_operator.V1beta4.{Emqx, Cluster}
use emqx_operator.V1beta4.Sets.{get_all_stateful_set}
use emqx_operator.V1beta4.NewSet.{
  Calls, round, find_same, name_at, free_name, get_new_stateful_set, same_or_new, or_nil, is_some,
}

module _ (c : Cluster) (calls : Calls) (printer : Printer) (sts : SetObject) where
  -- The names from the number `n` on, up to that of `n + k`, are taken, and the next one is free.
  pub data IsFirstFree : ℕ → ℕ → Type 0 where
    free :
        {n : ℕ}
        → c.get_set (name_at c calls printer sts (pos n)) ≡ err not_found
        → IsFirstFree n zero
    taken :
        {n k : ℕ} {w : Workload}
        → c.get_set (name_at c calls printer sts (pos n)) ≡ ok w
        → IsFirstFree (n + 1) k
        → IsFirstFree n (suc k)

  right_zero : (n : ℕ) → n ≡ n + 0
  right_zero n = omega arith

  left_zero : (n : ℕ) → 0 + n ≡ n
  left_zero n = omega arith

  one_more : (n k : ℕ) → n + 1 + k ≡ n + suc k
  one_more n k = omega arith

  -- The set with the name of a collision count.
  abbrev pub named_at : ℕ → Option (Result SetObject)
  named_at m = some (ok (record sts { name = name_at c calls printer sts (pos m) }))

  free_name_lem :
      (n k fuel : ℕ)
      → IsFirstFree n k
      → n + k < max_int32
      → k < fuel
      → free_name c calls printer fuel sts (pos n)
        ≡ some (ok (record sts { name = name_at c calls printer sts (pos (n + k)) }))
  unfolding free_name
  free_name_lem n k zero is bound enough = absurd (omega arith)
  free_name_lem n zero (suc fuel) (free h) bound enough =
      ap
        (round c calls printer sts (name_at c calls printer sts (pos n))
          (free_name c calls printer fuel sts (inc_int32 (pos n))))
        h
      ∙ ap named_at (right_zero n)
  free_name_lem n (suc k) (suc fuel) (taken {w = w} h is) bound enough =
      ap
        (round c calls printer sts (name_at c calls printer sts (pos n))
          (free_name c calls printer fuel sts (inc_int32 (pos n))))
        h
      ∙ ap (free_name c calls printer fuel sts) (inc_int32-pos n (omega arith))
      ∙ free_name_lem (n + 1) k fuel is (omega arith) (omega arith)
      ∙ ap named_at (one_more n k)

  -- A search for a new name ends at the first collision count under which the cluster has no set, if
  -- that is below the largest int32 and below the fuel; the set gets the name of that count.
  pub get_new_stateful_set-ends :
      (e : Emqx) (k fuel : ℕ) (sets : List Workload)
      → e.is_enterprise ≡ true
      → is_some e.blue_green_update ≡ true
      → get_all_stateful_set c e ≡ some (ok sets)
      → find_same c calls printer sts sets ≡ some none
      → IsFirstFree 0 k
      → k < max_int32
      → k < fuel
      → get_new_stateful_set c calls printer fuel e sts
        ≡ some (ok (record sts { name = name_at c calls printer sts (pos k) }))
  unfolding get_new_stateful_set
  get_new_stateful_set-ends e k fuel sets kind update all same is bound enough =
      ap (λ b. if not b || not (is_some e.blue_green_update) then some (ok sts) else rest) kind
      ∙ ap (λ b. if not b then some (ok sts) else rest) update
      ∙ ap
          (λ all. all >>= λ all. find_same c calls printer sts (or_nil all) >>= λ found.
            same_or_new c calls printer fuel sts found)
          all
      ∙ ap (λ found. found >>= λ found. same_or_new c calls printer fuel sts found) same
      ∙ free_name_lem 0 k fuel is (omega arith) enough
      ∙ ap named_at (left_zero k)
    where
      rest : Option (Result SetObject)
      rest = get_all_stateful_set c e >>= λ all.
          find_same c calls printer sts (or_nil all) >>= λ found.
          same_or_new c calls printer fuel sts found
