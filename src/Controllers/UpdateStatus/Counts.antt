-- ===== src/Controllers/UpdateStatus/Counts.antt =====
-- The counters in the status are the numbers of the nodes that they count.
use emqx_operator.Prelude.{
  ℕ, ◌+◌, ◌≤◌, ℤ, pos, max_int32, inc_int32-pos, str_eq, Bool, true, false, ◌≡◌, refl, ap, ◌∙◌,
  Option, List, [], ◌∷◌, length, keep, arith,
}
use emqx_operator.Kube.{Workload}
use emqx_operator.Api.Types.{EmqxNode, EmqxNodesStatus}
use emqx_operator.Controllers.Sets.{Sets}
use emqx_operator.Controllers.UpdateStatus.{uid_is, bump, count_node, count_from, count_nodes}

abbrev pub is_running : EmqxNode → Bool
is_running n = str_eq n.node_status "running"

abbrev pub is_of : Option Workload → EmqxNode → Bool
is_of set n = uid_is n.controller_uid set

-- One counter of the loop, which goes up at the nodes that pass a test.
count_if : (EmqxNode → Bool) → ℤ → List EmqxNode → ℤ
count_if p n [] = n
count_if p n (x ∷ xs) = count_if p (bump (p x) n) xs

count_if-pos :
    (p : EmqxNode → Bool) (k : ℕ) (xs : List EmqxNode)
    → k + length xs ≤ max_int32
    → count_if p (pos k) xs ≡ pos (k + length (keep p xs))
unfolding count_if
count_if-pos p k [] h = ap pos (omega arith)
count_if-pos p k (x ∷ xs) h =
    by_test (p x) (count_if-pos p (k + 1) xs (omega arith)) (count_if-pos p k xs (omega arith))
  where
    by_test :
        (b : Bool)
        → count_if p (pos (k + 1)) xs ≡ pos (k + 1 + length (keep p xs))
        → count_if p (pos k) xs ≡ pos (k + length (keep p xs))
        → count_if p (bump b (pos k)) xs
          ≡ pos (k + length (elim b [ true ↦ x ∷ keep p xs | false ↦ keep p xs ]))
    by_test true more same = rw (inc_int32-pos k (omega arith), more) (ap pos (omega arith))
    by_test false more same = same

module _ (update current : Option Workload) where
  count_from-ready :
      (s : EmqxNodesStatus) (xs : List EmqxNode)
      → (count_from update current s xs).ready_replicas ≡ count_if is_running s.ready_replicas xs
  unfolding count_from count_if
  count_from-ready s [] = refl
  count_from-ready s (x ∷ xs) = count_from-ready (count_node update current x s) xs

  count_from-current :
      (s : EmqxNodesStatus) (xs : List EmqxNode)
      → (count_from update current s xs).current_replicas
        ≡ count_if (is_of current) s.current_replicas xs
  unfolding count_from count_if
  count_from-current s [] = refl
  count_from-current s (x ∷ xs) = count_from-current (count_node update current x s) xs

  count_from-update :
      (s : EmqxNodesStatus) (xs : List EmqxNode)
      → (count_from update current s xs).update_replicas
        ≡ count_if (is_of update) s.update_replicas xs
  unfolding count_from count_if
  count_from-update s [] = refl
  count_from-update s (x ∷ xs) = count_from-update (count_node update current x s) xs

-- After the loop the counters are the number of nodes that are running, and of those that the current
-- and the update set control, whatever they were before, for at most as many nodes as an int32 can
-- count.
pub count_nodes_lem :
    (sets : Sets) (nodes : List EmqxNode) (s : EmqxNodesStatus)
    → length nodes ≤ max_int32
    → let t = count_nodes sets nodes s in
      (t.ready_replicas ≡ pos (length (keep is_running nodes)))
      × (t.current_replicas ≡ pos (length (keep (is_of sets.current) nodes)))
      × (t.update_replicas ≡ pos (length (keep (is_of sets.update) nodes)))
unfolding count_nodes
count_nodes_lem sets nodes s h = (
  count_from-ready _ _ _ nodes ∙ from_zero is_running,
  count_from-current _ _ _ nodes ∙ from_zero (is_of sets.current),
  count_from-update _ _ _ nodes ∙ from_zero (is_of sets.update),
)
  where
    from_zero : (p : EmqxNode → Bool) → count_if p (pos 0) nodes ≡ pos (length (keep p nodes))
    from_zero p = count_if-pos p 0 nodes (omega arith) ∙ ap pos (omega arith)
