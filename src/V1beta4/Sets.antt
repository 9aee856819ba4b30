-- ===== src/V1beta4/Sets.antt =====
-- controllers/apps/v1beta4/statefulset.go and statefulset_util.go: the stateful sets of an instance,
-- with their pods, and those that take part in the cluster. `none` is a panic.
use emqx_operator.Prelude.{
  ℤ, pos, ◌==ℤ◌, ltb_ℤ, inc_int32, ◌+++◌, String, str_eq, Bool, not, ◌&&◌, Option, none, some,
  ◌>>=◌, List, [], ◌∷◌, map, keep, if◌then◌else◌,
}
use emqx_operator.Prelude.Sort.{sort}
use emqx_operator.Errors.{Error, sts_not_ready, Result, ok, err}
use emqx_operator.Kube.{Workload, Pod}
use emqx_operator.Controllers.Sets.{
  PodMap, pods_of, empty_entries, add_pods, workload_less, name_older,
}
use emqx_operator.V1beta4.{Emqx, EmqxNode, Cluster}

-- A step of a function that returns an error.
abbrev pub on_ok {ℓ κ} :
    {A : Type ℓ} {B : Type κ} → Result A → (A → Option (Result B)) → Option (Result B)
on_ok (err e) f = some (err e)
on_ok (ok a) f = f a

abbrev pub listed {ℓ} : {A : Type ℓ} → Option Error → A → Result A
listed none a = ok a
listed (some e) a = err e

unfoldable pub get_emqx_node_name : Emqx → Pod → String
get_emqx_node_name e pod = e.config_name +++ "@" +++ pod.name +++ "." +++ e.dns_name

-- `*Spec.Replicas` in the order of sets, which all have one there.
abbrev size : Workload → ℤ
size w = elim w.spec_replicas [ none ↦ pos 0 | some n ↦ n ]

-- StatefulSetsBySizeOlder.Less and StatefulSetsBySizeNewer.Less.
abbrev pub size_older : Workload → Workload → Bool
size_older a b = if size a ==ℤ size b then workload_less a b else ltb_ℤ (size b) (size a)

abbrev pub size_newer : Workload → Workload → Bool
size_newer a b = if size a ==ℤ size b then workload_less b a else ltb_ℤ (size b) (size a)

-- The sets that want replicas.
unfoldable pub with_replicas : List Workload → Option (List Workload)
with_replicas [] = some []
with_replicas (w ∷ ws) =
    let rest = with_replicas ws in
    w.spec_replicas >>= λ n. (rest >>= λ r. some (if not (n ==ℤ pos 0) then w ∷ r else r))

abbrev or_not_ready : List Workload → Result (List Workload)
or_not_ready [] = err sts_not_ready
or_not_ready (w ∷ ws) = ok (sort size_newer (w ∷ ws))

unfoldable pub get_all_stateful_set : Cluster → Emqx → Option (Result (List Workload))
unfolding with_replicas sort
get_all_stateful_set c e =
    on_ok (listed c.sets_error (c.client.stateful_sets e.namespace e.labels))
      λ items. with_replicas items >>= λ ws. some (or_not_ready ws)

abbrev sort_pods : String × List Pod → String × List Pod
sort_pods (uid, pods) = (uid, sort name_older pods)

unfoldable pub get_pod_map : Cluster → Emqx → List Workload → Result PodMap
unfolding sort empty_entries add_pods
get_pod_map c e sets = elim (listed c.pods_error (c.client.pods e.namespace e.labels)) [
  | err x ↦ err x
  | ok pods ↦ ok (map sort_pods (add_pods (empty_entries [] sets) pods))
]

-- The nodes that run under a name.
unfoldable pub count_nodes : ℤ → String → List EmqxNode → ℤ
unfolding inc_int32
count_nodes found name [] = found
count_nodes found name (n ∷ ns) =
    count_nodes
      (if str_eq name n.node && str_eq n.node_status "Running" then inc_int32 found else found) name
      ns

unfoldable pub ready_count : ℤ → Emqx → List Pod → ℤ
unfolding count_nodes get_emqx_node_name
ready_count found e [] = found
ready_count found e (p ∷ ps) =
    ready_count
      (if str_eq p.phase "Running"
        then count_nodes found (get_emqx_node_name e p) e.status.emqx_nodes
        else found)
      e ps

abbrev pub pods_in : String → PodMap → List Pod
pods_in uid m = elim (pods_of uid m) [ none ↦ [] | some ps ↦ ps ]

abbrev pub is_in_cluster : Emqx → PodMap → Workload → Bool
is_in_cluster e m w = ready_count (pos 0) e (pods_in w.uid m) ==ℤ w.current_replicas

abbrev in_cluster : Emqx → List Workload → PodMap → Result (List Workload)
in_cluster e sets m = elim (keep (is_in_cluster e m) sets) [
  | [] ↦ err sts_not_ready
  | w ∷ ws ↦ ok (w ∷ ws)
]

unfoldable pub get_in_cluster_stateful_sets : Cluster → Emqx → Option (Result (List Workload))
unfolding get_all_stateful_set get_pod_map ready_count pods_of
get_in_cluster_stateful_sets c e = get_all_stateful_set c e >>= λ all.
    on_ok all λ sets. on_ok (get_pod_map c e sets) λ m. some (in_cluster e sets m)
