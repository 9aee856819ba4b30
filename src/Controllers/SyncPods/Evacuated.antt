-- ===== src/Controllers/SyncPods/Evacuated.antt =====
-- A scale-down that meets an evacuated node that is gone, or a pod that is marked already.
use emqx_operator.Prelude.{
  ℕ, ℤ, dec_int32, String, str_eq, true, false, none, some, List, [], ◌∷◌, ◌>>=◌, ◌≡◌, refl, ap,
  ◌∙◌, All,
}
use emqx_operator.Prelude.Sort.{sort}
use emqx_operator.Errors.{ok}
use emqx_operator.Http.{Requester, Decoder}
use emqx_operator.Kube.{Client, Workload, Pod}
use emqx_operator.Api.Types.{Emqx, EmqxNode, NodeEvacuationStatus}
use emqx_operator.Api.Status
use emqx_operator.Api.Status.{is_condition_true}
use emqx_operator.Controllers.Sets.{
  get_stateful_set_list, get_replica_set_list, get_rs_pod_map, pods_of, name_older,
  check_initial_delay_seconds_ready,
}
use emqx_operator.Controllers.Evacuation.{Cluster, update_pod, update_set, targeted_names}
use emqx_operator.Controllers.SyncPods.{
  leaving_or, by_name, first_leaving, evacuated, pick_from, pick_pod, find_pod,
  can_be_scale_down_rs, scale_down_rs, mark_and_scale, mark, previous, sync, run, reconcile,
  is_marked, is_deleted, after_update,
}

find_pod-none :
    (name : String) (nodes : List EmqxNode) (pods : List Pod)
    → All (λ n. str_eq n.node name ≡ false) nodes
    → find_pod name nodes pods ≡ none
unfolding find_pod
find_pod-none name [] pods h = refl
find_pod-none name (n ∷ ns) pods h = rw h.0 (find_pod-none name ns pods h.1)

module _ (c : Cluster) (client : Client) (r : Requester) (d : Decoder) (now : ℕ) (e : Emqx)
    (w : Workload) (p : Pod) (ps : List Pod) where
  -- The state in which the previous replica set is to be scaled down, with its pods.
  pub record IsDraining : Type 0 where
    pub is_available : is_condition_true e.status Status.available ≡ true
    pub has_previous : previous (get_replica_set_list client e) ≡ some w
    pub is_delayed : check_initial_delay_seconds_ready now e ≡ true
    pub has_pods : pods_of w.uid (get_rs_pod_map client e) ≡ some (p ∷ ps)

  reconcile-pick_pod :
      IsDraining
      → (names : List String) × (reconcile c client (some r) d now e
          ≡ (pick_pod c client r d now e names w (p ∷ ps) >>= scale_down_rs c client r d now e w))
  unfolding reconcile run sync can_be_scale_down_rs
  reconcile-pick_pod h =
      let names =
        targeted_names e (get_stateful_set_list client e) (get_replica_set_list client e) in
      (names, rw (h.is_available, h.has_previous, h.is_delayed, h.has_pods) refl)

  lost :
      (v : NodeEvacuationStatus) (vs : List NodeEvacuationStatus) (names : List String)
      → str_eq v.state "prohibiting" ≡ true
      → find_pod v.node e.status.replicant_nodes (p ∷ ps) ≡ none
      → pick_from c client r d now e names w (p ∷ ps) (v ∷ vs) ≡ none
  unfolding pick_from evacuated
  lost v vs names q f = rw (q, f) refl

  found :
      (names : List String) (pods : List Pod) (q : Pod)
      → first_leaving pods ≡ some q
      → by_name c client r d now e names w pods ≡ ([], ok (some q))
  unfolding by_name leaving_or first_leaving
  found names [] q f = cc
  found names (x ∷ xs) q f = ap (leaving_or c client r d now e names w x) f

  scaled :
      (q : Pod) (n : ℤ) (read : Pod)
      → is_deleted q ≡ false
      → c.update_pod_error ≡ none
      → c.get_annotated (mark c client r d now e q) ≡ ok read
      → is_marked read ≡ true
      → w.spec_replicas ≡ some n
      → scale_down_rs c client r d now e w ([], ok (some q))
        ≡ some (record {
          actions =
              update_pod (mark c client r d now e q)
              ∷ update_set (record w { spec_replicas = some (dec_int32 n) })
              ∷ [];
          error = c.update_set_error;
        })
  unfolding scale_down_rs mark_and_scale after_update
  scaled q n read l u g m b = rw (l, u, g, m, b) refl

  -- While a previous replica set that has pods is to be scaled down (EMQX is Available, the initial
  -- delay is over, and a requester is there), syncPods panics if the first listed evacuation is in the
  -- state prohibiting and of a node that is none of the replicants in the status.
  pub lost_evacuation_panics :
      (v : NodeEvacuationStatus) (vs : List NodeEvacuationStatus)
      → IsDraining
      → e.status.node_evacuations_status ≡ v ∷ vs
      → str_eq v.state "prohibiting" ≡ true
      → All (λ n. str_eq n.node v.node ≡ false) e.status.replicant_nodes
      → reconcile c client (some r) d now e ≡ none
  unfolding pick_pod pick_from evacuated
  lost_evacuation_panics v vs h s q a =
      let run = reconcile-pick_pod h in
      let picked = lost v vs run.0 q (find_pod-none v.node e.status.replicant_nodes (p ∷ ps) a) in
      run.1
      ∙ ap (λ o. o >>= scale_down_rs c client r d now e w)
          (ap (pick_from c client r d now e run.0 w (p ∷ ps)) s ∙ picked)

  -- A pod with the deletion cost that a former run gave it is found again as long as its deletion has
  -- not begun, and the replica set is then scaled down by one once more.
  pub marked_again :
      (q : Pod) (n : ℤ) (read : Pod)
      → IsDraining
      → e.status.node_evacuations_status ≡ []
      → first_leaving (sort name_older (p ∷ ps)) ≡ some q
      → is_deleted q ≡ false
      → c.update_pod_error ≡ none
      → c.get_annotated (mark c client r d now e q) ≡ ok read
      → is_marked read ≡ true
      → w.spec_replicas ≡ some n
      → reconcile c client (some r) d now e
        ≡ some (record {
          actions =
              update_pod (mark c client r d now e q)
              ∷ update_set (record w { spec_replicas = some (dec_int32 n) })
              ∷ [];
          error = c.update_set_error;
        })
  unfolding pick_pod pick_from
  marked_again q n read h s f l u g m b =
      let run = reconcile-pick_pod h in
      run.1
      ∙ ap (λ o. o >>= scale_down_rs c client r d now e w)
          (ap (pick_from c client r d now e run.0 w (p ∷ ps)) s
            ∙ ap some (found run.0 (sort name_older (p ∷ ps)) q f))
      ∙ scaled q n read l u g m b
