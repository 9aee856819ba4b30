-- ===== src/Examples/Scaling.antt =====
-- The theorems on the scale-down of the previous sets and on the clean-up of old sets.
use emqx_operator.Prelude.{
  arith, ℕ, ℤ, pos, negsuc, true, ◌≡◌, refl, Option, none, some, List, [], ◌∷◌, All, dec_int32,
}
use emqx_operator.Prelude.Sort.{sort}
use emqx_operator.Errors.{Error, ok, err, not_found}
use emqx_operator.Kube.{Client, Workload, Pod}
use emqx_operator.Api.Types.{Emqx, NodeEvacuationStatus}
use emqx_operator.Api.Status
use emqx_operator.Api.Status.{is_condition_true, get_condition}
use emqx_operator.Api.Labels.{lookup, insert}
use emqx_operator.Controllers.Sets.{
  get_stateful_set_list, get_replica_set_list, get_rs_pod_map, pods_of,
  check_initial_delay_seconds_ready, seconds_since, name_older,
}
use emqx_operator.Controllers.Evacuation.{Cluster, Action, update_pod, update_set}
use emqx_operator.Controllers.SyncPods.{first_leaving, mark, previous}
use emqx_operator.Controllers.SyncPods
use emqx_operator.Controllers.SyncPods.Plan.{IsPlan, reconcile-IsPlan}
use emqx_operator.Controllers.SyncPods.Evacuated.{IsDraining, lost_evacuation_panics, marked_again}
use emqx_operator.Controllers.SyncSets.{Deletion, replica_set, Swept, is_some, is_kept}
use emqx_operator.Controllers.SyncSets
use emqx_operator.Controllers.SyncSets.Retired.{IsRetired, reconcile-IsRetired}
use emqx_operator.Controllers.SyncSets.Limit.{reconcile-ends}
use emqx_operator.Examples.Fixtures.{
  true_at, status_of, emqx_of, set_of, client_of, pod_of, requester, decoder_of,
}

-- A ready cluster with an idle replica set of an older revision.
abbrev ready_emqx : ℤ → Emqx
ready_emqx limit = emqx_of (some limit) (status_of (true_at 5 Status.ready ∷ []) "v1" "v1")

abbrev old_set : Workload
old_set = set_of "replicant" "v0" 0

abbrev client : Client
client = client_of (set_of "core" "v1" 1 ∷ []) (old_set ∷ []) []

abbrev accepts : Deletion → Option Error
accepts x = none

swept :
    SyncSets.reconcile accepts client (ready_emqx (pos 0))
    ≡ some (record { deletions = replica_set old_set ∷ []; error = none })
unfolding SyncSets.reconcile is_condition_true get_replica_set_list get_stateful_set_list
swept = refl

reconcile-IsRetired_example : All (IsRetired (old_set ∷ []) []) (replica_set old_set ∷ [])
unfolding get_replica_set_list get_stateful_set_list SyncSets.excess
reconcile-IsRetired_example =
    reconcile-IsRetired accepts client (ready_emqx (pos 0)) (pos 0)
      (record { deletions = replica_set old_set ∷ []; error = none }) refl swept

reconcile-ends_example : is_some (SyncSets.reconcile accepts client (ready_emqx (pos 0))) ≡ true
unfolding get_replica_set_list get_stateful_set_list
reconcile-ends_example =
    reconcile-ends accepts client (ready_emqx (pos 0)) 0 (omega arith) refl (refl, tt) tt

is_ready : is_condition_true (ready_emqx (negsuc 0)).status Status.ready ≡ true
unfolding is_condition_true
is_ready = refl

-- A cluster whose replicant nodes are moving from the revision v0 to v1.
abbrev draining : List NodeEvacuationStatus → Emqx
draining evacuations =
    let s = status_of (true_at 5 Status.available ∷ []) "v1" "v1" in
    emqx_of none (record s {
      replicant_nodes_status = record (s.replicant_nodes_status) {
        update_revision = "v1";
        current_revision = "v0";
      };
      node_evacuations_status = evacuations;
    })

abbrev previous_set : Workload
previous_set = set_of "replicant-v0" "v0" 2

abbrev leaving : Pod
leaving = record (pod_of "replicant-v0-0" "replicant-v0") {
  annotations = ("controller.kubernetes.io/pod-deletion-cost", "-99999") ∷ [];
}

abbrev draining_client : Client
draining_client =
    client_of (set_of "core" "v1" 1 ∷ []) (previous_set ∷ set_of "replicant-v1" "v1" 1 ∷ [])
      (leaving ∷ [])

abbrev minute : ℕ
minute = 60000000000

abbrev cluster : Cluster
cluster = record {
  events = λ w. [];
  digits = λ n. "0";
  get_pod = λ name. err not_found;
  get_annotated = λ p. ok p;
  update_pod_error = none;
  update_set_error = none;
}

abbrev evacuation : NodeEvacuationStatus
evacuation = record { node = "emqx@core-0.headless"; state = "prohibiting" }

is_draining :
    (evacuations : List NodeEvacuationStatus)
    → IsDraining cluster draining_client requester
        (decoder_of [])
        minute
        (draining evacuations)
        previous_set
        leaving
        []
unfolding is_condition_true get_replica_set_list check_initial_delay_seconds_ready seconds_since
    get_condition get_rs_pod_map pods_of
is_draining evacuations = record {
  is_available = refl;
  has_previous = refl;
  is_delayed = refl;
  has_pods = refl;
}

lost_evacuation_panics_example :
    SyncPods.reconcile cluster draining_client
      (some requester)
      (decoder_of [])
      minute
      (draining (evacuation ∷ []))
    ≡ none
lost_evacuation_panics_example =
    lost_evacuation_panics cluster draining_client requester (decoder_of []) minute
      (draining (evacuation ∷ [])) previous_set leaving [] evacuation []
      (is_draining (evacuation ∷ [])) refl refl tt

abbrev marked : Pod
marked = mark cluster draining_client requester (decoder_of []) minute (draining []) leaving

abbrev plan : List Action
plan = update_pod marked ∷ update_set (record previous_set { spec_replicas = some (pos 1) }) ∷ []

found_leaving : first_leaving (sort name_older (leaving ∷ [])) ≡ some leaving
unfolding first_leaving sort lookup
found_leaving = refl

run_again :
    SyncPods.reconcile cluster draining_client (some requester) (decoder_of []) minute (draining [])
    ≡ some (record { actions = plan; error = none })
unfolding dec_int32 lookup insert
run_again =
    marked_again cluster draining_client requester (decoder_of []) minute (draining []) previous_set
      leaving [] leaving (pos 2) marked (is_draining []) refl found_leaving refl refl refl refl refl

reconcile-IsPlan_example : IsPlan (some previous_set) none plan
unfolding get_replica_set_list get_stateful_set_list
reconcile-IsPlan_example =
    reconcile-IsPlan cluster draining_client (some requester) (decoder_of []) minute (draining [])
      (record { actions = plan; error = none }) run_again
