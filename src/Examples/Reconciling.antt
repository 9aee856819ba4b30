-- ===== src/Examples/Reconciling.antt =====
-- The theorems on the loop of sub-reconcilers, on the pods that serve and on merged ports.
use emqx_operator.Prelude.{pos, true, ◌≡◌, refl, Option, none, some, List, [], ◌∷◌, All}
use emqx_operator.Errors.{ok, err, not_found, is_common_error}
use emqx_operator.Http.{Requester}
use emqx_operator.Kube.{Client, Pod, PodCondition, is_true}
use emqx_operator.Api.Types.{Emqx}
use emqx_operator.Api.Status
use emqx_operator.Api.Status.{is_condition_true}
use emqx_operator.Api.Labels.{is_exist_replicant}
use emqx_operator.Kube.Pods.{ServicePort}
use emqx_operator.Controllers.Sets.{get_stateful_set_list, get_replica_set_list}
use emqx_operator.Controllers.PodConditions
use emqx_operator.Controllers.PodConditions.{
  Probe, on_serving, next_serving, has_ready_containers, check_in_cluster, pod_on_serving,
}
use emqx_operator.Controllers.PodConditions.Serving.{IsJustified, reconcile-IsJustified}
use emqx_operator.Controllers.Reconcile
use emqx_operator.Controllers.Reconcile.{
  SubReconciler, sync_config, add_bootstrap, update_status, SubResult, after, run_all,
  sub_reconcilers, stop_on,
}
use emqx_operator.Controllers.Reconcile.Requeue.{Continues, reconcile-Continues}
use emqx_operator.Controllers.Reconcile.Order.{InOrder, traced, emqx_traced, run_all-InOrder}
use emqx_operator.Examples.Fixtures.{
  true_at, status_of, emqx_of, set_of, client_of, pod_of, node_of,
}

-- The second sub-reconciler does not find an object, and the run ends.
abbrev run : SubReconciler → Option Requester → Emqx → Option (Emqx × SubResult)
run update_status r e = some (e, record (after 0) { error = some not_found })
run x r e = some (e, after 0)

abbrev itself : Emqx → Emqx
itself e = e

abbrev emqx : Emqx
emqx =
    let s = status_of (true_at 5 Status.available ∷ []) "v1" "v1" in
    emqx_of none (record s {
      core_nodes =
          record (node_of "emqx@core-0" "core") { pod_uid = "core-0"; edition = "Opensource" } ∷ [];
    })

ended : Reconcile.reconcile run itself none none (ok none) emqx ≡ some (emqx, after 1)
unfolding Reconcile.reconcile run_all stop_on is_common_error
ended = refl

reconcile-Continues_example : Continues (after 1)
reconcile-Continues_example =
    reconcile-Continues run itself none (ok none) emqx emqx (after 1) refl ended

abbrev trace : List (SubReconciler × SubResult)
trace = (update_status, record (after 0) { error = some not_found }) ∷ []

traces :
    run_all
      (traced run itself)
      (emqx_traced run itself)
      none
      (update_status ∷ sync_config ∷ [])
      (emqx, [])
    ≡ some ((emqx, trace), after 1)
unfolding run_all stop_on is_common_error
traces = refl

run_all-InOrder_example :
    InOrder run itself [] (update_status ∷ sync_config ∷ []) (emqx, trace) (after 1)
run_all-InOrder_example =
    run_all-InOrder run itself none (update_status ∷ sync_config ∷ []) emqx (emqx, trace) (after 1)
      traces

abbrev ready_pod : Pod
ready_pod = record (pod_of "core-0" "core") {
  conditions =
      record { type = "ContainersReady"; status = is_true; last_transition_time = none } ∷ [];
}

abbrev client : Client
client = client_of (set_of "core" "v1" 1 ∷ []) [] (ready_pod ∷ [])

abbrev probe : Probe
probe = record { at_least = λ v. some true; availability = λ p. err not_found }

abbrev serving : PodCondition
serving = record { type = pod_on_serving; status = is_true; last_transition_time = some 7 }

patched : PodConditions.reconcile client probe none 7 emqx ≡ some ((ready_pod, serving) ∷ [])
unfolding PodConditions.reconcile has_ready_containers check_in_cluster on_serving
    is_exist_replicant get_stateful_set_list get_replica_set_list
patched = refl

reconcile-IsJustified_example :
    All (IsJustified client probe none 7 emqx) ((ready_pod, serving) ∷ [])
reconcile-IsJustified_example =
    reconcile-IsJustified client probe none 7 emqx ((ready_pod, serving) ∷ []) patched

abbrev mqtt : ServicePort
mqtt = record {
  name = "mqtt";
  protocol = "TCP";
  port = pos 1883;
  target_port = "1883";
  node_port = pos 0;
}

abbrev other : ServicePort
other = record {
  name = "other";
  protocol = "TCP";
  port = pos 1883;
  target_port = "1884";
  node_port = pos 0;
}
