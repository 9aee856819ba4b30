-- ===== src/Examples/Machine.antt =====
-- The theorems on the status machine, at a cluster of one core node.
use emqx_operator.Prelude.{String, ◌≡◌, refl, none, some, List, [], ◌∷◌, arith}
use emqx_operator.Kube.{Client, Condition}
use emqx_operator.Api.Types.{Emqx}
use emqx_operator.Api.Status
use emqx_operator.Api.Status.{set_condition, get_condition, get_last_true_condition}
use emqx_operator.Api.Labels.{is_exist_replicant}
use emqx_operator.Controllers.Sets.{get_stateful_set_list, get_replica_set_list}
use emqx_operator.Controllers.StatusMachine.{
  EmqxStatusMachine, Stage, initialized, available, ready, put, cluster_ready, next_status,
  next_available, set_current_status, stage_of,
}
use emqx_operator.Controllers.StatusMachine.Invariant.{IsSynced, at}
use emqx_operator.Controllers.StatusMachine.Moves.{next_status-IsSynced}
use emqx_operator.Controllers.StatusMachine.Steps.{Step, next_status-Step}
use emqx_operator.Controllers.StatusMachine.Progress.{
  Settled, next_statuses, next_statuses-ready, rank,
}
use emqx_operator.Examples.Fixtures.{true_at, status_of, emqx_of, set_of, client_of}

abbrev client : Client
client = client_of (set_of "core" "v1" 1 ∷ []) [] []

abbrev emqx_with : List Condition → Emqx
emqx_with conditions = emqx_of none (status_of conditions "v1" "v1")

abbrev machine : String → Stage → EmqxStatusMachine
machine type stage = at (emqx_with (true_at 5 type ∷ [])) stage

synced : (type : String) (stage : Stage) → stage_of type ≡ stage → IsSynced 6 (machine type stage)
unfolding get_last_true_condition
synced type stage h = record {
  log = record { distinct = (tt, tt); sorted = (tt, tt); past = (omega arith, tt) };
  last = true_at 5 type;
  found = refl;
  tracked = h;
}

settled : (conditions : List Condition) → Settled client (emqx_with conditions)
unfolding get_stateful_set_list get_replica_set_list is_exist_replicant
settled conditions = record {
  cores = refl;
  replicants = λ h. cc;
  cores_updated = refl;
  replicants_updated = refl;
  cores_kept = refl;
  replicants_kept = refl;
}

next_statuses-ready_example :
    (s : EmqxStatusMachine) × (next_statuses client
        (6 ∷ 7 ∷ 8 ∷ 9 ∷ [])
        (machine Status.initialized initialized)
      ≡ some s)
    × (s.current_status ≡ ready)
unfolding rank is_exist_replicant
next_statuses-ready_example =
    next_statuses-ready client (6 ∷ 7 ∷ 8 ∷ 9 ∷ []) (machine Status.initialized initialized)
      (settled (true_at 5 Status.initialized ∷ [])) (synced Status.initialized initialized refl)
      (omega arith, (omega arith, (omega arith, tt))) (omega arith)

abbrev ready_machine : EmqxStatusMachine
ready_machine = at (put 6 cluster_ready (machine Status.available available).emqx) ready

step : next_status client 6 (machine Status.available available) ≡ some ready_machine
unfolding next_status next_available is_exist_replicant set_current_status get_last_true_condition
    set_condition
step = refl

next_status-Step_example : Step client 6 (machine Status.available available) ready_machine
next_status-Step_example =
    next_status-Step client 6 (machine Status.available available) ready_machine
      (synced Status.available available refl) step

next_status-IsSynced_example : IsSynced 7 ready_machine
next_status-IsSynced_example =
    next_status-IsSynced client 6 7 (machine Status.available available) ready_machine (omega arith)
      (synced Status.available available refl) step
