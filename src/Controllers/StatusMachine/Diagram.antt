-- ===== src/Controllers/StatusMachine/Diagram.antt =====
-- The diagram of the status machine.
use emqx_operator.Prelude.{ℕ, ◌≡◌, Bool, true, false, ◌&&◌, Option, some, ◌⊎◌}
use emqx_operator.Kube.{Client}
use emqx_operator.Api.Types.{Emqx}
use emqx_operator.Api.Labels.{is_exist_replicant}
use emqx_operator.Controllers.Sets.{get_stateful_set_list, get_replica_set_list}
use emqx_operator.Controllers.StatusMachine.{
  EmqxStatusMachine, put, cleared, cleared_serving, core_progressing, core_ready,
  replicant_progressing, replicant_ready, cluster_available, cluster_ready, all_ready,
  replicant_replicas, is_updating, has_lost, initialized, core_nodes_progressing, core_nodes_ready,
  replicant_nodes_progressing, replicant_nodes_ready, available, ready,
}
use emqx_operator.Controllers.StatusMachine.Invariant.{at}

abbrev pub restarted : ℕ → Emqx → EmqxStatusMachine
restarted now e = at (put now core_progressing (cleared e)) core_nodes_progressing

abbrev pub cores_ready : Client → Emqx → Option Bool
cores_ready client e =
    all_ready (get_stateful_set_list client e).update e.spec.core_template.replicas

abbrev pub replicants_ready : Client → Emqx → Option Bool
replicants_ready client e = all_ready (get_replica_set_list client e).update (replicant_replicas e)

abbrev pub replicants_updating : Emqx → Bool
replicants_updating e = is_exist_replicant e && is_updating e.status.replicant_nodes_status

abbrev pub cores_lost : Client → Emqx → Bool
cores_lost client e = has_lost (get_stateful_set_list client e).update e.status.core_nodes_status

abbrev pub replicants_lost : Client → Emqx → Bool
replicants_lost client e =
    is_exist_replicant e
    && has_lost (get_replica_set_list client e).update e.status.replicant_nodes_status

-- The diagram: the arrows out of each status, the test under which each is taken, and all that it
-- changes.
pub data Move (client : Client) (now : ℕ) (s s' : EmqxStatusMachine) : Type 0 where
  start : s.current_status ≡ initialized → s' ≡ restarted now s.emqx → Move client now s s'
  await_cores :
      s.current_status ≡ core_nodes_progressing
      → cores_ready client s.emqx ≡ some false
      → s' ≡ s
      → Move client now s s'
  cores_up :
      s.current_status ≡ core_nodes_progressing
      → cores_ready client s.emqx ≡ some true
      → s' ≡ at (put now core_ready s.emqx) core_nodes_ready
      → Move client now s s'
  start_replicants :
      s.current_status ≡ core_nodes_ready
      → is_exist_replicant s.emqx ≡ true
      → s' ≡ at (put now replicant_progressing s.emqx) replicant_nodes_progressing
      → Move client now s s'
  serve_cores :
      s.current_status ≡ core_nodes_ready
      → is_exist_replicant s.emqx ≡ false
      → s' ≡ at (put now cluster_available s.emqx) available
      → Move client now s s'
  await_replicants :
      s.current_status ≡ replicant_nodes_progressing
      → is_exist_replicant s.emqx ≡ true
      → replicants_ready client s.emqx ≡ some false
      → s' ≡ s
      → Move client now s s'
  replicants_up :
      s.current_status ≡ replicant_nodes_progressing
      → is_exist_replicant s.emqx ≡ true
      → replicants_ready client s.emqx ≡ some true
      → s' ≡ at (put now replicant_ready s.emqx) replicant_nodes_ready
      → Move client now s s'
  forget_replicants :
      (s.current_status ≡ replicant_nodes_progressing) ⊎ (s.current_status ≡ replicant_nodes_ready)
      → is_exist_replicant s.emqx ≡ false
      → s' ≡ restarted now s.emqx
      → Move client now s s'
  serve_replicants :
      s.current_status ≡ replicant_nodes_ready
      → is_exist_replicant s.emqx ≡ true
      → s' ≡ at (put now cluster_available s.emqx) available
      → Move client now s s'
  await_update :
      s.current_status ≡ available
      → (is_updating s.emqx.status.core_nodes_status ≡ true) ⊎ (replicants_updating s.emqx ≡ true)
      → s' ≡ s
      → Move client now s s'
  settle :
      s.current_status ≡ available
      → is_updating s.emqx.status.core_nodes_status ≡ false
      → replicants_updating s.emqx ≡ false
      → s' ≡ at (put now cluster_ready s.emqx) ready
      → Move client now s s'
  lose_cores :
      s.current_status ≡ ready
      → cores_lost client s.emqx ≡ true
      → s' ≡ restarted now s.emqx
      → Move client now s s'
  lose_replicants :
      s.current_status ≡ ready
      → cores_lost client s.emqx ≡ false
      → replicants_lost client s.emqx ≡ true
      → s' ≡ at (put now replicant_progressing (cleared_serving s.emqx)) replicant_nodes_progressing
      → Move client now s s'
  rest :
      s.current_status ≡ ready
      → cores_lost client s.emqx ≡ false
      → replicants_lost client s.emqx ≡ false
      → s' ≡ s
      → Move client now s s'
