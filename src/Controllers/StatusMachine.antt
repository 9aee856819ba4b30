-- ===== src/Controllers/StatusMachine.antt =====
-- controllers/apps/v2beta1/status_machine.go. The machine points to the EMQX resource and to one of
-- its seven statuses; a method that writes to either returns the new machine. `now` is the reading
-- of the clock in a call, and `none` is a panic.
pub mod Invariant
pub mod Effects
pub mod Diagram
pub mod Tests
pub mod Steps
pub mod Moves
pub mod Progress
pub mod Frame
use emqx_operator.Prelude.{
  ℕ, ℤ, pos, ◌==ℤ◌, String, str_eq, Bool, true, false, not, ◌&&◌, ◌||◌, Option, none, some, ◌>>=◌,
  if◌then◌else◌,
}
use emqx_operator.Kube.{Client, Condition, Workload, is_true}
use emqx_operator.Api.Types.{Emqx, EmqxStatus, EmqxNodesStatus}
use emqx_operator.Api.Status
use emqx_operator.Api.Status.{set_condition, remove_condition, get_last_true_condition}
use emqx_operator.Api.Labels.{is_exist_replicant}
use emqx_operator.Controllers.Sets.{get_stateful_set_list, get_replica_set_list}

pub data Stage : Type 0 where
  initialized core_nodes_progressing core_nodes_ready replicant_nodes_progressing : Stage
  replicant_nodes_ready available ready : Stage

pub record EmqxStatusMachine : Type 0 where
  pub emqx : Emqx
  pub current_status : Stage

abbrev pub stage_of : String → Stage
stage_of type =
    if str_eq type Status.core_nodes_progressing
    then core_nodes_progressing
    else if str_eq type Status.core_nodes_ready
    then core_nodes_ready
    else if str_eq type Status.replicant_nodes_progressing
    then replicant_nodes_progressing
    else if str_eq type Status.replicant_nodes_ready
    then replicant_nodes_ready
    else if str_eq type Status.available
    then available
    else if str_eq type Status.ready
    then ready
    else initialized

-- A condition of status True, as the code writes it; SetCondition stamps the time.
abbrev pub condition : String → String → String → Condition
condition type reason message = record {
  type = type;
  status = is_true;
  last_transition_time = 0;
  reason = reason;
  message = message;
}

abbrev pub put : ℕ → Condition → Emqx → Emqx
put now c emqx = record emqx { status = set_condition now c emqx.status }

abbrev pub drop_condition : String → Emqx → Emqx
drop_condition type emqx = record emqx { status = remove_condition type emqx.status }

unfoldable pub set_current_status : ℕ → Emqx → EmqxStatusMachine
set_current_status now emqx = elim (get_last_true_condition emqx.status) [
  | none ↦ record {
    emqx = put now (condition Status.initialized "Initialized" "initialized EMQX cluster") emqx;
    current_status = stage_of Status.initialized;
  }
  | some c ↦ record { emqx = emqx; current_status = stage_of c.type }
]

unfoldable pub new_emqx_status_machine : ℕ → Emqx → EmqxStatusMachine
unfolding set_current_status
new_emqx_status_machine now emqx = set_current_status now emqx

abbrev pub core_progressing : Condition
core_progressing =
    condition Status.core_nodes_progressing "CoreNodesProgressing" "Core nodes progressing"

-- The removals of initializedStatus.nextStatus, in its order.
abbrev pub cleared : Emqx → Emqx
cleared emqx =
    let e1 = drop_condition Status.available (drop_condition Status.ready emqx) in
    let e2 =
      drop_condition Status.replicant_nodes_progressing
        (drop_condition Status.replicant_nodes_ready e1) in
    drop_condition Status.core_nodes_progressing (drop_condition Status.core_nodes_ready e2)

-- initializedStatus.nextStatus
unfoldable pub next_initialized : ℕ → Emqx → EmqxStatusMachine
unfolding set_current_status
next_initialized now emqx = set_current_status now (put now core_progressing (cleared emqx))

-- `set != nil && set.Status.ReadyReplicas != 0 && set.Status.ReadyReplicas == *replicas`
abbrev pub all_ready : Option Workload → Option ℤ → Option Bool
all_ready none replicas = some false
all_ready (some w) replicas =
    if w.ready_replicas ==ℤ pos 0
    then some false
    else replicas >>= (λ n. some (w.ready_replicas ==ℤ n))

abbrev pub core_ready : Condition
core_ready = condition Status.core_nodes_ready "CoreNodesReady" "Core nodes is ready"

abbrev pub replicant_ready : Condition
replicant_ready =
    condition Status.replicant_nodes_ready Status.replicant_nodes_ready "Replicant nodes ready"

abbrev pub cluster_ready : Condition
cluster_ready = condition Status.ready Status.ready "Cluster is ready"

abbrev pub replicant_progressing : Condition
replicant_progressing =
    condition Status.replicant_nodes_progressing Status.replicant_nodes_progressing
      "Replicant nodes progressing"

abbrev pub cluster_available : Condition
cluster_available = condition Status.available Status.available "Cluster is available"

-- coreNodesProgressingStatus.nextStatus
unfoldable pub next_core_nodes_progressing : Client → ℕ → Emqx → Option EmqxStatusMachine
unfolding set_current_status
next_core_nodes_progressing client now emqx = do
  done ← all_ready (get_stateful_set_list client emqx).update emqx.spec.core_template.replicas
  some (set_current_status now (if done then put now core_ready emqx else emqx))

-- codeNodesReadyStatus.nextStatus
unfoldable pub next_core_nodes_ready : ℕ → Emqx → EmqxStatusMachine
unfolding set_current_status
next_core_nodes_ready now emqx = set_current_status now (
    if is_exist_replicant emqx
    then put now replicant_progressing emqx
    else put now cluster_available emqx)

abbrev pub replicant_replicas : Emqx → Option ℤ
replicant_replicas emqx = emqx.spec.replicant_template >>= (λ t. t.replicas)

-- replicantNodesProgressingStatus.nextStatus
unfoldable pub next_replicant_nodes_progressing : Client → ℕ → Emqx → Option EmqxStatusMachine
unfolding set_current_status next_initialized
next_replicant_nodes_progressing client now emqx =
    if not (is_exist_replicant emqx)
    then some (next_initialized now emqx)
    else (all_ready (get_replica_set_list client emqx).update (replicant_replicas emqx) >>= (λ done.
        some (set_current_status now (if done then put now replicant_ready emqx else emqx))))

-- replicantNodesReadyStatus.nextStatus
unfoldable pub next_replicant_nodes_ready : ℕ → Emqx → EmqxStatusMachine
unfolding set_current_status next_initialized
next_replicant_nodes_ready now emqx =
    if not (is_exist_replicant emqx)
    then next_initialized now emqx
    else set_current_status now (put now cluster_available emqx)

-- `ReadyReplicas != Replicas || UpdateRevision != CurrentRevision`
abbrev pub is_updating : EmqxNodesStatus → Bool
is_updating s =
    not (s.ready_replicas ==ℤ s.replicas) || not (str_eq s.update_revision s.current_revision)

-- availableStatus.nextStatus, whose early returns leave the machine as it is.
unfoldable pub next_available : ℕ → EmqxStatusMachine → EmqxStatusMachine
unfolding set_current_status
next_available now s =
    if is_updating s.emqx.status.core_nodes_status
    then s
    else if is_exist_replicant s.emqx && is_updating s.emqx.status.replicant_nodes_status
    then s
    else set_current_status now (put now cluster_ready s.emqx)

-- `set != nil && set.Status.ReadyReplicas != status.Replicas`
abbrev pub has_lost : Option Workload → EmqxNodesStatus → Bool
has_lost none status = false
has_lost (some w) status = not (w.ready_replicas ==ℤ status.replicas)

-- The removals of readyStatus.nextStatus.
abbrev pub cleared_serving : Emqx → Emqx
cleared_serving emqx =
    drop_condition Status.replicant_nodes_ready
      (drop_condition Status.available (drop_condition Status.ready emqx))

-- readyStatus.nextStatus
unfoldable pub next_ready : Client → ℕ → EmqxStatusMachine → EmqxStatusMachine
unfolding set_current_status next_initialized
next_ready client now s =
    if has_lost (get_stateful_set_list client s.emqx).update s.emqx.status.core_nodes_status
    then next_initialized now s.emqx
    else if is_exist_replicant s.emqx
        && has_lost (get_replica_set_list client s.emqx).update s.emqx.status.replicant_nodes_status
    then set_current_status now (put now replicant_progressing (cleared_serving s.emqx))
    else s

dispatch : Stage → Client → ℕ → EmqxStatusMachine → Option EmqxStatusMachine
unfolding next_initialized next_core_nodes_progressing next_core_nodes_ready
    next_replicant_nodes_progressing next_replicant_nodes_ready next_available next_ready
dispatch initialized client now s = some (next_initialized now s.emqx)
dispatch core_nodes_progressing client now s = next_core_nodes_progressing client now s.emqx
dispatch core_nodes_ready client now s = some (next_core_nodes_ready now s.emqx)
dispatch replicant_nodes_progressing client now s =
    next_replicant_nodes_progressing client now s.emqx
dispatch replicant_nodes_ready client now s = some (next_replicant_nodes_ready now s.emqx)
dispatch available client now s = some (next_available now s)
dispatch ready client now s = some (next_ready client now s)

-- NextStatus: the method of the current status.
unfoldable pub next_status : Client → ℕ → EmqxStatusMachine → Option EmqxStatusMachine
unfolding dispatch
next_status client now s = dispatch s.current_status client now s
