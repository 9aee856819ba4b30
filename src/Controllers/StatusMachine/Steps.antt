-- ===== src/Controllers/StatusMachine/Steps.antt =====
-- NextStatus against a diagram whose tests and effects are written out.
use emqx_operator.Prelude.{
  ℕ, ◌≡◌, refl, ap, ◌∙◌, ◌⊎◌, inl, inr, String, Bool, true, false, ◌&&◌, Option, some, List, [],
  ◌∷◌, arith,
}
use emqx_operator.Kube.{Client, Workload}
use emqx_operator.Api.Types.{Emqx}
use emqx_operator.Api.Labels.{is_exist_replicant}
use emqx_operator.Controllers.Sets.{get_stateful_set_list, get_replica_set_list}
use emqx_operator.Controllers.StatusMachine.{
  Stage, EmqxStatusMachine, condition, replicant_replicas, next_status, initialized,
  core_nodes_progressing, core_nodes_ready, replicant_nodes_progressing, replicant_nodes_ready,
  available, ready, put,
}
use emqx_operator.Controllers.StatusMachine.Invariant.{IsSynced, at}
use emqx_operator.Controllers.StatusMachine.Effects.{rewritten, put-rewritten, drop_all}
use emqx_operator.Controllers.StatusMachine.Diagram.{
  Move, start, await_cores, cores_up, start_replicants, serve_cores, await_replicants,
  replicants_up, forget_replicants, serve_replicants, await_update, settle, lose_cores,
  lose_replicants, rest,
}
use emqx_operator.Controllers.StatusMachine.Moves.{next_status-Move}
use emqx_operator.Controllers.StatusMachine.Tests.{
  AreReady, IsSettled, AreKept, all_ready-AreReady, all_ready-not, is_updating-IsSettled,
  is_updating-not, has_lost-AreKept, has_lost-not,
}

-- All conditions but Initialized.
abbrev pub later_types : List String
later_types =
    "CoreNodesProgressing" ∷ "CoreNodesReady" ∷ "ReplicantNodesProgressing" ∷ "ReplicantNodesReady"
    ∷ "Available" ∷ "Ready" ∷ []

-- The condition that names a status, in front of the conditions that are of none of the types.
abbrev pub writes :
    ℕ → (type reason message : String) → List String → Emqx → Stage → EmqxStatusMachine
writes now type reason message gone e stage =
    at (rewritten now (condition type reason message) gone e) stage

module _ (client : Client) (now : ℕ) (s : EmqxStatusMachine) where
  abbrev core_set : Option Workload
  core_set = (get_stateful_set_list client s.emqx).update

  abbrev replicant_set : Option Workload
  replicant_set = (get_replica_set_list client s.emqx).update

  abbrev pub restarts : EmqxStatusMachine
  restarts =
      writes now "CoreNodesProgressing" "CoreNodesProgressing" "Core nodes progressing" later_types
        s.emqx core_nodes_progressing

  abbrev pub CoresReady : Type 0
  CoresReady = AreReady core_set s.emqx.spec.core_template.replicas

  abbrev pub ReplicantsReady : Type 0
  ReplicantsReady = AreReady replicant_set (replicant_replicas s.emqx)

  abbrev pub CoresKept : Type 0
  CoresKept = AreKept core_set s.emqx.status.core_nodes_status

  abbrev pub ReplicantsKept : Type 0
  ReplicantsKept = AreKept replicant_set s.emqx.status.replicant_nodes_status

  abbrev pub HasReplicants : Bool → Type 0
  HasReplicants b = is_exist_replicant s.emqx ≡ b

  -- What NextStatus does from each status.
  pub data Step (s' : EmqxStatusMachine) : Type 0 where
    starts : s.current_status ≡ initialized → s' ≡ restarts → Step s'
    cores_wait : s.current_status ≡ core_nodes_progressing → ¬ CoresReady → s' ≡ s → Step s'
    cores_come :
        s.current_status ≡ core_nodes_progressing
        → CoresReady
        → s'
          ≡ writes now "CoreNodesReady" "CoreNodesReady" "Core nodes is ready" [] s.emqx
              core_nodes_ready
        → Step s'
    replicants_start :
        s.current_status ≡ core_nodes_ready
        → HasReplicants true
        → s'
          ≡ writes now "ReplicantNodesProgressing" "ReplicantNodesProgressing"
              "Replicant nodes progressing" [] s.emqx replicant_nodes_progressing
        → Step s'
    cores_serve :
        s.current_status ≡ core_nodes_ready
        → HasReplicants false
        → s' ≡ writes now "Available" "Available" "Cluster is available" [] s.emqx available
        → Step s'
    replicants_wait :
        s.current_status ≡ replicant_nodes_progressing
        → HasReplicants true
        → ¬ ReplicantsReady
        → s' ≡ s
        → Step s'
    replicants_come :
        s.current_status ≡ replicant_nodes_progressing
        → HasReplicants true
        → ReplicantsReady
        → s'
          ≡ writes now "ReplicantNodesReady" "ReplicantNodesReady" "Replicant nodes ready" [] s.emqx
              replicant_nodes_ready
        → Step s'
    replicants_go :
        (s.current_status ≡ replicant_nodes_progressing)
          ⊎ (s.current_status ≡ replicant_nodes_ready)
        → HasReplicants false
        → s' ≡ restarts
        → Step s'
    replicants_serve :
        s.current_status ≡ replicant_nodes_ready
        → HasReplicants true
        → s' ≡ writes now "Available" "Available" "Cluster is available" [] s.emqx available
        → Step s'
    update_waits :
        s.current_status ≡ available
        → (¬ IsSettled s.emqx.status.core_nodes_status)
          ⊎ (HasReplicants true × ¬ IsSettled s.emqx.status.replicant_nodes_status)
        → s' ≡ s
        → Step s'
    settles :
        s.current_status ≡ available
        → IsSettled s.emqx.status.core_nodes_status
        → (HasReplicants true → IsSettled s.emqx.status.replicant_nodes_status)
        → s' ≡ writes now "Ready" "Ready" "Cluster is ready" [] s.emqx ready
        → Step s'
    loses_cores : s.current_status ≡ ready → ¬ CoresKept → s' ≡ restarts → Step s'
    loses_replicants :
        s.current_status ≡ ready
        → CoresKept
        → HasReplicants true
        → ¬ ReplicantsKept
        → s'
          ≡ writes now "ReplicantNodesProgressing" "ReplicantNodesProgressing"
              "Replicant nodes progressing"
              ("ReplicantNodesReady" ∷ "Available" ∷ "Ready" ∷ [])
              s.emqx
              replicant_nodes_progressing
        → Step s'
    rests :
        s.current_status ≡ ready
        → CoresKept
        → (HasReplicants true → ReplicantsKept)
        → s' ≡ s
        → Step s'

  module _ (v : IsSynced now s) where
    written :
        (type reason message : String) (gone : List String) (stage : Stage)
        → at (put now (condition type reason message) (drop_all gone s.emqx)) stage
          ≡ writes now type reason message gone s.emqx stage
    written type reason message gone stage =
        ap (λ e. at e stage) (put-rewritten now (condition type reason message) gone s.emqx v.log)

    both_false : (a b : Bool) → (a && b) ≡ false → a ≡ true → b ≡ false
    both_false a b h e = ground arith

    both_true : (a b : Bool) → (a && b) ≡ true → (a ≡ true) × (b ≡ true)
    both_true true b h = (refl, h)
    both_true false b h = absurd (ground arith)

    Move-Step : {s' : EmqxStatusMachine} → Move client now s s' → Step s'
    Move-Step (start a e) = starts a (e ∙ written _ _ _ later_types _)
    Move-Step (await_cores a b e) = cores_wait a (all_ready-not _ _ b) e
    Move-Step (cores_up a b e) =
        cores_come a (all_ready-AreReady core_set _ b) (e ∙ written _ _ _ [] _)
    Move-Step (start_replicants a b e) = replicants_start a b (e ∙ written _ _ _ [] _)
    Move-Step (serve_cores a b e) = cores_serve a b (e ∙ written _ _ _ [] _)
    Move-Step (await_replicants a b d e) = replicants_wait a b (all_ready-not _ _ d) e
    Move-Step (replicants_up a b d e) =
        replicants_come a b (all_ready-AreReady replicant_set _ d) (e ∙ written _ _ _ [] _)
    Move-Step (forget_replicants a b e) = replicants_go a b (e ∙ written _ _ _ later_types _)
    Move-Step (serve_replicants a b e) = replicants_serve a b (e ∙ written _ _ _ [] _)
    Move-Step (await_update a (inl b) e) = update_waits a (inl (is_updating-not _ b)) e
    Move-Step (await_update a (inr b) e) =
        let (exist, updating) = both_true _ _ b in
        update_waits a (inr (exist, is_updating-not _ updating)) e
    Move-Step (settle a b d e) =
        settles a (is_updating-IsSettled _ b)
          (λ exist. is_updating-IsSettled _ (both_false _ _ d exist)) (e ∙ written _ _ _ [] _)
    Move-Step (lose_cores a b e) =
        loses_cores a (has_lost-not _ _ b) (e ∙ written _ _ _ later_types _)
    Move-Step (lose_replicants a b d e) =
        let (exist, lost) = both_true _ _ d in
        loses_replicants a (has_lost-AreKept core_set _ b) exist (has_lost-not _ _ lost)
          (e ∙ written _ _ _ ("ReplicantNodesReady" ∷ "Available" ∷ "Ready" ∷ []) _)
    Move-Step (rest a b d e) =
        rests a (has_lost-AreKept core_set _ b)
          (λ exist. has_lost-AreKept replicant_set _ (both_false _ _ d exist)) e

-- With the machine in step with its conditions, NextStatus takes a step of the diagram out of the
-- current status. The step's test is on the sets of the update revision, the wanted numbers and the
-- status of the nodes; it leaves the machine as it is, or goes to the status that the new condition
-- names, which stands in front of the old ones: all but that of its type and, on a return to
-- CoreNodesProgressing or ReplicantNodesProgressing, those of the statuses that are lost.
pub next_status-Step :
    (client : Client) (now : ℕ) (s s' : EmqxStatusMachine)
    → IsSynced now s
    → next_status client now s ≡ some s'
    → Step client now s s'
next_status-Step client now s s' v h =
    Move-Step client now s v (next_status-Move client now s s' v h)
