-- ===== src/Controllers/AddSets/Reported.antt =====
-- The state in which updateEMQXStatus leaves the resource.
use emqx_operator.Prelude.{
  ℕ, ◌<◌, String, str_eq, false, ◌≡◌, refl, ap, ◌∙◌, some, List, if◌then◌else◌,
}
use emqx_operator.Kube.{Condition}
use emqx_operator.Kube.Pods.{SetKind, stateful_set, replica_set}
use emqx_operator.Api.Types.{Emqx, EmqxStatus}
use emqx_operator.Api.Status
use emqx_operator.Api.Status.{
  set_condition, remove_condition, get_last_true_condition, is_condition_true, last_true,
}
use emqx_operator.Api.Status.Conditions.{
  IsLog, erase, set_condition-IsLog, remove_condition-IsLog, set_condition-conditions,
  remove_condition-conditions,
}
use emqx_operator.Api.Status.Queries.{is_condition_true-remove_condition}
use emqx_operator.Controllers.StatusMachine.{
  stage_of, condition, new_emqx_status_machine, set_current_status,
}
use emqx_operator.Controllers.AddSets.{progressing, nodes_ready, nodes_status, update_emqx_status}

-- A roll-out of the kind of nodes is under way: the status machine starts in its Progressing status,
-- the resource is neither ready nor available, nor are the nodes, and the status names the hash.
pub record IsReported (later : ℕ) (kind : SetKind) (hash : String) (e : Emqx) : Type 0 where
  pub is_log : IsLog later e.status.conditions
  pub is_progressing :
      (new_emqx_status_machine later e).current_status ≡ stage_of (progressing kind)
  pub is_not_ready : is_condition_true e.status Status.ready ≡ false
  pub is_not_available : is_condition_true e.status Status.available ≡ false
  pub nodes_are_not_ready : is_condition_true e.status (nodes_ready kind) ≡ false
  pub has_revision : (nodes_status kind e).update_revision ≡ hash

abbrev cleared : String → EmqxStatus → EmqxStatus
cleared type s =
    remove_condition type (remove_condition Status.available (remove_condition Status.ready s))

cleared-IsLog :
    (now : ℕ) (type : String) (s : EmqxStatus)
    → IsLog now s.conditions
    → IsLog now (cleared type s).conditions
cleared-IsLog now type s log =
    remove_condition-IsLog now type _ (
      remove_condition-IsLog now Status.available _ (remove_condition-IsLog now Status.ready s log))

abbrev erased : String → List Condition → List Condition
erased type cs = erase type (erase Status.available (erase Status.ready cs))

cleared-conditions :
    (type : String) (s : EmqxStatus) → (cleared type s).conditions ≡ erased type s.conditions
cleared-conditions type s =
    remove_condition-conditions type _
    ∙ ap (erase type) (
        remove_condition-conditions Status.available _
        ∙ ap (erase Status.available) (remove_condition-conditions Status.ready s))

is_condition_true-cleared :
    (now : ℕ) (type other : String) (s : EmqxStatus)
    → IsLog now s.conditions
    → is_condition_true (cleared type s) other ≡ (
        if str_eq type other
        then false
        else if str_eq Status.available other
        then false
        else if str_eq Status.ready other
        then false
        else is_condition_true s other)
is_condition_true-cleared now type other s log =
    rw
      (
        is_condition_true-remove_condition now
            (remove_condition Status.available (remove_condition Status.ready s)) type other
            (remove_condition-IsLog now Status.available _
              (remove_condition-IsLog now Status.ready s log)),
        is_condition_true-remove_condition now (remove_condition Status.ready s) Status.available
            other (remove_condition-IsLog now Status.ready s log),
        is_condition_true-remove_condition now s Status.ready other log,
      )
      refl

module _ (now later : ℕ) (h : now < later) (s : EmqxStatus) (log : IsLog now s.conditions) where
  -- The condition that has just been set is the last true one, as none of the cleared types is its.
  last_true-cleared :
      (kind : SetKind) (reason message : String)
      → get_last_true_condition (
          cleared
            (nodes_ready kind)
            (set_condition now (condition (progressing kind) reason message) s))
        ≡ some (record (condition (progressing kind) reason message) { last_transition_time = now })
  unfolding get_last_true_condition last_true erase
  last_true-cleared stateful_set reason message = ap last_true (
      cleared-conditions Status.core_nodes_ready _
      ∙ ap (erased Status.core_nodes_ready) (
          set_condition-conditions now (condition Status.core_nodes_progressing reason message) s
            log))
  last_true-cleared replica_set reason message = ap last_true (
      cleared-conditions Status.replicant_nodes_ready _
      ∙ ap (erased Status.replicant_nodes_ready) (
          set_condition-conditions now (condition Status.replicant_nodes_progressing reason message)
            s log))

  set-IsLog :
      (kind : SetKind) (reason message : String)
      → IsLog later (set_condition now (condition (progressing kind) reason message) s).conditions
  set-IsLog kind reason message =
      set_condition-IsLog now later (condition (progressing kind) reason message) s h log

  set_cleared-IsLog :
      (kind : SetKind) (reason message : String)
      → IsLog later
          (cleared
            (nodes_ready kind)
            (set_condition now (condition (progressing kind) reason message) s)).conditions
  set_cleared-IsLog kind reason message =
      cleared-IsLog later (nodes_ready kind) _ (set-IsLog kind reason message)

  is_condition_true_after :
      (kind : SetKind) (reason message other : String)
      → is_condition_true
          (cleared
            (nodes_ready kind)
            (set_condition now (condition (progressing kind) reason message) s))
          other
        ≡ (if str_eq (nodes_ready kind) other
            then false
            else if str_eq Status.available other
            then false
            else if str_eq Status.ready other
            then false
            else is_condition_true
                (set_condition now (condition (progressing kind) reason message) s)
                other)
  is_condition_true_after kind reason message other =
      is_condition_true-cleared later (nodes_ready kind) other
        (set_condition now (condition (progressing kind) reason message) s)
        (set-IsLog kind reason message)

stage_of_last :
    (later : ℕ) (e : Emqx) (c : Condition)
    → get_last_true_condition e.status ≡ some c
    → (new_emqx_status_machine later e).current_status ≡ stage_of c.type
unfolding new_emqx_status_machine set_current_status
stage_of_last later e c found = rw (found, set_current_status) refl

-- updateEMQXStatus leaves a roll-out under way, on a resource whose conditions are in order.
pub update_emqx_status-IsReported :
    (now later : ℕ) (kind : SetKind) (reason message hash : String) (e : Emqx)
    → now < later
    → IsLog now e.status.conditions
    → IsReported later kind hash (update_emqx_status kind now reason message hash e)
unfolding update_emqx_status is_condition_true get_last_true_condition
update_emqx_status-IsReported now later stateful_set reason message hash e h log = record {
  is_log = set_cleared-IsLog now later h e.status log stateful_set reason message;
  is_progressing =
      stage_of_last later _ _
        (last_true-cleared now later h e.status log stateful_set reason message);
  is_not_ready =
      is_condition_true_after now later h e.status log stateful_set reason message Status.ready;
  is_not_available =
      is_condition_true_after now later h e.status log stateful_set reason message Status.available;
  nodes_are_not_ready =
      is_condition_true_after now later h e.status log stateful_set reason message
        Status.core_nodes_ready;
  has_revision = refl;
}
update_emqx_status-IsReported now later replica_set reason message hash e h log = record {
  is_log = set_cleared-IsLog now later h e.status log replica_set reason message;
  is_progressing =
      stage_of_last later _ _
        (last_true-cleared now later h e.status log replica_set reason message);
  is_not_ready =
      is_condition_true_after now later h e.status log replica_set reason message Status.ready;
  is_not_available =
      is_condition_true_after now later h e.status log replica_set reason message Status.available;
  nodes_are_not_ready =
      is_condition_true_after now later h e.status log replica_set reason message
        Status.replicant_nodes_ready;
  has_revision = refl;
}
