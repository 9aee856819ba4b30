-- ===== src/Controllers/StatusMachine/Invariant.antt =====
-- The machine agrees with the conditions that it stores.
use emqx_operator.Prelude.{ℕ, ◌<◌, String, ◌≡◌, refl, ap, some, arith, inl, inr, Option-cases}
use emqx_operator.Kube.{Condition}
use emqx_operator.Api.Types.{Emqx}
use emqx_operator.Api.Status.{get_last_true_condition}
use emqx_operator.Api.Status.Conditions.{IsLog, IsLog-mono, set_condition-IsLog}
use emqx_operator.Api.Status.Queries.{get_last_true_condition-set_condition}
use emqx_operator.Controllers.StatusMachine.{
  Stage, EmqxStatusMachine, stage_of, condition, put, set_current_status, new_emqx_status_machine,
}

-- The conditions are in order at the clock reading `now`, and the current status is the one that
-- the last true condition names.
pub record IsSynced (now : ℕ) (s : EmqxStatusMachine) : Type 0 where
  pub log : IsLog now s.emqx.status.conditions
  pub last : Condition
  pub found : get_last_true_condition s.emqx.status ≡ some last
  pub tracked : stage_of last.type ≡ s.current_status

abbrev pub at : Emqx → Stage → EmqxStatusMachine
at e stage = record { emqx = e; current_status = stage }

-- What the machine becomes when it has written a true condition.
pub set_current_status-put :
    (now : ℕ) (type reason message : String) (e : Emqx)
    → IsLog now e.status.conditions
    → set_current_status now (put now (condition type reason message) e)
      ≡ at (put now (condition type reason message) e) (stage_of type)
unfolding set_current_status
set_current_status-put now type reason message e log = rw (
  get_last_true_condition-set_condition now (condition type reason message) e.status log refl,
  set_current_status,
)

pub put-IsSynced :
    {now later : ℕ} (type reason message : String) (e : Emqx)
    → now < later
    → IsLog now e.status.conditions
    → IsSynced later (at (put now (condition type reason message) e) (stage_of type))
put-IsSynced {now} {later} type reason message e h log = record {
  log = set_condition-IsLog now later (condition type reason message) e.status h log;
  last = record (condition type reason message) { last_transition_time = now };
  found =
      get_last_true_condition-set_condition now (condition type reason message) e.status log refl;
  tracked = refl;
}

-- With its status in step with the conditions, looking the status up changes nothing.
pub set_current_status_of_IsSynced :
    (now : ℕ) (s : EmqxStatusMachine) → IsSynced now s → set_current_status now s.emqx ≡ s
unfolding set_current_status
set_current_status_of_IsSynced now s v = rw (v.found, set_current_status) (ap (at s.emqx) v.tracked)

-- A new machine is in step with the conditions that it finds, which it starts with Initialized
-- where none is true.
pub new_emqx_status_machine-IsSynced :
    (now later : ℕ) (e : Emqx)
    → now < later
    → IsLog now e.status.conditions
    → IsSynced later (new_emqx_status_machine now e)
unfolding new_emqx_status_machine set_current_status
new_emqx_status_machine-IsSynced now later e h log =
    elim (Option-cases (get_last_true_condition e.status)) [
      | inl none_true ↦ rw (none_true, set_current_status) (put-IsSynced _ _ _ e h log)
      | inr (c, found) ↦
          rw (found, set_current_status)
            (record { log = IsLog-mono (omega arith) log; last = c; found = found; tracked = refl })
    ]
