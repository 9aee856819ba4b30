-- ===== src/Controllers/StatusMachine/Frame.antt =====
-- The machine writes the conditions of the resource and nothing else of it.
use emqx_operator.Prelude.{ℕ, ◌≡◌, refl, List, some, Option-cases, inl, inr}
use emqx_operator.Kube.{Client, Condition}
use emqx_operator.Api.Types.{Emqx}
use emqx_operator.Api.Status.{get_last_true_condition, set_condition, remove_condition}
use emqx_operator.Controllers.StatusMachine.{
  EmqxStatusMachine, put, cleared, cleared_serving, core_progressing, replicant_progressing,
  next_status, new_emqx_status_machine, set_current_status,
}
use emqx_operator.Controllers.StatusMachine.Invariant.{IsSynced}
use emqx_operator.Controllers.StatusMachine.Diagram.{
  Move, start, await_cores, cores_up, start_replicants, serve_cores, await_replicants,
  replicants_up, forget_replicants, serve_replicants, await_update, settle, lose_cores,
  lose_replicants, rest,
}
use emqx_operator.Controllers.StatusMachine.Moves.{next_status-Move}

abbrev pub with_conditions : List Condition → Emqx → Emqx
with_conditions cs e = record e { status = record (e.status) { conditions = cs } }

-- The two resources differ at most in the conditions of their statuses.
abbrev pub SameButConditions : Emqx → Emqx → Type 0
SameButConditions e d = d ≡ with_conditions d.status.conditions e

put-Same : (now : ℕ) (c : Condition) (e : Emqx) → SameButConditions e (put now c e)
unfolding set_condition
put-Same now c e = refl

put-cleared-Same :
    (now : ℕ) (c : Condition) (e : Emqx) → SameButConditions e (put now c (cleared e))
unfolding set_condition remove_condition
put-cleared-Same now c e = refl

put-cleared_serving-Same :
    (now : ℕ) (c : Condition) (e : Emqx) → SameButConditions e (put now c (cleared_serving e))
unfolding set_condition remove_condition
put-cleared_serving-Same now c e = refl

Move-Same :
    {client : Client} {now : ℕ} {s s' : EmqxStatusMachine}
    → Move client now s s'
    → SameButConditions s.emqx s'.emqx
Move-Same {now = t} {s = s} (start _ e) = rw e (put-cleared-Same t core_progressing s.emqx)
Move-Same (await_cores _ _ e) = rw e
Move-Same {now = t} {s = s} (cores_up _ _ e) = rw e (put-Same t _ s.emqx)
Move-Same {now = t} {s = s} (start_replicants _ _ e) = rw e (put-Same t _ s.emqx)
Move-Same {now = t} {s = s} (serve_cores _ _ e) = rw e (put-Same t _ s.emqx)
Move-Same (await_replicants _ _ _ e) = rw e
Move-Same {now = t} {s = s} (replicants_up _ _ _ e) = rw e (put-Same t _ s.emqx)
Move-Same {now = t} {s = s} (forget_replicants _ _ e) =
    rw e (put-cleared-Same t core_progressing s.emqx)
Move-Same {now = t} {s = s} (serve_replicants _ _ e) = rw e (put-Same t _ s.emqx)
Move-Same (await_update _ _ e) = rw e
Move-Same {now = t} {s = s} (settle _ _ _ e) = rw e (put-Same t _ s.emqx)
Move-Same {now = t} {s = s} (lose_cores _ _ e) = rw e (put-cleared-Same t core_progressing s.emqx)
Move-Same {now = t} {s = s} (lose_replicants _ _ _ e) =
    rw e (put-cleared_serving-Same t replicant_progressing s.emqx)
Move-Same (rest _ _ _ e) = rw e

-- NextStatus changes nothing of the resource but its conditions.
pub next_status-Same :
    (client : Client) (now : ℕ) (s s' : EmqxStatusMachine)
    → IsSynced now s
    → next_status client now s ≡ some s'
    → SameButConditions s.emqx s'.emqx
next_status-Same client now s s' v h = Move-Same (next_status-Move client now s s' v h)

pub new_emqx_status_machine-Same :
    (now : ℕ) (e : Emqx) → SameButConditions e (new_emqx_status_machine now e).emqx
unfolding new_emqx_status_machine set_current_status
new_emqx_status_machine-Same now e = elim (Option-cases (get_last_true_condition e.status)) [
  | inl none_true ↦ rw (none_true, set_current_status) (put-Same now _ e)
  | inr (c, found) ↦ rw (found, set_current_status)
]
