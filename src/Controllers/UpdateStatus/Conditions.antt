-- ===== src/Controllers/UpdateStatus/Conditions.antt =====
-- A reconciliation of the status keeps the conditions in order.
use emqx_operator.Prelude.{
  ℕ, ◌<◌, ◌≡◌, refl, Bool, true, false, Option, none, some, arith, some-eq, subst, ◌>>=◌,
}
use emqx_operator.Errors.{Error}
use emqx_operator.Http.{Requester, Decoder}
use emqx_operator.Kube.{Client, Workload}
use emqx_operator.Api.Types.{Emqx}
use emqx_operator.Api.Status.Conditions.{IsLog, IsLog-mono}
use emqx_operator.Controllers.Sets.{Sets, get_stateful_set_list, get_replica_set_list}
use emqx_operator.Controllers.Nodes.{get_emqx_nodes}
use emqx_operator.Controllers.StatusMachine.{
  EmqxStatusMachine, new_emqx_status_machine, next_status,
}
use emqx_operator.Controllers.StatusMachine.Invariant.{new_emqx_status_machine-IsSynced}
use emqx_operator.Controllers.StatusMachine.Moves.{next_status-IsSynced}
use emqx_operator.Controllers.UpdateStatus.{
  Outcome, prepare, pick_current, proceed, refresh, reconcile, outcome, finish, evacuate_and_finish,
  record_nodes, nodes_or_nil, record_evacuations,
}

prepare-conditions :
    (e : Emqx) {e1 : Emqx} → prepare e ≡ some e1 → e1.status.conditions ≡ e.status.conditions
unfolding prepare
prepare-conditions e h = ground arith

record_evacuations-IsLog :
    {t : ℕ} (b : Bool) (r : Requester) (d : Decoder) (e : Emqx)
    → IsLog t e.status.conditions
    → IsLog t (record_evacuations b r d e).status.conditions
record_evacuations-IsLog true r d e log = log
record_evacuations-IsLog false r d e log = log

module _ (client : Client) (d : Decoder) (now later after : ℕ) (update_error : Option Error)
    (first : now < later) (second : later < after) where
  kept :
      {p o : Outcome}
      → IsLog now p.emqx.status.conditions
      → some p ≡ some o
      → IsLog after o.emqx.status.conditions
  kept {p} log h =
      subst (λ (q : Outcome). IsLog after q.emqx.status.conditions) (some-eq h)
        (IsLog-mono (omega arith) log)

  finish-IsLog :
      (e : Emqx) {o : Outcome}
      → IsLog now e.status.conditions
      → finish client now later update_error e ≡ some o
      → IsLog after o.emqx.status.conditions
  unfolding finish
  finish-IsLog e {o} log h =
      by_machine (next_status client later (new_emqx_status_machine now e)) refl h
    where
      by_machine :
          (m : Option EmqxStatusMachine)
          → next_status client later (new_emqx_status_machine now e) ≡ m
          → outcome update_error m ≡ some o
          → IsLog after o.emqx.status.conditions
      by_machine none moved k = absurd (ground arith)
      by_machine (some m) moved k =
          subst (λ (q : Outcome). IsLog after q.emqx.status.conditions) (some-eq k)
            (next_status-IsSynced client later after _ m second
              (new_emqx_status_machine-IsSynced now later e first log) moved).log

  evacuate_and_finish-IsLog :
      (r : Requester) (e : Emqx) (b : Option Bool) {o : Outcome}
      → IsLog now e.status.conditions
      → evacuate_and_finish client d now later update_error r e b ≡ some o
      → IsLog after o.emqx.status.conditions
  evacuate_and_finish-IsLog r e none log h = absurd (ground arith)
  evacuate_and_finish-IsLog r e (some b) log h =
      finish-IsLog (record_evacuations b r d e) (record_evacuations-IsLog b r d e log) h

  refresh-IsLog :
      (r : Requester) (sts rs : Sets) (e : Emqx) {o : Outcome}
      → IsLog now e.status.conditions
      → refresh client d now later update_error r sts rs e ≡ some o
      → IsLog after o.emqx.status.conditions
  unfolding refresh
  refresh-IsLog r sts rs e log h =
      evacuate_and_finish-IsLog r
        (record_nodes sts rs (nodes_or_nil (get_emqx_nodes client r d e)) e) _ log h

  proceed-IsLog :
      (sts rs : Sets) (e : Emqx) (sts_pick rs_pick : Option Workload) (r : Option Requester)
      {o : Outcome}
      → IsLog now e.status.conditions
      → proceed client d now later update_error sts rs e sts_pick rs_pick r ≡ some o
      → IsLog after o.emqx.status.conditions
  unfolding proceed
  proceed-IsLog sts rs e (some w) rs_pick r log h = kept log h
  proceed-IsLog sts rs e none (some w) r log h = kept log h
  proceed-IsLog sts rs e none none none log h = kept log h
  proceed-IsLog sts rs e none none (some req) log h = refresh-IsLog req sts rs e log h

-- updateStatus.reconcile keeps the conditions one to a type and the latest first, on every path
-- that does not panic.
pub reconcile-IsLog :
    (client : Client) (d : Decoder) (now later after : ℕ) (update_error : Option Error)
    (r : Option Requester) (e : Emqx) (o : Outcome)
    → now < later
    → later < after
    → IsLog now e.status.conditions
    → reconcile client d now later update_error r e ≡ some o
    → IsLog after o.emqx.status.conditions
unfolding reconcile
reconcile-IsLog client d now later after update_error r e o first second log h =
    by_prepared (prepare e) refl h
  where
    by_prepared :
        (m : Option Emqx)
        → prepare e ≡ m
        → (m >>= λ e1.
            let sts = get_stateful_set_list client e1 in
            let rs = get_replica_set_list client e1 in
            proceed client d now later update_error sts rs e1
              (pick_current sts)
              (pick_current rs)
              r)
          ≡ some o
        → IsLog after o.emqx.status.conditions
    by_prepared none prepared k = absurd (ground arith)
    by_prepared (some e1) prepared k =
        proceed-IsLog client d now later after update_error first second
          (get_stateful_set_list client e1) (get_replica_set_list client e1) e1
          (pick_current (get_stateful_set_list client e1))
          (pick_current (get_replica_set_list client e1)) r (rw (prepare-conditions e prepared) log)
          k
