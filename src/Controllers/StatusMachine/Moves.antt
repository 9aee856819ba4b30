-- ===== src/Controllers/StatusMachine/Moves.antt =====
-- NextStatus against the diagram of the status machine.
use emqx_operator.Prelude.{
  ℕ, ◌<◌, String, ◌≡◌, refl, Bool, true, false, Option, none, some, arith, inl, inr, subst,
}
use emqx_operator.Kube.{Client}
use emqx_operator.Api.Types.{Emqx}
use emqx_operator.Api.Status
use emqx_operator.Api.Status.Conditions.{IsLog, IsLog-mono, remove_condition-IsLog}
use emqx_operator.Api.Labels.{is_exist_replicant}
use emqx_operator.Controllers.StatusMachine.{
  Stage, EmqxStatusMachine, stage_of, condition, put, drop_condition, set_current_status, cleared,
  cleared_serving, is_updating, next_initialized, next_core_nodes_progressing,
  next_core_nodes_ready, next_replicant_nodes_progressing, next_replicant_nodes_ready,
  next_available, next_ready, next_status, dispatch, initialized, core_nodes_progressing,
  core_nodes_ready, replicant_nodes_progressing, replicant_nodes_ready, available, ready,
}
use emqx_operator.Controllers.StatusMachine.Invariant.{
  IsSynced, at, set_current_status-put, put-IsSynced, set_current_status_of_IsSynced,
}
use emqx_operator.Controllers.StatusMachine.Diagram.{
  restarted, cores_ready, replicants_ready, replicants_updating, cores_lost, replicants_lost, Move,
  start, await_cores, cores_up, start_replicants, serve_cores, await_replicants, replicants_up,
  forget_replicants, serve_replicants, await_update, settle, lose_cores, lose_replicants, rest,
}

drop_condition-IsLog :
    (now : ℕ) (type : String) (e : Emqx)
    → IsLog now e.status.conditions
    → IsLog now (drop_condition type e).status.conditions
drop_condition-IsLog now type e log = remove_condition-IsLog now type e.status log

ruleset removals = (drop_condition-IsLog)

pub cleared-IsLog :
    (now : ℕ) (e : Emqx) → IsLog now e.status.conditions → IsLog now (cleared e).status.conditions
cleared-IsLog now e log = search removals depth 8

pub cleared_serving-IsLog :
    (now : ℕ) (e : Emqx)
    → IsLog now e.status.conditions
    → IsLog now (cleared_serving e).status.conditions
cleared_serving-IsLog now e log = search removals depth 8

some-eq : {a b : EmqxStatusMachine} → some a ≡ some b → a ≡ b
some-eq h = cc

module _ (client : Client) (now : ℕ) (s : EmqxStatusMachine) (v : IsSynced now s) where
  next_initialized-eq : next_initialized now s.emqx ≡ restarted now s.emqx
  unfolding next_initialized
  next_initialized-eq =
      set_current_status-put now _ _ _ (cleared s.emqx) (cleared-IsLog now s.emqx v.log)

  stays : set_current_status now s.emqx ≡ s
  stays = set_current_status_of_IsSynced now s v

  writes :
      (type reason message : String)
      → set_current_status now (put now (condition type reason message) s.emqx)
        ≡ at (put now (condition type reason message) s.emqx) (stage_of type)
  writes type reason message = set_current_status-put now type reason message s.emqx v.log

  core_nodes_progressing-Move :
      {s' : EmqxStatusMachine} (r : Option Bool)
      → cores_ready client s.emqx ≡ r
      → s.current_status ≡ core_nodes_progressing
      → next_core_nodes_progressing client now s.emqx ≡ some s'
      → Move client now s s'
  unfolding next_core_nodes_progressing
  core_nodes_progressing-Move none r e h = absurd (ground arith)
  core_nodes_progressing-Move (some true) r e h =
      cores_up e r
        (ground (arith, writes Status.core_nodes_ready "CoreNodesReady" "Core nodes is ready"))
  core_nodes_progressing-Move (some false) r e h = await_cores e r (ground (arith, stays))

  core_nodes_ready-Move :
      (b : Bool)
      → is_exist_replicant s.emqx ≡ b
      → s.current_status ≡ core_nodes_ready
      → Move client now s (next_core_nodes_ready now s.emqx)
  unfolding next_core_nodes_ready
  core_nodes_ready-Move true r e = start_replicants e r (rw r (writes _ _ _))
  core_nodes_ready-Move false r e = serve_cores e r (rw r (writes _ _ _))

  replicant_nodes_progressing-Move :
      {s' : EmqxStatusMachine} (b : Bool) (r : Option Bool)
      → is_exist_replicant s.emqx ≡ b
      → replicants_ready client s.emqx ≡ r
      → s.current_status ≡ replicant_nodes_progressing
      → next_replicant_nodes_progressing client now s.emqx ≡ some s'
      → Move client now s s'
  unfolding next_replicant_nodes_progressing
  replicant_nodes_progressing-Move false r x y e h =
      forget_replicants (inl e) x (ground (arith, next_initialized-eq))
  replicant_nodes_progressing-Move true none x y e h = absurd (ground arith)
  replicant_nodes_progressing-Move true (some true) x y e h = replicants_up e x y (
      ground (
        arith,
        writes Status.replicant_nodes_ready Status.replicant_nodes_ready "Replicant nodes ready",
      ))
  replicant_nodes_progressing-Move true (some false) x y e h =
      await_replicants e x y (ground (arith, stays))

  replicant_nodes_ready-Move :
      (b : Bool)
      → is_exist_replicant s.emqx ≡ b
      → s.current_status ≡ replicant_nodes_ready
      → Move client now s (next_replicant_nodes_ready now s.emqx)
  unfolding next_replicant_nodes_ready
  replicant_nodes_ready-Move true r e = serve_replicants e r (rw r (writes _ _ _))
  replicant_nodes_ready-Move false r e = forget_replicants (inr e) r (rw r next_initialized-eq)

  available-Move :
      (b c : Bool)
      → is_updating s.emqx.status.core_nodes_status ≡ b
      → replicants_updating s.emqx ≡ c
      → s.current_status ≡ available
      → Move client now s (next_available now s)
  unfolding next_available
  available-Move true c x y e = await_update e (inl x) (rw x)
  available-Move false true x y e = await_update e (inr y) (rw (x, y))
  available-Move false false x y e = settle e x y (rw (x, y) (writes _ _ _))

  ready-Move :
      (b c : Bool)
      → cores_lost client s.emqx ≡ b
      → replicants_lost client s.emqx ≡ c
      → s.current_status ≡ ready
      → Move client now s (next_ready client now s)
  unfolding next_ready
  ready-Move true c x y e = lose_cores e x (rw x next_initialized-eq)
  ready-Move false true x y e = lose_replicants e x y (
      rw (x, y)
        (set_current_status-put now _ _ _ (cleared_serving s.emqx)
          (cleared_serving-IsLog now s.emqx v.log)))
  ready-Move false false x y e = rest e x y (rw (x, y))

  dispatch-Move :
      {s' : EmqxStatusMachine} (stage : Stage)
      → s.current_status ≡ stage
      → dispatch stage client now s ≡ some s'
      → Move client now s s'
  unfolding dispatch
  dispatch-Move initialized e h = start e (ground (arith, next_initialized-eq))
  dispatch-Move core_nodes_progressing e h = core_nodes_progressing-Move _ refl e h
  dispatch-Move core_nodes_ready e h =
      subst (Move client now s) (some-eq h) (core_nodes_ready-Move _ refl e)
  dispatch-Move replicant_nodes_progressing e h = replicant_nodes_progressing-Move _ _ refl refl e h
  dispatch-Move replicant_nodes_ready e h =
      subst (Move client now s) (some-eq h) (replicant_nodes_ready-Move _ refl e)
  dispatch-Move available e h =
      subst (Move client now s) (some-eq h) (available-Move _ _ refl refl e)
  dispatch-Move ready e h = subst (Move client now s) (some-eq h) (ready-Move _ _ refl refl e)

-- With the machine in step with its conditions, NextStatus takes an arrow of the diagram out of
-- the current status, under the arrow's test and with the arrow's effect, and does nothing else.
pub next_status-Move :
    (client : Client) (now : ℕ) (s s' : EmqxStatusMachine)
    → IsSynced now s
    → next_status client now s ≡ some s'
    → Move client now s s'
unfolding next_status
next_status-Move client now s s' v h = dispatch-Move client now s v s.current_status refl h

restarted-IsSynced :
    {now later : ℕ} (e : Emqx)
    → now < later
    → IsLog now e.status.conditions
    → IsSynced later (restarted now e)
restarted-IsSynced {now} e h log = put-IsSynced _ _ _ (cleared e) h (cleared-IsLog now e log)

IsSynced-mono :
    {now later : ℕ} {s : EmqxStatusMachine} → now < later → IsSynced now s → IsSynced later s
IsSynced-mono h v = record {
  log = IsLog-mono (omega arith) v.log;
  last = v.last;
  found = v.found;
  tracked = v.tracked;
}

-- Every arrow keeps the machine in step with its conditions, and the conditions in order, for any
-- later reading of the clock.
pub Move-IsSynced :
    {client : Client} {now later : ℕ} {s s' : EmqxStatusMachine}
    → now < later
    → IsSynced now s
    → Move client now s s'
    → IsSynced later s'
Move-IsSynced t v (start _ e) = rw e (restarted-IsSynced _ t v.log)
Move-IsSynced t v (await_cores _ _ e) = rw e (IsSynced-mono t v)
Move-IsSynced t v (cores_up _ _ e) = rw e (put-IsSynced _ _ _ _ t v.log)
Move-IsSynced t v (start_replicants _ _ e) = rw e (put-IsSynced _ _ _ _ t v.log)
Move-IsSynced t v (serve_cores _ _ e) = rw e (put-IsSynced _ _ _ _ t v.log)
Move-IsSynced t v (await_replicants _ _ _ e) = rw e (IsSynced-mono t v)
Move-IsSynced t v (replicants_up _ _ _ e) = rw e (put-IsSynced _ _ _ _ t v.log)
Move-IsSynced t v (forget_replicants _ _ e) = rw e (restarted-IsSynced _ t v.log)
Move-IsSynced t v (serve_replicants _ _ e) = rw e (put-IsSynced _ _ _ _ t v.log)
Move-IsSynced t v (await_update _ _ e) = rw e (IsSynced-mono t v)
Move-IsSynced t v (settle _ _ _ e) = rw e (put-IsSynced _ _ _ _ t v.log)
Move-IsSynced t v (lose_cores _ _ e) = rw e (restarted-IsSynced _ t v.log)
Move-IsSynced {s = s} t v (lose_replicants _ _ _ e) =
    rw e (put-IsSynced _ _ _ _ t (cleared_serving-IsLog _ s.emqx v.log))
Move-IsSynced t v (rest _ _ _ e) = rw e (IsSynced-mono t v)

-- NextStatus keeps the machine in step with its conditions.
pub next_status-IsSynced :
    (client : Client) (now later : ℕ) (s s' : EmqxStatusMachine)
    → now < later
    → IsSynced now s
    → next_status client now s ≡ some s'
    → IsSynced later s'
next_status-IsSynced client now later s s' t v h =
    Move-IsSynced t v (next_status-Move client now s s' v h)
