-- ===== src/Controllers/Rebalance/Deletion.antt =====
-- The deletion of a Rebalance, in the phases that the handler leaves it in.
use emqx_operator.Prelude.{
  ℕ, String, ◌≡◌, sym, ap, subst, ◌∙◌, Option, none, some, List, [], ◌∷◌, arith, some-eq,
}
use emqx_operator.Errors.{Error, Result, ok}
use emqx_operator.Http.{Requester}
use emqx_operator.Api.Rebalance.{
  RebalanceStatus, RebalanceState, Rebalance, no_phase, processing, completed, set_failed,
  set_completed, set_processing, set_condition,
}
use emqx_operator.Controllers.Rebalance.{
  TargetEmqx, RebalanceDecoder, handle_start, handle_processing, handle_phase,
  rebalance_status_handler, stop_rebalance, rebalance_stop_url, send,
}
use emqx_operator.Controllers.Rebalance.Reconcile.{
  Finalizers, Cluster, Reply, update, delete_rebalance, without_finalizer, after_stop, done,
}

module _ (text : Error → String) (now : ℕ) where
  handle_start-started :
      (s : RebalanceStatus)
      → s.phase ≡ no_phase
      → ((handle_start text now (ok tt) s).phase ≡ processing)
        × ((handle_start text now (ok tt) s).rebalance_states ≡ s.rebalance_states)
  unfolding handle_start set_processing set_condition
  handle_start-started s p = ground arith

  handle_processing-running :
      (x : RebalanceState) (xs : List RebalanceState) (s : RebalanceStatus)
      → s.phase ≡ processing
      → ((handle_processing text now (ok (x ∷ xs)) s).phase ≡ processing)
        × ((handle_processing text now (ok (x ∷ xs)) s).rebalance_states ≡ x ∷ xs)
  unfolding handle_processing set_processing set_completed set_failed set_condition
  handle_processing-running x xs s p = ground arith

  handle_processing-ended :
      (s : RebalanceStatus)
      → s.phase ≡ processing
      → (handle_processing text now (ok []) s).phase ≡ completed
  unfolding handle_processing set_processing set_completed set_failed set_condition
  handle_processing-ended s p = ground arith

  handler_no_phase :
      (a : Result (Unit {0})) (states : Option (Result (List RebalanceState))) (s : RebalanceStatus)
      → s.phase ≡ no_phase
      → rebalance_status_handler text now (some a) states s ≡ some (handle_start text now a s)
  unfolding rebalance_status_handler handle_phase
  handler_no_phase a states s p = ap (λ p. handle_phase text p now (some a) states s) p

  handler_processing :
      (start : Option (Result (Unit {0}))) (a : Result (List RebalanceState)) (s : RebalanceStatus)
      → s.phase ≡ processing
      → rebalance_status_handler text now start (some a) s ≡ some (handle_processing text now a s)
  unfolding rebalance_status_handler handle_phase
  handler_processing start a s p = ap (λ p. handle_phase text p now start (some a) s) p

module _ (f : Finalizers) (d : RebalanceDecoder) (now : ℕ) (c : Cluster) (target : TargetEmqx)
    (req : Option Requester) (r : Rebalance) where
  abbrev pub delete_with : RebalanceStatus → Option Reply
  delete_with s = delete_rebalance f d now c target req (record r { status = s })

  delete_with_no_state :
      (s : RebalanceStatus) → s.phase ≡ processing → s.rebalance_states ≡ [] → delete_with s ≡ none
  unfolding delete_rebalance stop_rebalance
  delete_with_no_state s p e = ground arith

  delete_with_state :
      (s : RebalanceStatus) (x : RebalanceState) (xs : List RebalanceState)
      → s.phase ≡ processing
      → s.rebalance_states ≡ x ∷ xs
      → delete_with s
        ≡ after_stop f d now c
            (record r { status = s })
            (send d req [] (rebalance_stop_url target x.coordinator_node))
  unfolding delete_rebalance stop_rebalance rebalance_stop_url
  delete_with_state s x xs p e = grind (arith, p, e)

  delete_completed :
      (s : RebalanceStatus)
      → s.phase ≡ completed
      → delete_with s
        ≡ some (
            done f d now c
              (update (without_finalizer f d now c (record r { status = s })) ∷ [])
              c.update_error)
  unfolding delete_rebalance
  delete_completed s p = ground arith

  -- What a deletion does by the states that the API last reported.
  abbrev pub stop_or_remove : List RebalanceState → Rebalance → Option Reply
  stop_or_remove [] r =
      some (done f d now c (update (without_finalizer f d now c r) ∷ []) c.update_error)
  stop_or_remove (x ∷ xs) r =
      after_stop f d now c r (send d req [] (rebalance_stop_url target x.coordinator_node))

  handled-delete :
      (states : List RebalanceState) (s : RebalanceStatus)
      → s.phase ≡ processing
      → delete_with (handle_processing d.error_text now (ok states) s)
        ≡ stop_or_remove states
            (record r { status = handle_processing d.error_text now (ok states) s })
  handled-delete [] s p =
      delete_completed (handle_processing d.error_text now (ok []) s)
        (handle_processing-ended d.error_text now s p)
  handled-delete (x ∷ xs) s p =
      let running = handle_processing-running d.error_text now x xs s p in
      delete_with_state (handle_processing d.error_text now (ok (x ∷ xs)) s) x xs running.0
        running.1

  -- A Rebalance that the handler has just started has no states yet, and its deletion before the
  -- next run panics: stopRebalance reads the first state of an empty list.
  pub started-delete_rebalance :
      (states : Option (Result (List RebalanceState))) (s s' : RebalanceStatus)
      → s.phase ≡ no_phase
      → s.rebalance_states ≡ []
      → rebalance_status_handler d.error_text now (some (ok tt)) states s ≡ some s'
      → delete_with s' ≡ none
  started-delete_rebalance states s s' p e h =
      let eq = some-eq (sym (handler_no_phase d.error_text now (ok tt) states s p) ∙ h) in
      let started = handle_start-started d.error_text now s p in
      subst (λ s. delete_with s ≡ none) eq
        (delete_with_no_state (handle_start d.error_text now (ok tt) s) started.0 (started.1 ∙ e))

  -- After a run of the handler in the phase Processing, a deletion sends the stop to the coordinator
  -- of the first state that the API reported, and then removes the finalizer whatever the answer;
  -- where the API reported no state, the rebalance has ended and only the finalizer is removed.
  pub running-delete_rebalance :
      (start : Option (Result (Unit {0}))) (states : List RebalanceState) (s s' : RebalanceStatus)
      → s.phase ≡ processing
      → rebalance_status_handler d.error_text now start (some (ok states)) s ≡ some s'
      → delete_with s' ≡ stop_or_remove states (record r { status = s' })
  running-delete_rebalance start states s s' p h =
      subst (λ s. delete_with s ≡ stop_or_remove states (record r { status = s }))
        (some-eq (sym (handler_processing d.error_text now start (ok states) s p) ∙ h))
        (handled-delete states s p)
