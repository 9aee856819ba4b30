-- ===== src/Controllers/Rebalance/Handler.antt =====
-- The handler against the phases of a rebalance.
use emqx_operator.Prelude.{
  ℕ, String, ◌≡◌, refl, sym, ap, ◌∙◌, Option, none, some, List, [], ◌∷◌, arith, some-eq,
}
use emqx_operator.Errors.{Error, Result, ok, err}
use emqx_operator.Api.Rebalance.{
  RebalancePhase, RebalanceStatus, RebalanceState, no_phase, processing, completed, failed,
  other_phase, set_failed, set_completed, set_processing, set_condition,
}
use emqx_operator.Controllers.Rebalance.{
  handle_start, handle_processing, handle_phase, rebalance_status_handler,
}

-- The phases of a rebalance: the arrows, and the answers under which each is taken.
pub data PhaseStep (start : Option (Result (Unit {0})))
    (states : Option (Result (List RebalanceState)))
    : RebalancePhase → RebalancePhase → Type 0 where
  starts : start ≡ some (ok tt) → PhaseStep start states no_phase processing
  start_fails : {e : Error} → start ≡ some (err e) → PhaseStep start states no_phase failed
  runs :
      {x : RebalanceState} {xs : List RebalanceState}
      → states ≡ some (ok (x ∷ xs))
      → PhaseStep start states processing processing
  ends : states ≡ some (ok []) → PhaseStep start states processing completed
  run_fails : {e : Error} → states ≡ some (err e) → PhaseStep start states processing failed
  stays_completed : PhaseStep start states completed completed
  stays_failed : PhaseStep start states failed failed

module _ (text : Error → String) (now : ℕ) where
  handle_start-ok :
      (s : RebalanceStatus)
      → s.phase ≡ no_phase
      → (handle_start text now (ok tt) s).phase ≡ processing
  unfolding handle_start set_processing set_condition
  handle_start-ok s p = ground arith

  handle_start-err :
      (e : Error) (s : RebalanceStatus) → (handle_start text now (err e) s).phase ≡ failed
  unfolding handle_start set_processing set_failed set_condition
  handle_start-err e s = refl

  handle_processing-err :
      (e : Error) (s : RebalanceStatus) → (handle_processing text now (err e) s).phase ≡ failed
  unfolding handle_processing set_processing set_failed set_completed set_condition
  handle_processing-err e s = refl

  handle_processing-nil :
      (s : RebalanceStatus)
      → s.phase ≡ processing
      → (handle_processing text now (ok []) s).phase ≡ completed
  unfolding handle_processing set_processing set_failed set_completed set_condition
  handle_processing-nil s p = ground arith

  handle_processing-cons :
      (x : RebalanceState) (xs : List RebalanceState) (s : RebalanceStatus)
      → s.phase ≡ processing
      → (handle_processing text now (ok (x ∷ xs)) s).phase ≡ processing
  unfolding handle_processing set_processing set_failed set_completed set_condition
  handle_processing-cons x xs s p = ground arith

abbrev phase_of : {s s' : RebalanceStatus} → some s ≡ some s' → s.phase ≡ s'.phase
phase_of h = ap (λ (s : RebalanceStatus). s.phase) (some-eq h)

module _ (text : Error → String) (now : ℕ) (s : RebalanceStatus) {s' : RebalanceStatus} where
  handle_phase-PhaseStep :
      (start : Option (Result (Unit {0}))) (states : Option (Result (List RebalanceState)))
      (p : RebalancePhase)
      → s.phase ≡ p
      → handle_phase text p now start states s ≡ some s'
      → PhaseStep start states p s'.phase
  unfolding handle_phase
  handle_phase-PhaseStep none states no_phase e h = absurd (ground arith)
  handle_phase-PhaseStep (some (ok tt)) states no_phase e h =
      rw (sym (phase_of h) ∙ handle_start-ok text now s e) (starts refl)
  handle_phase-PhaseStep (some (err x)) states no_phase e h =
      rw (sym (phase_of h) ∙ handle_start-err text now x s) (start_fails refl)
  handle_phase-PhaseStep start none processing e h = absurd (ground arith)
  handle_phase-PhaseStep start (some (err x)) processing e h =
      rw (sym (phase_of h) ∙ handle_processing-err text now x s) (run_fails refl)
  handle_phase-PhaseStep start (some (ok [])) processing e h =
      rw (sym (phase_of h) ∙ handle_processing-nil text now s e) (ends refl)
  handle_phase-PhaseStep start (some (ok (x ∷ xs))) processing e h =
      rw (sym (phase_of h) ∙ handle_processing-cons text now x xs s e) (runs refl)
  handle_phase-PhaseStep start states completed e h = rw (sym (phase_of h) ∙ e) stays_completed
  handle_phase-PhaseStep start states failed e h = rw (sym (phase_of h) ∙ e) stays_failed
  handle_phase-PhaseStep start states (other_phase p) e h = absurd (ground arith)

-- The handler takes an arrow of the diagram of phases, under the arrow's answer: an error ends the
-- rebalance as Failed and an empty list of states as Completed, though both branches go on to call
-- SetProcessing; Failed and Completed are final.
pub rebalance_status_handler-PhaseStep :
    (text : Error → String) (now : ℕ) (start : Option (Result (Unit {0})))
    (states : Option (Result (List RebalanceState))) (s s' : RebalanceStatus)
    → rebalance_status_handler text now start states s ≡ some s'
    → PhaseStep start states s.phase s'.phase
unfolding rebalance_status_handler
rebalance_status_handler-PhaseStep text now start states s s' h =
    handle_phase-PhaseStep text now s start states s.phase refl h
