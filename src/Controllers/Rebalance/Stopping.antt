-- ===== src/Controllers/Rebalance/Stopping.antt =====
-- When Reconcile stops a rebalance.
use emqx_operator.Prelude.{
  ℕ, String, str_eq, Bool, true, false, not, ◌≡◌, refl, sym, ap, ◌∙◌, Option, none, some, List, [],
  ◌∷◌, ◌++◌, any, arith, some-eq, ◌>>=◌, if◌then◌else◌, if_lem,
}
use emqx_operator.Errors.{Error, Result, ok, err, is_not_found}
use emqx_operator.Http.{Requester}
use emqx_operator.Api.Types.{Emqx}
use emqx_operator.Api.Status
use emqx_operator.Api.Status.{is_condition_true}
use emqx_operator.Api.Rebalance.{
  Rebalance, RebalanceStatus, RebalancePhase, no_phase, processing, completed, failed, other_phase,
  is_phase_processing,
}
use emqx_operator.Controllers.Rebalance.{
  TargetEmqx, enterprise, emqx, RebalanceDecoder, rebalance_status_handler, stop_rebalance,
  start_rebalance, get_rebalance_status,
}
use emqx_operator.Controllers.Rebalance.Reconcile.{
  Finalizers, Cluster, Action, update, update_status, stop, Reply, EmqxEnterprise, done, is_deleted,
  target_not_found, after_stop, delete_rebalance, finish_phase, send_status, handle_rebalance,
  add_finalizer, without_finalizer, finalizer, run_rebalance, with_requester, reconcile_enterprise,
  check_edition, first_edition, reconcile_emqx, reconcile_kind, reconcile,
}

abbrev is_stop : Action → Bool
is_stop stop = true
is_stop _ = false

abbrev pub stops : Reply → Bool
stops reply = any is_stop reply.actions

stops-snoc :
    (actions : List Action) (x : Action)
    → any is_stop actions ≡ false
    → is_stop x ≡ false
    → any is_stop (actions ++ x ∷ []) ≡ false
stops-snoc [] x h q = rw q
stops-snoc (a ∷ actions) x h q = ground (arith, stops-snoc actions x)

phase_lem : (p : RebalancePhase) → is_phase_processing p ≡ true → p ≡ processing
phase_lem processing h = refl
phase_lem no_phase h = cc
phase_lem completed h = cc
phase_lem failed h = cc
phase_lem (other_phase p) h = cc

module _ (f : Finalizers) (d : RebalanceDecoder) (now : ℕ) (c : Cluster) where
  -- A run that panics, or does not stop the rebalance, or finds it deleted while it is processing.
  pub data StopsDeleted (r : Rebalance) : Option Reply → Type 0 where
    panics : StopsDeleted r none
    goes_on : {reply : Reply} → stops reply ≡ false → StopsDeleted r (some reply)
    ends :
        {reply : Reply}
        → is_deleted f d now c r ≡ true
        → r.status.phase ≡ processing
        → StopsDeleted r (some reply)

  delete_rebalance-StopsDeleted :
      (target : TargetEmqx) (req : Option Requester) (r : Rebalance)
      → is_deleted f d now c r ≡ true
      → StopsDeleted r (delete_rebalance f d now c target req r)
  unfolding delete_rebalance
  delete_rebalance-StopsDeleted target req r h =
      by_phase (is_phase_processing r.status.phase) (phase_lem r.status.phase)
        (stop_rebalance d target req r)
    where
      by_phase :
          (b : Bool)
          → (b ≡ true → r.status.phase ≡ processing)
          → (o : Option (Result (Unit {0})))
          → StopsDeleted r (
              if b
              then after_stop f d now c r o
              else some
                  (done f d now c (update (without_finalizer f d now c r) ∷ []) c.update_error))
      by_phase true p none = panics
      by_phase true p (some x) = ends h (p refl)
      by_phase false p o = goes_on refl

  finish_phase-StopsDeleted :
      (r : Rebalance) (p : RebalancePhase) (actions : List Action)
      → any is_stop actions ≡ false
      → StopsDeleted r (finish_phase f d now c p actions)
  finish_phase-StopsDeleted r failed actions h = goes_on h
  finish_phase-StopsDeleted r completed actions h = goes_on h
  finish_phase-StopsDeleted r processing actions h = goes_on h
  finish_phase-StopsDeleted r no_phase actions h = panics
  finish_phase-StopsDeleted r (other_phase p) actions h = panics

  send_status-StopsDeleted :
      (r s : Rebalance) (actions : List Action)
      → any is_stop actions ≡ false
      → StopsDeleted r (send_status f d now c actions s)
  send_status-StopsDeleted r s actions h = by_error c.update_status_error
    where
      sent : any is_stop (actions ++ update_status s ∷ []) ≡ false
      sent = stops-snoc actions (update_status s) h refl

      by_error :
          (o : Option Error)
          → StopsDeleted r (elim o [
            | some e ↦ some (done f d now c (actions ++ update_status s ∷ []) (some e))
            | none ↦ finish_phase f d now c s.status.phase (actions ++ update_status s ∷ [])
          ])
      by_error none =
          finish_phase-StopsDeleted r s.status.phase (actions ++ update_status s ∷ []) sent
      by_error (some e) = goes_on sent

  handle_rebalance-StopsDeleted :
      (r s : Rebalance) (target : TargetEmqx) (req : Option Requester) (actions : List Action)
      → any is_stop actions ≡ false
      → StopsDeleted r (handle_rebalance f d now c actions target req s)
  unfolding handle_rebalance
  handle_rebalance-StopsDeleted r s target req actions h = by_status (
      rebalance_status_handler d.error_text now (start_rebalance d target req s)
        (get_rebalance_status d target req) s.status)
    where
      by_status :
          (o : Option RebalanceStatus)
          → StopsDeleted r (o >>= λ x. send_status f d now c actions (record s { status = x }))
      by_status none = panics
      by_status (some x) = send_status-StopsDeleted r (record s { status = x }) actions h

  run_rebalance-StopsDeleted :
      (target : TargetEmqx) (req : Option Requester) (r : Rebalance)
      → StopsDeleted r (run_rebalance f d now c target req r)
  unfolding run_rebalance
  run_rebalance-StopsDeleted target req r =
      by_deleted (is_deleted f d now c r) (delete_rebalance-StopsDeleted target req r)
    where
      added : Rebalance
      added = record r { finalizers = f.add r.finalizers finalizer }

      by_error :
          (o : Option Error)
          → StopsDeleted r (elim o [
            | some e ↦ some (done f d now c (update added ∷ []) (some e))
            | none ↦ handle_rebalance f d now c (update added ∷ []) target req added
          ])
      by_error none = handle_rebalance-StopsDeleted r added target req (update added ∷ []) refl
      by_error (some e) = goes_on refl

      by_deleted :
          (b : Bool)
          → (b ≡ true → StopsDeleted r (delete_rebalance f d now c target req r))
          → StopsDeleted r (
              if b
              then delete_rebalance f d now c target req r
              else if f.contains r.finalizers finalizer
              then handle_rebalance f d now c [] target req r
              else add_finalizer f d now c target req added)
      by_deleted true h = h refl
      by_deleted false h =
          if_lem (StopsDeleted r) (f.contains r.finalizers finalizer)
            (handle_rebalance-StopsDeleted r r target req [] refl) (by_error c.update_error)

  with_requester-StopsDeleted :
      (target : TargetEmqx) (r : Rebalance) (o : Result (Option Requester))
      → StopsDeleted r (with_requester f d now c target r o)
  with_requester-StopsDeleted target r (err e) = goes_on refl
  with_requester-StopsDeleted target r (ok req) = run_rebalance-StopsDeleted target req r

  target_not_found-StopsDeleted :
      (message : String) (r : Rebalance) → StopsDeleted r (target_not_found f d now c message r)
  target_not_found-StopsDeleted message r =
      if_lem (StopsDeleted r) (is_deleted f d now c r) (goes_on refl) (goes_on refl)

  reconcile_enterprise-StopsDeleted :
      (r : Rebalance) (o : Result EmqxEnterprise)
      → StopsDeleted r (reconcile_enterprise f d now c r o)
  unfolding reconcile_enterprise
  reconcile_enterprise-StopsDeleted r (err e) =
      if_lem (StopsDeleted r) (not (is_not_found e)) (goes_on refl)
        (target_not_found-StopsDeleted _ r)
  reconcile_enterprise-StopsDeleted r (ok e) =
      if_lem (StopsDeleted r) (not e.running) (goes_on refl)
        (with_requester-StopsDeleted (enterprise e.nodes) r c.requester_by_pod)

  check_edition-StopsDeleted :
      (e : Emqx) (r : Rebalance) (o : Option String)
      → StopsDeleted r (check_edition f d now c e r o)
  check_edition-StopsDeleted e r none = panics
  check_edition-StopsDeleted e r (some edition) =
      if_lem (StopsDeleted r) (not (str_eq edition "Enterprise")) (goes_on refl)
        (with_requester-StopsDeleted (emqx e) r c.new_requester)

  reconcile_emqx-StopsDeleted :
      (r : Rebalance) (o : Result Emqx) → StopsDeleted r (reconcile_emqx f d now c r o)
  unfolding reconcile_emqx
  reconcile_emqx-StopsDeleted r (err e) =
      if_lem (StopsDeleted r) (not (is_not_found e)) (goes_on refl)
        (target_not_found-StopsDeleted _ r)
  reconcile_emqx-StopsDeleted r (ok e) =
      if_lem (StopsDeleted r) (not (is_condition_true e.status Status.ready)) (goes_on refl)
        (check_edition-StopsDeleted e r (first_edition f d now c e))

  deleted_of :
      {r : Rebalance} {o : Option Reply} {reply : Reply}
      → StopsDeleted r o
      → o ≡ some reply
      → stops reply ≡ true
      → (is_deleted f d now c r ≡ true) × (r.status.phase ≡ processing)
  deleted_of panics h s = cc
  deleted_of (goes_on q) h s = cc (q, s, ap stops (some-eq h))
  deleted_of (ends a b) h s = (a, b)

  -- Reconcile sends a stop to EMQX only for a Rebalance that is being deleted and whose phase is
  -- Processing.
  pub reconcile-is_deleted :
      (r : Rebalance) (reply : Reply)
      → c.get_rebalance ≡ ok r
      → reconcile f d now c ≡ some reply
      → stops reply ≡ true
      → (is_deleted f d now c r ≡ true) × (r.status.phase ≡ processing)
  unfolding reconcile
  reconcile-is_deleted r reply g h s = deleted_of by_kind (ap answer (sym g) ∙ h) s
    where
      answer : Result Rebalance → Option Reply
      answer o = elim o [
        | err e ↦
            if is_not_found e
            then some (done f d now c [] none)
            else some (done f d now c [] (some e))
        | ok r ↦ reconcile_kind f d now c r
      ]

      by_kind : StopsDeleted r (reconcile_kind f d now c r)
      by_kind =
          if_lem (StopsDeleted r) (str_eq r.instance_kind "EmqxEnterprise")
            (reconcile_enterprise-StopsDeleted r c.get_enterprise)
            (reconcile_emqx-StopsDeleted r c.get_emqx)
