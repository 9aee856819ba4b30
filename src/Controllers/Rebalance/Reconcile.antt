-- ===== src/Controllers/Rebalance/Reconcile.antt =====
-- controllers/apps/v2beta1/rebalance_controller.go: Reconcile. What the API server, the finalizer
-- helpers of controller-runtime and the makers of requesters answer is a parameter; the result has
-- the calls that change the cluster, in order. `none` is a panic; events and logs are left out.
use emqx_operator.Prelude.{
  ◌+++◌, ℕ, String, str_eq, Bool, true, false, not, Option, none, some, List, [], ◌∷◌, ◌++◌, head?,
  ◌>>=◌, if◌then◌else◌,
}
use emqx_operator.Errors.{Error, other, Result, ok, err, is_not_found}
use emqx_operator.Http.{Requester}
use emqx_operator.Api.Types.{Emqx}
use emqx_operator.Api.Status
use emqx_operator.Api.Status.{is_condition_true}
use emqx_operator.Api.Rebalance.{
  Rebalance, RebalancePhase, processing, completed, failed, set_failed, is_phase_processing,
}
use emqx_operator.Controllers.Rebalance.{
  TargetEmqx, enterprise, emqx, RebalanceDecoder, failed_condition, start_rebalance,
  get_rebalance_status, stop_rebalance, rebalance_status_handler,
}

-- controllerutil.ContainsFinalizer, AddFinalizer and RemoveFinalizer, on the list of finalizers.
pub record Finalizers : Type 0 where
  pub contains : List String → String → Bool
  pub add : List String → String → List String
  pub remove : List String → String → List String

-- The v1beta4 EmqxEnterprise: whether its condition Running is true, and its nodes' names.
pub record EmqxEnterprise : Type 0 where
  pub running : Bool
  pub nodes : List String

pub record Cluster : Type 0 where
  pub get_rebalance : Result Rebalance
  pub get_enterprise : Result EmqxEnterprise
  pub get_emqx : Result Emqx
  pub requester_by_pod : Result (Option Requester)
  pub new_requester : Result (Option Requester)
  pub update_error : Option Error
  pub update_status_error : Option Error

pub data Action : Type 0 where
  update update_status : Rebalance → Action
  stop : Action

-- The calls made, the seconds after which to run again, and the error.
pub record Reply : Type 0 where
  pub actions : List Action
  pub requeue_after : ℕ
  pub error : Option Error

abbrev pub finalizer : String
finalizer = "apps.emqx.io/finalizer"

module _ (f : Finalizers) (d : RebalanceDecoder) (now : ℕ) (c : Cluster) where
  abbrev pub done : List Action → Option Error → Reply
  done actions error = record { actions = actions; requeue_after = 0; error = error }

  abbrev pub fail : String → Rebalance → Option Reply
  fail message r = some (
      done
        (update_status
            (record r { status = (set_failed now (failed_condition message) r.status).0 })
          ∷ [])
        c.update_status_error)

  abbrev pub without_finalizer : Rebalance → Rebalance
  without_finalizer r = record r { finalizers = f.remove r.finalizers finalizer }

  abbrev pub is_deleted : Rebalance → Bool
  is_deleted r = elim r.deletion_timestamp [ none ↦ false | some t ↦ true ]

  -- The target of the rebalance is gone.
  abbrev pub target_not_found : String → Rebalance → Option Reply
  target_not_found message r =
      if is_deleted r
      then some (done (update (without_finalizer r) ∷ []) c.update_error)
      else fail message r

  -- The stop, whose error is dropped, and then the end of the deletion.
  abbrev pub after_stop : Rebalance → Option (Result (Unit {0})) → Option Reply
  after_stop r stopped =
      stopped >>= λ _. some (done (stop ∷ update (without_finalizer r) ∷ []) c.update_error)

  unfoldable pub delete_rebalance : TargetEmqx → Option Requester → Rebalance → Option Reply
  delete_rebalance target requester r =
      if is_phase_processing r.status.phase
      then after_stop r (stop_rebalance d target requester r)
      else some (done (update (without_finalizer r) ∷ []) c.update_error)

  abbrev pub finish_phase : RebalancePhase → List Action → Option Reply
  finish_phase failed actions = some (done actions none)
  finish_phase completed actions = some (done actions none)
  finish_phase processing actions =
      some (record { actions = actions; requeue_after = 5; error = none })
  finish_phase _ actions = none

  abbrev pub send_status : List Action → Rebalance → Option Reply
  send_status actions r = elim c.update_status_error [
    | some e ↦ some (done (actions ++ update_status r ∷ []) (some e))
    | none ↦ finish_phase r.status.phase (actions ++ update_status r ∷ [])
  ]

  unfoldable pub handle_rebalance :
      List Action → TargetEmqx → Option Requester → Rebalance → Option Reply
  handle_rebalance actions target requester r =
      rebalance_status_handler d.error_text now (start_rebalance d target requester r)
        (get_rebalance_status d target requester) r.status
      >>= λ s. send_status actions (record r { status = s })

  abbrev pub add_finalizer : TargetEmqx → Option Requester → Rebalance → Option Reply
  add_finalizer target requester r = elim c.update_error [
    | some e ↦ some (done (update r ∷ []) (some e))
    | none ↦ handle_rebalance (update r ∷ []) target requester r
  ]

  unfoldable pub run_rebalance : TargetEmqx → Option Requester → Rebalance → Option Reply
  unfolding delete_rebalance handle_rebalance
  run_rebalance target requester r =
      if is_deleted r
      then delete_rebalance target requester r
      else if f.contains r.finalizers finalizer
      then handle_rebalance [] target requester r
      else add_finalizer target requester (record r { finalizers = f.add r.finalizers finalizer })

  abbrev pub with_requester : TargetEmqx → Rebalance → Result (Option Requester) → Option Reply
  with_requester target r (err e) =
      some (done [] (some (other "failed to get create emqx http API")))
  with_requester target r (ok requester) = run_rebalance target requester r

  unfoldable pub reconcile_enterprise : Rebalance → Result EmqxEnterprise → Option Reply
  unfolding run_rebalance
  reconcile_enterprise r (err e) =
      if not (is_not_found e)
      then some (done [] (some e))
      else target_not_found ("EMQX Enterprise " +++ r.instance_name +++ " is not found") r
  reconcile_enterprise r (ok e) =
      if not e.running
      then fail ("EMQX Enterprise " +++ r.instance_name +++ " is not ready") r
      else with_requester (enterprise e.nodes) r c.requester_by_pod

  abbrev pub check_edition : Emqx → Rebalance → Option String → Option Reply
  check_edition e r none = none
  check_edition e r (some edition) =
      if not (str_eq edition "Enterprise")
      then fail "Only enterprise edition can be rebalanced" r
      else with_requester (emqx e) r c.new_requester

  abbrev pub first_edition : Emqx → Option String
  first_edition e = head? e.status.core_nodes >>= λ n. some n.edition

  unfoldable pub reconcile_emqx : Rebalance → Result Emqx → Option Reply
  unfolding run_rebalance
  reconcile_emqx r (err e) =
      if not (is_not_found e)
      then some (done [] (some e))
      else target_not_found ("EMQX " +++ r.instance_name +++ " is not found") r
  reconcile_emqx r (ok e) =
      if not (is_condition_true e.status Status.ready)
      then fail ("EMQX " +++ r.instance_name +++ " is not ready") r
      else check_edition e r (first_edition e)

  abbrev pub reconcile_kind : Rebalance → Option Reply
  reconcile_kind r =
      if str_eq r.instance_kind "EmqxEnterprise"
      then reconcile_enterprise r c.get_enterprise
      else reconcile_emqx r c.get_emqx

  unfoldable pub reconcile : Option Reply
  unfolding reconcile_enterprise reconcile_emqx
  reconcile = elim c.get_rebalance [
    | err e ↦ if is_not_found e then some (done [] none) else some (done [] (some e))
    | ok r ↦ reconcile_kind r
  ]
