-- ===== src/Examples/Rebalancing.antt =====
-- The theorems on a rebalance, from its start to its deletion.
use emqx_operator.Prelude.{true, true, pos, String, ◌≡◌, refl, Option, none, some, [], ◌∷◌}
use emqx_operator.Errors.{Error, ok, err, not_found}
use emqx_operator.Api.Rebalance.{
  RebalancePhase, RebalanceStatus, RebalanceState, Rebalance, no_phase, processing,
}
use emqx_operator.Controllers.Rebalance.{
  TargetEmqx, enterprise, RebalanceDecoder, rebalance_status_handler, rebalance_stop_url,
}
use emqx_operator.Controllers.Rebalance.Handler.{PhaseStep, rebalance_status_handler-PhaseStep}
use emqx_operator.Controllers.Rebalance.Reconcile.{Finalizers, Cluster, update, stop, finalizer}
use emqx_operator.Controllers.Rebalance.{stop_rebalance}
use emqx_operator.Controllers.Rebalance.Reconcile.{reconcile, is_deleted, Reply}
use emqx_operator.Controllers.Rebalance.Stopping.{reconcile-is_deleted}
use emqx_operator.Controllers.Rebalance.Deletion.{delete_with, started-delete_rebalance}
use emqx_operator.Examples.Fixtures.{requester}

abbrev decoder : RebalanceDecoder
decoder = record {
  code = λ body. "0";
  message = λ body. "";
  rebalances = λ body. some [];
  parse_float = λ text. text;
  error_text = λ e. "error";
}

abbrev finalizers : Finalizers
finalizers = record { contains = λ fs f. true; add = λ fs f. f ∷ fs; remove = λ fs f. [] }

abbrev status : RebalancePhase → RebalanceStatus
status phase = record {
  conditions = [];
  phase = phase;
  rebalance_states = [];
  started_time = none;
  completed_time = none;
}

abbrev rebalance : RebalancePhase → Rebalance
rebalance phase = record {
  name = "rebalance";
  namespace = "default";
  deletion_timestamp = some 1;
  finalizers = finalizer ∷ [];
  instance_kind = "EmqxEnterprise";
  instance_name = "emqx";
  strategy = record {
    conn_evict_rate = pos 10;
    sess_evict_rate = pos 10;
    wait_takeover = pos 10;
    wait_health_check = pos 10;
    abs_conn_threshold = pos 10;
    rel_conn_threshold = "1.1";
    abs_sess_threshold = pos 10;
    rel_sess_threshold = "1.1";
  };
  status = status phase;
}

abbrev cluster : Cluster
cluster = record {
  get_rebalance = ok (rebalance processing);
  get_enterprise = err not_found;
  get_emqx = err not_found;
  requester_by_pod = ok (some requester);
  new_requester = ok (some requester);
  update_error = none;
  update_status_error = none;
}

abbrev target : TargetEmqx
target = enterprise ("emqx@0" ∷ [])

abbrev state : RebalanceState
state = record { state = "evicting_conns"; node = "emqx@0"; coordinator_node = "emqx@0" }

abbrev text : Error → String
text e = "error"

-- The status that the handler leaves, as it computes it.
abbrev or_itself : RebalanceStatus → Option RebalanceStatus → RebalanceStatus
or_itself s none = s
or_itself s (some t) = t

abbrev started : RebalanceStatus
unfolding rebalance_status_handler
started =
    or_itself (status no_phase)
      (rebalance_status_handler text 7 (some (ok tt)) none (status no_phase))

starts : rebalance_status_handler text 7 (some (ok tt)) none (status no_phase) ≡ some started
unfolding started rebalance_status_handler
starts = refl

abbrev running : RebalanceStatus
unfolding rebalance_status_handler
running =
    or_itself (status processing)
      (rebalance_status_handler text 7 none (some (ok (state ∷ []))) (status processing))

runs :
    rebalance_status_handler text 7 none (some (ok (state ∷ []))) (status processing) ≡ some running
unfolding running rebalance_status_handler
runs = refl

rebalance_status_handler-PhaseStep_example : PhaseStep (some (ok tt)) none no_phase started.phase
rebalance_status_handler-PhaseStep_example =
    rebalance_status_handler-PhaseStep text 7 (some (ok tt)) none (status no_phase) started starts

started-delete_rebalance_example :
    delete_with finalizers decoder 7 cluster target (some requester) (rebalance no_phase) started
    ≡ none
started-delete_rebalance_example =
    started-delete_rebalance finalizers decoder 7 cluster target (some requester)
      (rebalance no_phase) none (status no_phase) started refl refl starts

abbrev deleted : Rebalance
deleted = record (rebalance processing) {
  status = record (status processing) { rebalance_states = state ∷ [] };
}

abbrev deleting : Cluster
deleting = record cluster {
  get_rebalance = ok deleted;
  get_enterprise = ok (record { running = true; nodes = "emqx@0" ∷ [] });
}

abbrev stopped : Reply
stopped = record {
  actions = stop ∷ update (record deleted { finalizers = [] }) ∷ [];
  requeue_after = 0;
  error = none;
}

stops_it : reconcile finalizers decoder 7 deleting ≡ some stopped
unfolding reconcile stop_rebalance rebalance_stop_url
stops_it = refl

reconcile-is_deleted_example :
    (is_deleted finalizers decoder 7 deleting deleted ≡ true) × (deleted.status.phase ≡ processing)
reconcile-is_deleted_example =
    reconcile-is_deleted finalizers decoder 7 deleting deleted stopped refl stops_it refl
