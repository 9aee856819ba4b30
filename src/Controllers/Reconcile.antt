-- ===== src/Controllers/Reconcile.antt =====
-- controllers/apps/v2beta1/emqx_controller.go: the loop over the sub-reconcilers, and the choice of
-- the pod that requests go to. A sub-reconciler is a parameter, a step on the state of the program
-- and the cluster; `none` is a panic. Events and logs are left out.
pub mod Requeue
pub mod Order
use emqx_operator.Prelude.{
  ℕ, ◌+++◌, String, str_eq, Bool, true, false, not, ◌&&◌, Option, none, some, List, [], ◌∷◌, ◌==◌,
  ltb, ◌>>=◌, if◌then◌else◌,
}
use emqx_operator.Prelude.Sort.{sort}
use emqx_operator.Errors.{Error, Result, ok, err, is_not_found, is_common_error}
use emqx_operator.Http.{Requester}
use emqx_operator.Kube.{Client, Pod, PodCondition, status_true}
use emqx_operator.Api.Types.{Emqx}
use emqx_operator.Api.Status
use emqx_operator.Api.Status.{is_condition_true}
use emqx_operator.Api.Labels.{default_core_labels}

pub data SubReconciler : Type 0 where
  add_bootstrap update_pod_conditions update_status add_headless_svc add_core add_repl :
      SubReconciler
  add_pdb sync_config add_svc sync_pods sync_sets : SubReconciler

-- ctrl.Result, in seconds.
pub record CtrlResult : Type 0 where
  pub requeue : Bool
  pub requeue_after : ℕ

-- subResult, and the two results of Reconcile.
pub record SubResult : Type 0 where
  pub error : Option Error
  pub result : CtrlResult

-- The order in which they run.
abbrev pub sub_reconcilers : List SubReconciler
sub_reconcilers =
    add_bootstrap ∷ update_pod_conditions ∷ update_status ∷ add_headless_svc ∷ add_core ∷ add_repl
    ∷ add_pdb ∷ sync_config ∷ add_svc ∷ update_pod_conditions ∷ update_status ∷ sync_pods
    ∷ sync_sets ∷ []

abbrev pub after : ℕ → SubResult
after seconds = record {
  error = none;
  result = record { requeue = false; requeue_after = seconds };
}

abbrev pub fail : Error → SubResult
fail e = record { error = some e; result = record { requeue = false; requeue_after = 0 } }

-- ctrl.Result.IsZero
abbrev pub is_zero : CtrlResult → Bool
is_zero r = not r.requeue && r.requeue_after == 0

-- How a sub-reconciler's result ends the run, if it does.
abbrev pub stop_on_error : Option Error → Option SubResult
stop_on_error none = none
stop_on_error (some e) = if is_common_error e then some (after 1) else some (fail e)

unfoldable pub stop_on : SubResult → Option SubResult
stop_on r =
    if not (is_zero r.result)
    then some (record { error = none; result = r.result })
    else stop_on_error r.error

-- The fields that a requester is made of: the scheme and port by the ports of the configuration,
-- where the plain dashboard wins, and the two parts of the key.
pub record Ports : Type 0 where
  pub dashboard_https : Option String
  pub dashboard : Option String

abbrev pub schema_and_port : Ports → String × String
schema_and_port p = elim p.dashboard [
  | some port ↦ ("http", port)
  | none ↦ elim p.dashboard_https [ some port ↦ ("https", port) | none ↦ ("", "") ]
]

abbrev older : Pod → Pod → Bool
older a b = ltb a.creation_timestamp b.creation_timestamp

has_ready_containers : List PodCondition → Bool
has_ready_containers [] = false
has_ready_containers (c ∷ cs) =
    if str_eq c.type "ContainersReady" && status_true c.status
    then true
    else has_ready_containers cs

abbrev is_live : Pod → Bool
is_live pod = elim pod.deletion_timestamp [ none ↦ true | some t ↦ false ]

unfoldable pub is_reachable : Pod → Bool
unfolding has_ready_containers
is_reachable pod = is_live pod && not (str_eq pod.pod_ip "") && has_ready_containers pod.conditions

first_reachable : List Pod → Option Pod
unfolding is_reachable
first_reachable [] = none
first_reachable (p ∷ ps) = if is_reachable p then some p else first_reachable ps

-- The pod to which newRequester sends requests, the oldest first.
unfoldable pub requester_pod : Client → Emqx → Option Pod
unfolding first_reachable sort default_core_labels
requester_pod client e =
    first_reachable (sort older (client.pods e.namespace (default_core_labels e)))

module _ {S : Type 0} (run : SubReconciler → Option Requester → S → Option (S × SubResult))
    (emqx_in : S → Emqx) where
  -- The result after all have run.
  abbrev pub finished : S → SubResult
  finished s = if not (is_condition_true (emqx_in s).status Status.ready) then after 1 else after 30

  abbrev stop_or : S → (S → Option (S × SubResult)) → Option SubResult → Option (S × SubResult)
  stop_or s rest (some result) = some (s, result)
  stop_or s rest none = rest s

  unfoldable pub run_all : Option Requester → List SubReconciler → S → Option (S × SubResult)
  unfolding stop_on
  run_all r [] s = some (s, finished s)
  run_all r (x ∷ xs) s = run x r s >>= λ (t, result). stop_or t (run_all r xs) (stop_on result)

  abbrev no_requester : Error → S → Option (S × SubResult)
  no_requester e s =
      if is_not_found e
      then (run add_bootstrap none s >>= λ (t, result). some (t, after 1))
      else some (s, fail e)

  abbrev with_requester : S → Result (Option Requester) → Option (S × SubResult)
  with_requester s (err e) = no_requester e s
  with_requester s (ok r) = run_all r sub_reconcilers s

  abbrev is_deleted : Emqx → Bool
  is_deleted e = elim e.deletion_timestamp [ none ↦ false | some t ↦ true ]

  abbrev with_config : S → Result (Option Requester) → Option Error → Option (S × SubResult)
  with_config s r (some e) = some (s, fail e)
  with_config s r none = with_requester s r

  -- Reconcile, where `get_error` is what the Get of the instance answers, and `config_error` and
  -- `requester` what hocon.ParseString and newRequester do.
  unfoldable pub reconcile :
      (get_error config_error : Option Error)
      → Result (Option Requester)
      → S
      → Option (S × SubResult)
  unfolding run_all
  reconcile (some e) config_error requester s =
      if is_not_found e then some (s, after 0) else some (s, fail e)
  reconcile none config_error requester s =
      if is_deleted (emqx_in s) then some (s, after 0) else with_config s requester config_error
