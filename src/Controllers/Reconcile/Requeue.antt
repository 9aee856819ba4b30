-- ===== src/Controllers/Reconcile/Requeue.antt =====
-- A run of Reconcile without an error asks for another.
use emqx_operator.Prelude.{
  Bool, true, false, not, ◌≡◌, refl, subst, Option, none, some, List, [], ◌∷◌, some-eq, ◌>>=◌,
  if◌then◌else◌, if_lem,
}
use emqx_operator.Errors.{Error, Result, ok, err, is_not_found, is_common_error}
use emqx_operator.Http.{Requester}
use emqx_operator.Api.Types.{Emqx}
use emqx_operator.Api.Status
use emqx_operator.Api.Status.{is_condition_true}
use emqx_operator.Controllers.Reconcile.{
  SubReconciler, add_bootstrap, SubResult, sub_reconcilers, after, fail, is_zero, stop_on,
  stop_on_error, finished, stop_or, run_all, reconcile, with_config, no_requester,
}

-- The run reports an error, or asks to run again.
pub data Continues : SubResult → Type 0 where
  fails : {r : SubResult} {e : Error} → r.error ≡ some e → Continues r
  again : {r : SubResult} → is_zero r.result ≡ false → Continues r

stop_on_error-Continues :
    (o : Option Error) {r : SubResult} → stop_on_error o ≡ some r → Continues r
stop_on_error-Continues none h = cc
stop_on_error-Continues (some e) h = by_common (is_common_error e) h
  where
    by_common :
        (b : Bool) {r : SubResult}
        → (if b then some (after 1) else some (fail e)) ≡ some r
        → Continues r
    by_common true h = subst Continues (some-eq h) (again refl)
    by_common false h = subst Continues (some-eq h) (fails refl)

stop_on-Continues : (x : SubResult) {r : SubResult} → stop_on x ≡ some r → Continues r
unfolding stop_on
stop_on-Continues x h = by_zero (is_zero x.result) refl h
  where
    by_zero :
        (b : Bool) {r : SubResult}
        → is_zero x.result ≡ b
        → (if not b
            then some (record { error = none; result = x.result })
            else stop_on_error x.error)
          ≡ some r
        → Continues r
    by_zero false z h = subst Continues (some-eq h) (again z)
    by_zero true z h = stop_on_error-Continues x.error h

abbrev ContinuesAfter : {S : Type 0} → Option (S × SubResult) → Type 0
ContinuesAfter none = Unit
ContinuesAfter (some (s, r)) = Continues r

module _ {S : Type 0} (run : SubReconciler → Option Requester → S → Option (S × SubResult))
    (emqx_in : S → Emqx) where
  finished-Continues : (s : S) → Continues (finished run emqx_in s)
  finished-Continues s =
      if_lem Continues (not (is_condition_true (emqx_in s).status Status.ready))
        (again {r = after 1} refl) (again {r = after 30} refl)

  stop_or-Continues :
      (s : S) (rest : S → Option (S × SubResult)) (x : SubResult) (o : Option SubResult)
      → stop_on x ≡ o
      → ContinuesAfter (rest s)
      → ContinuesAfter (stop_or run emqx_in s rest o)
  stop_or-Continues s rest x none q h = h
  stop_or-Continues s rest x (some r) q h = stop_on-Continues x q

  run_all-Continues :
      (r : Option Requester) (xs : List SubReconciler) (s : S)
      → ContinuesAfter (run_all run emqx_in r xs s)
  unfolding run_all
  run_all-Continues r [] s = finished-Continues s
  run_all-Continues r (x ∷ xs) s = by_run (run x r s) (λ t. run_all-Continues r xs t)
    where
      by_run :
          (o : Option (S × SubResult))
          → ((t : S) → ContinuesAfter (run_all run emqx_in r xs t))
          → ContinuesAfter (
              o >>= λ (t, result).
              stop_or run emqx_in t (run_all run emqx_in r xs) (stop_on result))
      by_run none h = tt
      by_run (some (t, result)) h =
          stop_or-Continues t (run_all run emqx_in r xs) result (stop_on result) refl (h t)

  no_requester-Continues : (e : Error) (s : S) → ContinuesAfter (no_requester run emqx_in e s)
  no_requester-Continues e s =
      if_lem ContinuesAfter (is_not_found e) (by_run (run add_bootstrap none s)) (fails refl)
    where
      by_run :
          (o : Option (S × SubResult)) → ContinuesAfter (o >>= λ (t, result). some (t, after 1))
      by_run none = tt
      by_run (some (t, result)) = again refl

  with_config-Continues :
      (config_error : Option Error) (requester : Result (Option Requester)) (s : S)
      → ContinuesAfter (with_config run emqx_in s requester config_error)
  with_config-Continues (some e) requester s = fails refl
  with_config-Continues none (err e) s = no_requester-Continues e s
  with_config-Continues none (ok r) s = run_all-Continues r sub_reconcilers s

  -- A run of Reconcile on an EMQX that exists and is not being deleted reports an error or asks to be
  -- run again, whatever its sub-reconcilers do, unless one of them panics.
  pub reconcile-Continues :
      (config_error : Option Error) (requester : Result (Option Requester)) (s t : S)
      (out : SubResult)
      → (emqx_in s).deletion_timestamp ≡ none
      → reconcile run emqx_in none config_error requester s ≡ some (t, out)
      → Continues out
  unfolding reconcile
  reconcile-Continues config_error requester s t out d h =
      subst ContinuesAfter (rw d at h) (with_config-Continues config_error requester s)
