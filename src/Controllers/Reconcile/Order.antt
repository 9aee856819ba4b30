-- ===== src/Controllers/Reconcile/Order.antt =====
-- The order in which the sub-reconcilers run, with the result of each.
use emqx_operator.Prelude.{
  ap, map, All, ◌≡◌, refl, sym, ◌∙◌, subst, Option, none, some, List, [], ◌∷◌, ◌++◌, ◌>>=◌,
}
use mathlib.Core.List.{append-nil, append_assoc}
use emqx_operator.Http.{Requester}
use emqx_operator.Api.Types.{Emqx}
use emqx_operator.Controllers.Reconcile.{
  SubReconciler, SubResult, stop_on, finished, stop_or, run_all,
}

module _ {S : Type 0} (run : SubReconciler → Option Requester → S → Option (S × SubResult))
    (emqx_in : S → Emqx) where
  -- A sub-reconciler that has run, with its result, and the state with all of these.
  abbrev pub Entry : Type 0
  Entry = SubReconciler × SubResult

  abbrev pub Traced : Type 0
  Traced = S × List Entry

  abbrev pub traced : SubReconciler → Option Requester → Traced → Option (Traced × SubResult)
  traced x r (s, log) = run x r s >>= λ (t, result). some ((t, log ++ (x, result) ∷ []), result)

  abbrev pub emqx_traced : Traced → Emqx
  emqx_traced (s, log) = emqx_in s

  abbrev pub names : List Entry → List SubReconciler
  names = map (λ (x : Entry). x.0)

  -- The result lets the run go on.
  abbrev pub GoesOn : Entry → Type 0
  GoesOn x = stop_on x.1 ≡ none

  -- After the entries `log`: all of `xs` have run and let the run go on, and the result is by the
  -- condition Ready; or the first few have, and the next one ended the run with its result.
  pub data InOrder (log : List Entry) (xs : List SubReconciler) (t : Traced) (out : SubResult)
      : Type 0 where
    all_run :
        (entries : List Entry)
        → t.1 ≡ log ++ entries
        → names entries ≡ xs
        → All GoesOn entries
        → out ≡ finished run emqx_in t.0
        → InOrder log xs t out
    stopped :
        (entries : List Entry) (last : Entry) (rest : List SubReconciler)
        → t.1 ≡ log ++ (entries ++ last ∷ [])
        → names entries ++ last.0 ∷ rest ≡ xs
        → All GoesOn entries
        → stop_on last.1 ≡ some out
        → InOrder log xs t out

  abbrev InOrderAfter : List Entry → List SubReconciler → Option (Traced × SubResult) → Type 0
  InOrderAfter log xs none = Unit
  InOrderAfter log xs (some (t, out)) = InOrder log xs t out

  longer :
      (log : List Entry) (x : Entry) (xs : List SubReconciler) (o : Option (Traced × SubResult))
      → GoesOn x
      → InOrderAfter (log ++ x ∷ []) xs o
      → InOrderAfter log (x.0 ∷ xs) o
  longer log x xs none g h = tt
  longer log x xs (some (t, out)) g (all_run es e n a f) =
      all_run (x ∷ es) (e ∙ append_assoc log (x ∷ []) es) (ap (λ ns. x.0 ∷ ns) n) (g, a) f
  longer log x xs (some (t, out)) g (stopped es last rest e n a f) =
      stopped (x ∷ es) last rest (e ∙ append_assoc log (x ∷ []) (es ++ (last ∷ [])))
        (ap (λ ns. x.0 ∷ ns) n) (g, a) f

  run_all-InOrderAfter :
      (r : Option Requester) (xs : List SubReconciler) (s : S) (log : List Entry)
      → InOrderAfter log xs (run_all traced emqx_traced r xs (s, log))
  unfolding run_all
  run_all-InOrderAfter r [] s log = all_run [] (sym (append-nil log)) refl tt refl
  run_all-InOrderAfter r (x ∷ xs) s log =
      by_run (run x r s) (λ t result. run_all-InOrderAfter r xs t (log ++ (x, result) ∷ []))
    where
      by_stop :
          (t : S) (result : SubResult) (o : Option SubResult)
          → stop_on result ≡ o
          → InOrderAfter
              (log ++ (x, result) ∷ [])
              xs
              (run_all traced emqx_traced r xs (t, log ++ (x, result) ∷ []))
          → InOrderAfter log (x ∷ xs) (
              stop_or traced emqx_traced
                (t, log ++ (x, result) ∷ [])
                (run_all traced emqx_traced r xs)
                o)
      by_stop t result none e h = longer log (x, result) xs _ e h
      by_stop t result (some out) e h = stopped [] (x, result) xs refl refl tt e

      by_run :
          (o : Option (S × SubResult))
          → ((t : S) (result : SubResult)
              → InOrderAfter
                  (log ++ (x, result) ∷ [])
                  xs
                  (run_all traced emqx_traced r xs (t, log ++ (x, result) ∷ [])))
          → InOrderAfter log (x ∷ xs) (
              (o >>= λ (t, result). some ((t, log ++ (x, result) ∷ []), result)) >>= λ (t, result).
              stop_or traced emqx_traced t (run_all traced emqx_traced r xs) (stop_on result))
      by_run none h = tt
      by_run (some (t, result)) h = by_stop t result (stop_on result) refl (h t result)

  -- The sub-reconcilers run in the order of their list. Either all run, the result of each lets the
  -- run go on, and the result is by the condition Ready; or the run ends with the first whose result
  -- ends it, and the result is what that one makes of it.
  pub run_all-InOrder :
      (r : Option Requester) (xs : List SubReconciler) (s : S) (t : Traced) (out : SubResult)
      → run_all traced emqx_traced r xs (s, []) ≡ some (t, out)
      → InOrder [] xs t out
  run_all-InOrder r xs s t out h = subst (InOrderAfter [] xs) h (run_all-InOrderAfter r xs s [])
