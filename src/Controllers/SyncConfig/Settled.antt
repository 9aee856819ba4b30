-- ===== src/Controllers/SyncConfig/Settled.antt =====
-- A configuration is sent once.
use emqx_operator.Prelude.{
  String, str_eq, eq_refl, Bool, true, false, not, ◌≡◌, refl, sym, ap, ◌∙◌, subst, Option, none,
  some, some-eq, >>=-eq-some, List, [], head?, if◌then◌else◌,
}
use emqx_operator.Errors.{Error}
use emqx_operator.Api.Types.{Emqx}
use emqx_operator.Api.Labels.{lookup}
use emqx_operator.Controllers.Reconcile.{after, fail}
use emqx_operator.Controllers.SyncConfig.{
  World, Put, Call, Synced, done, annotated, annotate, store, apply, compare, is_core_ready,
  reconcile, accepted_config, put_emqx_configs_by_api, last_config_key,
}
use emqx_operator.Controllers.SyncConfig.Applied.{IsCurrent, annotated-IsCurrent}

failed : (x : Error) → fail x ≡ after 0 → ⊥
failed x h = let e : some x ≡ none = ap (λ r. r.error) h in cc

module _ (w : World) (exists : w.config_map_error ≡ none) where
  -- With the annotation current there is nothing to do.
  idle : (r : Option Put) (e : Emqx) → IsCurrent e → reconcile w r e ≡ some (done e [] none)
  unfolding reconcile compare
  idle r e h =
      rw (exists, reconcile) (rw (h, compare) (rw (eq_refl e.spec.config.text, compare) refl))

  -- The run, after which any other does nothing.
  abbrev pub Settles : Synced → Type 0
  Settles s = (r : Option Put) → reconcile w r s.emqx ≡ some (done s.emqx [] none)

  done-error :
      (e : Emqx) (calls : List Call) (x : Option Error)
      → (done e calls x).result ≡ after 0
      → (done e calls x).emqx ≡ e
  done-error e calls none h = refl
  done-error e calls (some x) h = refl

  current-Settles :
      (e : Emqx) (calls : List Call) (x : Option Error) → Settles (done (annotated e) calls x)
  current-Settles e calls none r = idle r (annotated e) (annotated-IsCurrent e)
  current-Settles e calls (some x) r = idle r (annotated e) (annotated-IsCurrent e)

  annotate-Settles :
      (r : Option Put) (e : Emqx) (text : String) (error : Option Error)
      → (annotate w r e text error).result ≡ after 0
      → Settles (annotate w r e text error)
  annotate-Settles r e text (some x) h = absurd (failed x h)
  annotate-Settles r e text none h = current-Settles e _ w.instance_error

  store-Settles :
      (r : Option Put) (e : Emqx) (text : String) (error : Option Error)
      → (store w r e text error).result ≡ after 0
      → Settles (store w r e text error)
  store-Settles r e text (some x) h = absurd (failed x h)
  store-Settles r e text none h = annotate-Settles r e text w.update_error h

  apply-Settles :
      (r : Option Put) (e : Emqx) (s : Synced)
      → apply w r e ≡ some s
      → s.result ≡ after 0
      → Settles s
  unfolding apply
  apply-Settles r e s h ok =
      let (node, first, h1) = >>=-eq-some (head? e.status.core_nodes) _ h in
      let (text, accepted, h2) = >>=-eq-some (accepted_config w node.version _) _ h1 in
      let (error, sent, h3) = >>=-eq-some (put_emqx_configs_by_api r _ text) _ h2 in
      let same : store w r e text error ≡ s = some-eq h3 in
      subst Settles same (store-Settles r e text error (ap (λ s. s.result) same ∙ ok))

  -- Before the core nodes are ready, or with the configuration sent, nothing is done, now or later.
  wait-Settles :
      (r : Option Put) (e : Emqx) (last : String) (differs is_ready : Bool) (s : Synced)
      → lookup last_config_key e.annotations ≡ some last
      → not (str_eq last e.spec.config.text) ≡ differs
      → is_core_ready w r e ≡ is_ready
      → (if differs
          then if not is_ready then some (done e [] none) else apply w r e
          else some (done e [] none))
        ≡ some s
      → s.result ≡ after 0
      → Settles s
  unfolding reconcile compare
  wait-Settles r e last true true s found d c h ok = apply-Settles r e s h ok
  wait-Settles r e last true false s found d c h ok =
      subst Settles (some-eq h)
        λ r2. rw (exists, reconcile) (rw (found, compare) (rw d (rw c refl)))
  wait-Settles r e last false is_ready s found d c h ok =
      subst Settles (some-eq h) λ r2. rw (exists, reconcile) (rw (found, compare) (rw d refl))

  compare-Settles :
      (r : Option Put) (e : Emqx) (last : Option String) (s : Synced)
      → lookup last_config_key e.annotations ≡ last
      → compare w r e last ≡ some s
      → s.result ≡ after 0
      → Settles s
  unfolding compare
  compare-Settles r e none s found h ok =
      subst Settles (some-eq h) (current-Settles e _ w.instance_error)
  compare-Settles r e (some last) s found h ok = wait-Settles r e last _ _ s found refl refl h ok

  -- After a run that reports no error, on a resource whose config map exists, syncConfig makes no
  -- call for the same resource, whatever requester it is given: a configuration is sent once.
  pub reconcile_once :
      (r other : Option Put) (e : Emqx) (s : Synced)
      → reconcile w r e ≡ some s
      → s.result ≡ after 0
      → reconcile w other s.emqx ≡ some (done s.emqx [] none)
  unfolding reconcile
  reconcile_once r other e s h ok =
      compare-Settles r e (lookup last_config_key e.annotations) s refl
        (sym (rw (exists, reconcile) refl) ∙ h) ok other
