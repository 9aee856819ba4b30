-- ===== src/Controllers/Services/Selecting.antt =====
-- The services select pods of the sets.
use emqx_operator.Prelude.{
  is_positive, String, str_eq, eq_iff, Bool, true, false, ◌&&◌, ◌≡◌, refl, sym, ap, ◌∙◌, subst, inl,
  inr, Option, none, some, some-eq, >>=-eq-some, List, [], ◌∷◌, Bool-cases, if◌then◌else◌,
}
use emqx_operator.Kube.{Labels}
use emqx_operator.Kube.Pods.{Service, ServiceSpec, ServicePort, Metadata, SetObject}
use emqx_operator.Api.Types.{Emqx, Template}
use emqx_operator.Api.Labels.{
  lookup, default_core_labels, default_replicant_labels, is_exist_replicant,
  labels_pod_template_hash_key,
}
use emqx_operator.Api.Labels.Lookup.{or_else, first_value, lookup-clone_and_merge_map}
use emqx_operator.Api.Labels.Distinct.{Covers}
use emqx_operator.Api.Dashboard.{Hocon, get_dashboard_service_port}
use emqx_operator.Api.Listeners.{Library, Ports, get_listeners_service_ports}
use emqx_operator.Controllers.Builders.Core.{core_labels}
use emqx_operator.Controllers.Builders.Replicant.{replicant_labels}
use emqx_operator.Controllers.Builders.Labelled.{IsLabelled, get_new_sets-IsLabelled}
use emqx_operator.Controllers.Builders.Named.{
  Printer, get_new_stateful_set, get_new_replica_set, or_nil,
}
use emqx_operator.Controllers.Services.{
  generate_headless_service, generate_dashboard_service, generate_listener_service, templated,
  dashboard_for, listener_selector, with_template,
}

-- A set's pods carry the labels of its kind.
Covers-pods :
    {name hash : String} {s : SetObject} (selector : Labels) (own : List Labels) (labels : Labels)
    → ((key : String) → lookup key labels ≡ or_else (lookup key selector) (first_value key own))
    → lookup labels_pod_template_hash_key selector ≡ none
    → IsLabelled name labels hash s
    → Covers selector s.template.metadata.labels
Covers-pods {s = s} selector own labels merged no_hash is key value found =
    elim (Bool-cases (str_eq labels_pod_template_hash_key key)) [
      | inl e ↦
          let same : labels_pod_template_hash_key ≡ key =
            (eq_iff labels_pod_template_hash_key key).0 e in
          absurd (clash (sym no_hash ∙ ap (λ k. lookup k selector) same ∙ found))
      | inr e ↦
          ap (lookup key) (sym is.is_like_its_pods)
          ∙ is.has_labels key e
          ∙ merged key
          ∙ ap (λ o. or_else o (first_value key own)) found
    ]
  where
    clash : none ≡ some value → ⊥
    clash h = cc

core_labels-Covers :
    {name hash : String} {s : SetObject} (e : Emqx)
    → IsLabelled name (core_labels e) hash s
    → Covers (default_core_labels e) s.template.metadata.labels
unfolding default_core_labels lookup
core_labels-Covers e is =
    Covers-pods (default_core_labels e) (e.spec.core_template.labels ∷ []) (core_labels e)
      (λ key.
        lookup-clone_and_merge_map key (default_core_labels e) (e.spec.core_template.labels ∷ [])
          (refl, (refl, (refl, tt))))
      refl is

replicant_labels-Covers :
    {name hash : String} {s : SetObject} (e : Emqx) (t : Template)
    → IsLabelled name (replicant_labels e t) hash s
    → Covers (default_replicant_labels e) s.template.metadata.labels
unfolding default_replicant_labels lookup
replicant_labels-Covers e t is =
    Covers-pods (default_replicant_labels e) (t.labels ∷ []) (replicant_labels e t)
      (λ key.
        lookup-clone_and_merge_map key (default_replicant_labels e) (t.labels ∷ [])
          (refl, (refl, (refl, tt))))
      refl is

-- The selectors of the services that are made.
dashboard_selector :
    (hocon : Hocon) (e : Emqx) (config : String) (s : Service)
    → generate_dashboard_service hocon e config ≡ some (some s)
    → s.spec.selector ≡ default_core_labels e
unfolding generate_dashboard_service
dashboard_selector hocon e config s h =
    let (given, h1, h2) = >>=-eq-some (templated e.spec.dashboard_service_template) _ h in
    by_ports (or_nil (get_dashboard_service_port hocon config)) given (some-eq h2)
  where
    by_ports :
        (ports : List ServicePort) (given : Option (Metadata × ServiceSpec))
        → dashboard_for e ports given ≡ some s
        → s.spec.selector ≡ default_core_labels e
    by_ports ports none h = cc
    by_ports [] (some given) h = cc
    by_ports (p ∷ ps) (some given) h = ap (λ r. r.spec.selector) (sym (some-eq h))

listeners_selector :
    {V : Type 0} (lib : Library V) (e : Emqx) (config : String) (s : Service)
    → generate_listener_service lib e config ≡ some (some s)
    → s.spec.selector ≡ listener_selector e
unfolding generate_listener_service
listeners_selector lib e config s =
    by_template (templated e.spec.listeners_service_template)
      (get_listeners_service_ports lib config)
  where
    by_template :
        (given : Option (Option (Metadata × ServiceSpec))) (ports : Ports)
        → with_template given ports e ≡ some (some s)
        → s.spec.selector ≡ listener_selector e
    by_template none ports h = cc
    by_template (some none) ports h = let same : none ≡ some s = some-eq h in cc
    by_template (some (some given)) none h = cc
    by_template (some (some given)) (some r) h =
        let same : _ ≡ s = some-eq (some-eq h) in ap (λ r. r.spec.selector) (sym same)

-- The pods of the sets that the operator asks for, and the services that it makes: the headless and
-- the dashboard service select the pods of the core set, and the listeners' service those of one of
-- the two sets, the replicants' as soon as one of them is ready.
pub services_select :
    {V : Type 0} (p : Printer) (hocon : Hocon) (lib : Library V) (e : Emqx) (t : Template)
    (config : String) (sts rs : SetObject) (dashboard listeners : Service)
    → get_new_stateful_set p hocon e ≡ some sts
    → get_new_replica_set p hocon e t ≡ some rs
    → generate_dashboard_service hocon e config ≡ some (some dashboard)
    → generate_listener_service lib e config ≡ some (some listeners)
    → Covers (generate_headless_service e).spec.selector sts.template.metadata.labels
      × Covers dashboard.spec.selector sts.template.metadata.labels
      × Covers listeners.spec.selector
          (if is_exist_replicant e && is_positive e.status.replicant_nodes_status.ready_replicas
            then rs
            else sts).template.metadata.labels
unfolding generate_headless_service
services_select p hocon lib e t config sts rs dashboard listeners new_sts new_rs d l =
    let is = get_new_sets-IsLabelled p hocon e t sts rs new_sts new_rs in
    let core = core_labels-Covers e is.0 in
    (
      core,
      subst (λ m. Covers m sts.template.metadata.labels)
          (sym (dashboard_selector hocon e config dashboard d)) core,
      by_replicant
          (is_exist_replicant e && is_positive e.status.replicant_nodes_status.ready_replicas) core
          (replicant_labels-Covers e t is.1) (listeners_selector lib e config listeners l),
    )
  where
    by_replicant :
        (b : Bool)
        → Covers (default_core_labels e) sts.template.metadata.labels
        → Covers (default_replicant_labels e) rs.template.metadata.labels
        → listeners.spec.selector
          ≡ (if b then default_replicant_labels e else default_core_labels e)
        → Covers listeners.spec.selector (if b then rs else sts).template.metadata.labels
    by_replicant true core replicant h =
        subst (λ m. Covers m rs.template.metadata.labels) (sym h) replicant
    by_replicant false core replicant h =
        subst (λ m. Covers m sts.template.metadata.labels) (sym h) core
