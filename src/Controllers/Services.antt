-- ===== src/Controllers/Services.antt =====
-- controllers/apps/v2beta1/add_headless_svc.go and add_svc.go: the services of an EMQX resource.
-- `none` is a panic.
pub mod Selecting
use emqx_operator.Prelude.{
  ℤ, pos, is_positive, String, Bool, true, false, not, ◌&&◌, Option, none, some, ◌>>=◌, List, [],
  ◌∷◌, ◌++◌, ◌==◌, if◌then◌else◌,
}
use emqx_operator.Errors.{Error, other, Result, ok, err}
use emqx_operator.Http.{Response}
use emqx_operator.Kube.{Labels}
use emqx_operator.Kube.Pods.{Service, ServiceSpec, ServicePort, Metadata}
use emqx_operator.Api.Types.{Emqx, ServiceTemplate}
use emqx_operator.Api.Status
use emqx_operator.Api.Status.{is_condition_true}
use emqx_operator.Api.Labels.{
  clone_and_merge_map, default_labels, default_core_labels, default_replicant_labels,
  is_exist_replicant,
}
use emqx_operator.Api.Names.{
  NamespacedName, headless_service_namespaced_name, dashboard_service_namespaced_name,
  listeners_service_namespaced_name,
}
use emqx_operator.Api.Ports.{merge_service_ports}
use emqx_operator.Api.Dashboard.{Hocon, get_dashboard_service_port}
use emqx_operator.Api.Listeners.{Library, Ports, get_listeners_service_ports}
use emqx_operator.Controllers.Builders.Named.{or_nil}
use emqx_operator.Controllers.Reconcile.{SubResult, after, fail}

abbrev tcp_port : String → ℤ → String → ServicePort
tcp_port name port text = record {
  name = name;
  protocol = "TCP";
  port = port;
  target_port = text;
  node_port = pos 0;
}

unfoldable pub generate_headless_service : Emqx → Service
generate_headless_service instance' =
    let name = headless_service_namespaced_name instance' in
    record {
      name = name.name;
      namespace = name.namespace;
      metadata = record {
        annotations = [];
        labels = clone_and_merge_map (default_labels instance') (instance'.labels ∷ []);
      };
      spec = record {
        type = "ClusterIP";
        cluster_ip = "None";
        session_affinity = "None";
        publish_not_ready_addresses = true;
        selector = default_core_labels instance';
        ports =
            tcp_port "erlang-dist" (pos 4370) "4370" ∷ tcp_port "gen-rpc" (pos 5369) "5369" ∷ [];
        others = "";
      };
    }

-- The zero value of corev1.ServiceSpec.
abbrev pub empty_spec : ServiceSpec
empty_spec = record {
  type = "";
  cluster_ip = "";
  session_affinity = "";
  publish_not_ready_addresses = false;
  selector = [];
  ports = [];
  others = "";
}

abbrev pub no_metadata : Metadata
no_metadata = record { annotations = []; labels = [] }

-- The metadata and the spec that a template gives, unless it disables the service. A template
-- without the flag panics.
abbrev pub templated : Option ServiceTemplate → Option (Option (Metadata × ServiceSpec))
templated none = some (some (no_metadata, empty_spec))
templated (some t) =
    t.enabled >>= λ enabled. some (if not enabled then none else some (t.metadata, t.spec))

abbrev pub service :
    NamespacedName → Emqx → Labels → List ServicePort → Metadata × ServiceSpec → Service
service name instance' selector ports (metadata, spec) = record {
  name = name.name;
  namespace = name.namespace;
  metadata = record metadata {
    labels = clone_and_merge_map (default_labels instance') (metadata.labels ∷ []);
  };
  spec = record spec { ports = merge_service_ports spec.ports ports; selector = selector };
}

abbrev pub dashboard_for :
    Emqx → List ServicePort → Option (Metadata × ServiceSpec) → Option Service
dashboard_for instance' ports none = none
dashboard_for instance' [] (some given) = none
dashboard_for instance' (p ∷ ps) (some given) = some (
    service (dashboard_service_namespaced_name instance') instance' (default_core_labels instance')
      (p ∷ ps) given)

unfoldable pub generate_dashboard_service : Hocon → Emqx → String → Option (Option Service)
unfolding get_dashboard_service_port
generate_dashboard_service hocon instance' config =
    templated instance'.spec.dashboard_service_template >>= λ given.
    some (dashboard_for instance' (or_nil (get_dashboard_service_port hocon config)) given)

abbrev pub default_listeners : List ServicePort
default_listeners =
    tcp_port "tcp-default" (pos 1883) "1883"
    ∷ tcp_port "ssl-default" (pos 8883) "8883"
    ∷ tcp_port "ws-default" (pos 8083) "8083"
    ∷ tcp_port "wss-default" (pos 8084) "8084"
    ∷ []

abbrev pub or_default : List ServicePort → List ServicePort
or_default [] = default_listeners
or_default (p ∷ ps) = p ∷ ps

abbrev pub listener_selector : Emqx → Labels
listener_selector instance' =
    if is_exist_replicant instance'
      && is_positive instance'.status.replicant_nodes_status.ready_replicas
    then default_replicant_labels instance'
    else default_core_labels instance'

abbrev pub listener_for : Emqx → List ServicePort → Option (Metadata × ServiceSpec) → Option Service
listener_for instance' ports none = none
listener_for instance' ports (some given) = some (
    service (listeners_service_namespaced_name instance') instance' (listener_selector instance')
      (or_default ports) given)

abbrev pub with_template :
    Option (Option (Metadata × ServiceSpec)) → Ports → Emqx → Option (Option Service)
with_template none ports instance' = none
with_template (some none) ports instance' = some none
with_template (some (some given)) ports instance' =
    ports >>= λ r. some (listener_for instance' (or_nil r) (some given))

unfoldable pub generate_listener_service :
    {V : Type 0} → Library V → Emqx → String → Option (Option Service)
unfolding get_listeners_service_ports is_exist_replicant
generate_listener_service lib instance' config =
    with_template (templated instance'.spec.listeners_service_template)
      (get_listeners_service_ports lib config) instance'

-- Request("GET", "api/v5/configs").
abbrev pub Get : Type 0
Get = (path : String) → Result Response

unfoldable pub get_emqx_configs_by_api : Get → Result String
get_emqx_configs_by_api get = elim (get "api/v5/configs") [
  | err e ↦ err e
  | ok resp ↦
      if not (resp.status_code == 200) then err (other "failed to get API") else ok resp.body
]

abbrev pub listed_service : Option Service → List Service
listed_service none = []
listed_service (some s) = s ∷ []

-- The services that are handed to CreateOrUpdateList, and the result, for its error.
pub record Published : Type 0 where
  pub services : List Service
  pub result : SubResult

abbrev pub published : List Service → Option Error → Published
published services none = record { services = services; result = after 0 }
published services (some e) = record { services = services; result = fail e }

module _ (create_or_update_list : List Service → Option Error) where
  -- addHeadlessSvc.reconcile
  unfoldable pub reconcile_headless : Emqx → Published
  unfolding generate_headless_service
  reconcile_headless instance' =
      let services = generate_headless_service instance' ∷ [] in
      published services (create_or_update_list services)

  abbrev pub publish : Option Service → Option Service → Published
  publish dashboard listeners =
      let services = listed_service dashboard ++ listed_service listeners in
      published services (create_or_update_list services)

  abbrev pub with_configs :
      {V : Type 0} → Hocon → Library V → Emqx → Result String → Option Published
  with_configs hocon lib instance' (err e) = some (published [] (some e))
  with_configs hocon lib instance' (ok config) =
      generate_dashboard_service hocon instance' config >>= λ dashboard.
      (generate_listener_service lib instance' config >>= λ listeners.
      some (publish dashboard listeners))

  -- addSvc.reconcile
  unfoldable pub reconcile_services :
      {V : Type 0} → Hocon → Library V → Option Get → Emqx → Option Published
  unfolding get_emqx_configs_by_api generate_dashboard_service generate_listener_service
      is_condition_true
  reconcile_services hocon lib none instance' = some (published [] none)
  reconcile_services hocon lib (some get) instance' =
      if not (is_condition_true instance'.status Status.core_nodes_ready)
      then some (published [] none)
      else with_configs hocon lib instance' (get_emqx_configs_by_api get)
