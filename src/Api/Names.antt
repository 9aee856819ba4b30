-- ===== src/Api/Names.antt =====
-- apis/apps/v2beta1/names.go: the names of the objects of an EMQX resource, all in its namespace.
use emqx_operator.Prelude.{String, ◌+++◌}
use emqx_operator.Api.Types.{Emqx}

-- types.NamespacedName
pub record NamespacedName : Type 0 where
  pub namespace : String
  pub name : String

abbrev suffixed : Emqx → String → NamespacedName
suffixed instance' suffix = record {
  namespace = instance'.namespace;
  name = instance'.name +++ suffix;
}

abbrev pub core_namespaced_name : Emqx → NamespacedName
core_namespaced_name instance' = suffixed instance' "-core"

abbrev pub replicant_namespaced_name : Emqx → NamespacedName
replicant_namespaced_name instance' = suffixed instance' "-replicant"

abbrev pub headless_service_namespaced_name : Emqx → NamespacedName
headless_service_namespaced_name instance' = suffixed instance' "-headless"

abbrev pub dashboard_service_namespaced_name : Emqx → NamespacedName
dashboard_service_namespaced_name instance' = suffixed instance' "-dashboard"

abbrev pub listeners_service_namespaced_name : Emqx → NamespacedName
listeners_service_namespaced_name instance' = suffixed instance' "-listeners"

abbrev pub bootstrap_api_key_namespaced_name : Emqx → NamespacedName
bootstrap_api_key_namespaced_name instance' = suffixed instance' "-bootstrap-api-key"

abbrev pub node_cookie_namespaced_name : Emqx → NamespacedName
node_cookie_namespaced_name instance' = suffixed instance' "-node-cookie"

abbrev pub configs_namespaced_name : Emqx → NamespacedName
configs_namespaced_name instance' = suffixed instance' "-configs"
