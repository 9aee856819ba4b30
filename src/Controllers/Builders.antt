-- ===== src/Controllers/Builders.antt =====
-- controllers/apps/v2beta1/add_emqx_core.go and add_emqx_repl.go: the pod template that the two
-- generators share, and the steps that name a new set by the hash of its template. That `append` may
-- write behind the end of a slice of the resource is left out.
pub mod Core
pub mod Replicant
pub mod Named
pub mod Mounts
pub mod Labelled
use emqx_operator.Prelude.{String, ◌+++◌, true, false, List, [], ◌∷◌, ◌++◌}
use emqx_operator.Kube.{Labels}
use emqx_operator.Kube.Pods.{
  EnvVar, value, secret_key_ref, VolumeMount, Volume, VolumeSource, secret, config_map, empty_dir,
  Container, PodSpec, PodTemplate,
}
use emqx_operator.Api.Types.{Emqx, EmqxSpec, Template}
use emqx_operator.Api.Names.{
  headless_service_namespaced_name, node_cookie_namespaced_name, bootstrap_api_key_namespaced_name,
  configs_namespaced_name,
}
use emqx_operator.Controllers.PodConditions.{pod_on_serving}

abbrev pub default_container_name : String
default_container_name = "emqx"

abbrev pub env : String → String → EnvVar
env name v = record { name = name; source = value v }

-- The variables of both kinds of pods, by which nodes find each other.
abbrev pub discovery_env : Emqx → List EnvVar
discovery_env instance' =
    env "EMQX_CLUSTER__DISCOVERY_STRATEGY" "dns"
    ∷ env "EMQX_CLUSTER__DNS__RECORD_TYPE" "srv"
    ∷ env "EMQX_CLUSTER__DNS__NAME" (
        (headless_service_namespaced_name instance').name
        +++ "."
        +++ instance'.namespace
        +++ ".svc."
        +++ instance'.spec.cluster_domain)
    ∷ []

-- The variables of both kinds of pods, for a role.
abbrev pub node_env : Emqx → String → List EnvVar
node_env instance' role =
    env "EMQX_NODE__DATA_DIR" "data"
    ∷ env "EMQX_NODE__ROLE" role
    ∷ record {
      name = "EMQX_NODE__COOKIE";
      source = secret_key_ref (node_cookie_namespaced_name instance').name "node_cookie";
    }
    ∷ env "EMQX_API_KEY__BOOTSTRAP_FILE" "\"/opt/emqx/data/bootstrap_api_key\""
    ∷ []

abbrev file_mount : String → String → String → VolumeMount
file_mount name mount_path sub_path = record {
  name = name;
  mount_path = mount_path;
  sub_path = sub_path;
  read_only = true;
}

abbrev directory_mount : String → String → VolumeMount
directory_mount name mount_path = record {
  name = name;
  mount_path = mount_path;
  sub_path = "";
  read_only = false;
}

-- The mounts of the EMQX container in the pods of a set of the given base name.
abbrev pub volume_mounts : String → List VolumeMount
volume_mounts name =
    file_mount "bootstrap-api-key" "/opt/emqx/data/bootstrap_api_key" "bootstrap_api_key"
    ∷ file_mount "bootstrap-config" "/opt/emqx/etc/emqx.conf" "emqx.conf"
    ∷ directory_mount (name +++ "-log") "/opt/emqx/log"
    ∷ directory_mount (name +++ "-data") "/opt/emqx/data"
    ∷ []

abbrev pub volume : String → VolumeSource → Volume
volume name source = record { name = name; source = source }

abbrev pub bootstrap_volumes : Emqx → String → List Volume
bootstrap_volumes instance' name =
    volume "bootstrap-api-key" (secret (bootstrap_api_key_namespaced_name instance').name)
    ∷ volume "bootstrap-config" (config_map (configs_namespaced_name instance').name)
    ∷ volume (name +++ "-log") empty_dir
    ∷ []

-- The EMQX container, with the operator's variables before the template's.
abbrev pub emqx_container : Emqx → Template → String → List EnvVar → Container
emqx_container instance' t name variables = record {
  name = default_container_name;
  image = instance'.spec.image;
  image_pull_policy = instance'.spec.image_pull_policy;
  command = t.spec.command;
  args = t.spec.args;
  ports = t.spec.ports;
  env = variables ++ t.spec.env;
  env_from = t.spec.env_from;
  resources = t.spec.resources;
  security_context = t.spec.container_security_context;
  liveness_probe = t.spec.liveness_probe;
  readiness_probe = t.spec.readiness_probe;
  startup_probe = t.spec.startup_probe;
  lifecycle = t.spec.lifecycle;
  volume_mounts = volume_mounts name ++ t.spec.extra_volume_mounts;
}

abbrev pub pod_spec : Emqx → Template → Container → List Volume → PodSpec
pod_spec instance' t container volumes = record {
  readiness_gates = pod_on_serving ∷ [];
  image_pull_secrets = instance'.spec.image_pull_secrets;
  service_account_name = instance'.spec.service_account_name;
  security_context = t.spec.pod_security_context;
  affinity = t.spec.affinity;
  tolerations = t.spec.tolerations ++ t.spec.tole_rations;
  topology_spread_constraints = t.spec.topology_spread_constraints;
  node_name = t.spec.node_name;
  node_selector = t.spec.node_selector;
  init_containers = t.spec.init_containers;
  containers = container ∷ t.spec.extra_containers;
  volumes = volumes;
}

abbrev pub pod_template : Template → Labels → PodSpec → PodTemplate
pod_template t labels spec = record {
  metadata = record { annotations = t.annotations; labels = labels };
  spec = spec;
}
