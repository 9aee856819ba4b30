-- ===== src/Examples/Fixtures.antt =====
-- A cluster of one core node, with its resource, its sets and its pods, and what the API answers.
use emqx_operator.Prelude.{ℕ, ℤ, pos, String, false, Option, none, some, List, [], ◌∷◌}
use emqx_operator.Errors.{ok}
use emqx_operator.Http.{Requester, Decoder}
use emqx_operator.Kube.{Client, Condition, is_true, Workload, Pod}
use emqx_operator.Api.Types.{Emqx, EmqxSpec, EmqxStatus, EmqxNode, EmqxNodesStatus, Template}
use emqx_operator.Api.Labels.{labels_pod_template_hash_key}

abbrev pub true_at : ℕ → String → Condition
true_at t type = record {
  type = type;
  status = is_true;
  last_transition_time = t;
  reason = type;
  message = "";
}

-- A set of the given name, revision and number of replicas.
abbrev pub set_of : String → String → ℕ → Workload
set_of name revision replicas = record {
  name = name;
  namespace = "default";
  uid = name;
  labels = (labels_pod_template_hash_key, revision) ∷ [];
  creation_timestamp = 1;
  deletion_timestamp = none;
  generation = 1;
  service_name = "headless";
  match_labels = [];
  spec_replicas = some (pos replicas);
  status_replicas = pos replicas;
  ready_replicas = pos replicas;
  observed_generation = 1;
  current_replicas = pos replicas;
  current_revision = revision;
}

abbrev pub pod_of : String → String → Pod
pod_of name controller = record {
  name = name;
  namespace = "default";
  uid = name;
  creation_timestamp = 1;
  deletion_timestamp = none;
  annotations = [];
  pod_ip = name;
  phase = "Running";
  node_name = "node-1";
  conditions = [];
  controller_uid = some controller;
}

abbrev pub client_of : List Workload → List Workload → List Pod → Client
client_of stateful_sets replica_sets pods = record {
  stateful_sets = λ namespace labels. stateful_sets;
  replica_sets = λ namespace labels. replica_sets;
  pods = λ namespace labels. pods;
  claims = λ namespace labels. [];
}

abbrev pub counts : ℕ → String → String → EmqxNodesStatus
counts n current update = record {
  replicas = pos n;
  ready_replicas = pos n;
  current_revision = current;
  current_replicas = pos n;
  update_revision = update;
  update_replicas = pos n;
  collision_count = none;
}

abbrev pub status_of : List Condition → String → String → EmqxStatus
status_of conditions current update = record {
  conditions = conditions;
  core_nodes = [];
  core_nodes_status = counts 1 current update;
  replicant_nodes = [];
  replicant_nodes_status = counts 0 "" "";
  node_evacuations_status = [];
}

-- A template of one replica that sets nothing else.
abbrev pub template : Template
template = record {
  labels = [];
  annotations = [];
  replicas = some (pos 1);
  spec = record {
    node_selector = [];
    node_name = "";
    affinity = "";
    tole_rations = [];
    tolerations = [];
    topology_spread_constraints = [];
    min_available = none;
    max_unavailable = some "1";
    command = [];
    args = [];
    ports = [];
    env = [];
    env_from = [];
    resources = "";
    pod_security_context = "";
    container_security_context = "";
    init_containers = [];
    extra_containers = [];
    extra_volumes = [];
    extra_volume_mounts = [];
    liveness_probe = "";
    readiness_probe = "";
    startup_probe = "";
    lifecycle = "";
    volume_claim_templates = none;
  };
}

abbrev pub spec_of : Option ℤ → EmqxSpec
spec_of limit = record {
  image = "emqx:5.8";
  image_pull_policy = "Always";
  image_pull_secrets = [];
  service_account_name = "";
  bootstrap_api_keys = [];
  config = record { mode = "Merge"; text = "" };
  cluster_domain = "cluster.local";
  revision_history_limit = limit;
  update_strategy = record {
    type = "Recreate";
    initial_delay_seconds = pos 10;
    evacuation_strategy = record {
      wait_takeover = pos 10;
      conn_evict_rate = pos 1000;
      sess_evict_rate = pos 1000;
    };
  };
  core_template = template;
  replicant_template = none;
  dashboard_service_template = none;
  listeners_service_template = none;
}

abbrev pub emqx_of : Option ℤ → EmqxStatus → Emqx
emqx_of limit status = record {
  name = "emqx";
  namespace = "default";
  labels = [];
  annotations = [];
  deletion_timestamp = none;
  spec = spec_of limit;
  status = status;
}

abbrev pub node_of : String → String → EmqxNode
node_of name role = record {
  controller_uid = "";
  pod_uid = "";
  node = name;
  node_status = "running";
  version = "5.8.0";
  role = role;
  edition = "Enterprise";
  session = pos 0;
  uptime = pos 0;
}

-- Answers every request with status 200 and an empty body.
abbrev pub requester : Requester
requester = record { request = λ method path body. ok (record { status_code = 200; body = "" }) }

abbrev pub decoder_of : List EmqxNode → Decoder
decoder_of nodes = record {
  nodes = λ body. some nodes;
  node = λ body. none;
  evacuations = λ body. some [];
  already_started = λ body. false;
}
