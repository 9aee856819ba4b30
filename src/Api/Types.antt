-- ===== src/Api/Types.antt =====
-- apis/apps/v2beta1/emqx_types.go and status.go: the EMQX resource, with the fields that the
-- reconcilers read or write. A pointer field is an Option.
use emqx_operator.Prelude.{ℕ, ℤ, String, Bool, Option, List}
use emqx_operator.Kube.{Condition, Labels}
use emqx_operator.Kube.Pods.{
  ContainerPort, EnvVar, VolumeMount, Volume, Container, ClaimSpec, Metadata, ServiceSpec,
}

pub record EvacuationStrategy : Type 0 where
  pub wait_takeover : ℤ
  pub conn_evict_rate : ℤ
  pub sess_evict_rate : ℤ

pub record UpdateStrategy : Type 0 where
  pub type : String
  pub initial_delay_seconds : ℤ
  pub evacuation_strategy : EvacuationStrategy

-- The fields of EMQXReplicantTemplateSpec that go into a pod template; the claims are those of
-- EMQXCoreTemplateSpec, `none` for the zero value.
pub record TemplateSpec : Type 0 where
  pub node_selector : Labels
  pub node_name : String
  pub affinity : String
  pub tole_rations : List String
  pub tolerations : List String
  pub topology_spread_constraints : List String
  pub min_available : Option String
  pub max_unavailable : Option String
  pub command : List String
  pub args : List String
  pub ports : List ContainerPort
  pub env : List EnvVar
  pub env_from : List String
  pub resources : String
  pub pod_security_context : String
  pub container_security_context : String
  pub init_containers : List Container
  pub extra_containers : List Container
  pub extra_volumes : List Volume
  pub extra_volume_mounts : List VolumeMount
  pub liveness_probe : String
  pub readiness_probe : String
  pub startup_probe : String
  pub lifecycle : String
  pub volume_claim_templates : Option ClaimSpec

-- EMQXCoreTemplate and EMQXReplicantTemplate; `replicas` is Spec.Replicas.
pub record Template : Type 0 where
  pub labels : Labels
  pub annotations : Labels
  pub replicas : Option ℤ
  pub spec : TemplateSpec

pub record ServiceTemplate : Type 0 where
  pub enabled : Option Bool
  pub metadata : Metadata
  pub spec : ServiceSpec

pub record KeyRef : Type 0 where
  pub secret_name : String
  pub secret_key : String

pub record SecretRef : Type 0 where
  pub key : KeyRef
  pub secret : KeyRef

pub record BootstrapApiKey : Type 0 where
  pub key : String
  pub secret : String
  pub secret_ref : Option SecretRef

pub record Config : Type 0 where
  pub mode : String
  pub text : String

pub record EmqxSpec : Type 0 where
  pub image : String
  pub image_pull_policy : String
  pub image_pull_secrets : List String
  pub service_account_name : String
  pub bootstrap_api_keys : List BootstrapApiKey
  pub config : Config
  pub cluster_domain : String
  pub revision_history_limit : Option ℤ
  pub update_strategy : UpdateStrategy
  pub core_template : Template
  pub replicant_template : Option Template
  pub dashboard_service_template : Option ServiceTemplate
  pub listeners_service_template : Option ServiceTemplate

-- EMQXNode; `uptime` and `session` are int64 counts that the API reports.
pub record EmqxNode : Type 0 where
  pub controller_uid : String
  pub pod_uid : String
  pub node : String
  pub node_status : String
  pub version : String
  pub role : String
  pub edition : String
  pub session : ℤ
  pub uptime : ℤ

pub record EmqxNodesStatus : Type 0 where
  pub replicas : ℤ
  pub ready_replicas : ℤ
  pub current_revision : String
  pub current_replicas : ℤ
  pub update_revision : String
  pub update_replicas : ℤ
  pub collision_count : Option ℤ

pub record NodeEvacuationStatus : Type 0 where
  pub node : String
  pub state : String

pub record EmqxStatus : Type 0 where
  pub conditions : List Condition
  pub core_nodes : List EmqxNode
  pub core_nodes_status : EmqxNodesStatus
  pub replicant_nodes : List EmqxNode
  pub replicant_nodes_status : EmqxNodesStatus
  pub node_evacuations_status : List NodeEvacuationStatus

pub record Emqx : Type 0 where
  pub name : String
  pub namespace : String
  pub labels : Labels
  pub annotations : Labels
  pub deletion_timestamp : Option ℕ
  pub spec : EmqxSpec
  pub status : EmqxStatus
