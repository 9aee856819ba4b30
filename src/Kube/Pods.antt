-- ===== src/Kube/Pods.antt =====
-- The objects that the operator writes: pod templates and what owns them, services, secrets. A value
-- that the code passes on and never reads is its text.
use emqx_operator.Prelude.{ℤ, String, Bool, Option, List}
use emqx_operator.Kube.{Labels}

-- corev1.ServicePort and corev1.ContainerPort; a target port is what intstr prints of it.
pub record ServicePort : Type 0 where
  pub name : String
  pub protocol : String
  pub port : ℤ
  pub target_port : String
  pub node_port : ℤ

pub record ContainerPort : Type 0 where
  pub name : String
  pub container_port : ℤ
  pub protocol : String

-- corev1.EnvVar, by a value or from a field of the pod or a key of a secret.
pub data EnvSource : Type 0 where
  value field_ref other : String → EnvSource
  secret_key_ref : (name key : String) → EnvSource

pub record EnvVar : Type 0 where
  pub name : String
  pub source : EnvSource

pub record VolumeMount : Type 0 where
  pub name : String
  pub mount_path : String
  pub sub_path : String
  pub read_only : Bool

pub data VolumeSource : Type 0 where
  secret config_map other : String → VolumeSource
  empty_dir : VolumeSource

pub record Volume : Type 0 where
  pub name : String
  pub source : VolumeSource

-- corev1.Container
pub record Container : Type 0 where
  pub name : String
  pub image : String
  pub image_pull_policy : String
  pub command : List String
  pub args : List String
  pub ports : List ContainerPort
  pub env : List EnvVar
  pub env_from : List String
  pub resources : String
  pub security_context : String
  pub liveness_probe : String
  pub readiness_probe : String
  pub startup_probe : String
  pub lifecycle : String
  pub volume_mounts : List VolumeMount

-- corev1.PodSpec
pub record PodSpec : Type 0 where
  pub readiness_gates : List String
  pub image_pull_secrets : List String
  pub service_account_name : String
  pub security_context : String
  pub affinity : String
  pub tolerations : List String
  pub topology_spread_constraints : List String
  pub node_name : String
  pub node_selector : Labels
  pub init_containers : List Container
  pub containers : List Container
  pub volumes : List Volume

pub record Metadata : Type 0 where
  pub annotations : Labels
  pub labels : Labels

pub record PodTemplate : Type 0 where
  pub metadata : Metadata
  pub spec : PodSpec

-- corev1.PersistentVolumeClaimSpec
pub record ClaimSpec : Type 0 where
  pub volume_mode : Option String
  pub others : String

pub record ClaimTemplate : Type 0 where
  pub name : String
  pub namespace : String
  pub labels : Labels
  pub spec : ClaimSpec

-- appsv1.StatefulSet and appsv1.ReplicaSet as the operator writes them; a replica set has neither
-- a service, nor a policy, nor claims.
pub data SetKind : Type 0 where
  stateful_set replica_set : SetKind

pub record SetObject : Type 0 where
  pub kind : SetKind
  pub name : String
  pub namespace : String
  pub metadata : Metadata
  pub service_name : String
  pub replicas : Option ℤ
  pub match_labels : Labels
  pub pod_management_policy : String
  pub template : PodTemplate
  pub volume_claim_templates : List ClaimTemplate

-- corev1.ServiceSpec
pub record ServiceSpec : Type 0 where
  pub type : String
  pub cluster_ip : String
  pub session_affinity : String
  pub publish_not_ready_addresses : Bool
  pub selector : Labels
  pub ports : List ServicePort
  pub others : String

pub record Service : Type 0 where
  pub name : String
  pub namespace : String
  pub metadata : Metadata
  pub spec : ServiceSpec

-- corev1.Secret, with its strings, and corev1.ConfigMap.
pub record DataObject : Type 0 where
  pub name : String
  pub namespace : String
  pub labels : Labels
  pub entries : Labels
