-- ===== src/V1beta4.antt =====
-- apis/apps/v1beta4 and controllers/apps/v1beta4: the older API of EmqxBroker and EmqxEnterprise, and
-- what its controller does for both. An instance says which of the two it is.
pub mod Status
pub mod Sets
pub mod UpdateStatus
pub mod BlueGreen
pub mod NewSet
pub mod PodConditions
pub mod Listener
use emqx_operator.Prelude.{ℕ, ℤ, String, Bool, Option, List}
use emqx_operator.Kube.{ConditionStatus, Labels, Client, Workload}
use emqx_operator.Errors.{Error, Result}
use emqx_operator.Kube.Pods.{Service}
use emqx_operator.Api.Types.{EvacuationStrategy}

pub record Condition : Type 0 where
  pub type : String
  pub status : ConditionStatus
  pub last_update_time : ℕ
  pub last_transition_time : ℕ
  pub reason : String
  pub message : String

pub record EmqxNode : Type 0 where
  pub node : String
  pub node_status : String

-- EmqxEvacuationStats, whose numbers may be missing, and EmqxEvacuationStatus.
pub record EvacuationStats : Type 0 where
  pub current_connected : Option ℤ
  pub current_sessions : Option ℤ

pub record EvacuationStatus : Type 0 where
  pub node : String
  pub state : String
  pub stats : EvacuationStats

-- EmqxBlueGreenUpdateStatus; a nil list of evacuations is `none`.
pub record BlueGreenStatus : Type 0 where
  pub origin_stateful_set : String
  pub current_stateful_set : String
  pub started_at : Option ℕ
  pub evacuations_status : Option (List EvacuationStatus)

-- EmqxBrokerStatus and EmqxEnterpriseStatus; only the second has the last field.
pub record EmqxStatus : Type 0 where
  pub replicas : ℤ
  pub ready_replicas : ℤ
  pub emqx_nodes : List EmqxNode
  pub current_stateful_set_version : String
  pub conditions : List Condition
  pub blue_green : Option BlueGreenStatus

-- The strategy of EmqxBlueGreenUpdate.
pub record BlueGreenUpdate : Type 0 where
  pub initial_delay_seconds : ℤ
  pub evacuation_strategy : EvacuationStrategy

-- EmqxBroker and EmqxEnterprise: `config_name` and `dns_name` are the entries "name" and
-- "cluster.dns.name" of the EMQX configuration. Of the service template the namespace is not read.
pub record Emqx : Type 0 where
  pub is_enterprise : Bool
  pub name : String
  pub namespace : String
  pub labels : Labels
  pub replicas : Option ℤ
  pub config_name : String
  pub dns_name : String
  pub service_template : Service
  pub blue_green_update : Option BlueGreenUpdate
  pub status : EmqxStatus

-- The cluster: its lists, whose errors count here, and a Get of a set by its name.
pub record Cluster : Type 0 where
  pub client : Client
  pub sets_error : Option Error
  pub pods_error : Option Error
  pub get_set : String → Result Workload
