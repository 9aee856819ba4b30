-- ===== src/Kube.antt =====
-- The Kubernetes objects that the operator reads and writes, with the fields that its code uses,
-- and the API client, which is not under the repository's own sources: a parameter. Times are
-- readings of the clock in nanoseconds. A nil map is an empty list.
pub mod Pods
use emqx_operator.Prelude.{ℕ, ℤ, String, Bool, Option, List, true, false}

-- metav1.ConditionStatus and corev1.ConditionStatus; `unset` is the empty string.
pub data ConditionStatus : Type 0 where
  is_true is_false is_unknown unset : ConditionStatus

abbrev pub status_true : ConditionStatus → Bool
status_true is_true = true
status_true _ = false

-- metav1.Condition
pub record Condition : Type 0 where
  pub type : String
  pub status : ConditionStatus
  pub last_transition_time : ℕ
  pub reason : String
  pub message : String

abbrev pub Labels : Type 0
Labels = List (String × String)

-- appsv1.StatefulSet and appsv1.ReplicaSet: the code reads the same fields of both.
-- `spec_replicas` is the pointer *Spec.Replicas.
pub record Workload : Type 0 where
  pub name : String
  pub namespace : String
  pub uid : String
  pub labels : Labels
  pub creation_timestamp : ℕ
  pub deletion_timestamp : Option ℕ
  pub generation : ℕ
  pub service_name : String
  pub match_labels : Labels
  pub spec_replicas : Option ℤ
  pub status_replicas : ℤ
  pub ready_replicas : ℤ
  pub observed_generation : ℕ
  pub current_replicas : ℤ
  pub current_revision : String

pub record PodCondition : Type 0 where
  pub type : String
  pub status : ConditionStatus
  pub last_transition_time : Option ℕ

-- corev1.Pod; `controller_uid` is what metav1.GetControllerOf finds in the owner references.
pub record Pod : Type 0 where
  pub name : String
  pub namespace : String
  pub uid : String
  pub creation_timestamp : ℕ
  pub deletion_timestamp : Option ℕ
  pub annotations : Labels
  pub pod_ip : String
  pub phase : String
  pub node_name : String
  pub conditions : List PodCondition
  pub controller_uid : Option String

-- corev1.Event
pub record Event : Type 0 where
  pub reason : String
  pub last_timestamp : ℕ
  pub creation_timestamp : ℕ

pub record Claim : Type 0 where
  pub name : String
  pub deletion_timestamp : Option ℕ

-- client.Client.List in a namespace, by labels. The code discards the error of every List, and
-- then walks the list that it holds, which is the answer here.
pub record Client : Type 0 where
  pub stateful_sets : String → Labels → List Workload
  pub replica_sets : String → Labels → List Workload
  pub pods : String → Labels → List Pod
  pub claims : String → Labels → List Claim
