-- ===== src/Controllers.antt =====
-- controllers/apps/v2beta1: the reconcilers of the EMQX and Rebalance resources.
pub mod Sets
pub mod StatusMachine
pub mod Builders
pub mod Nodes
pub mod PodConditions
pub mod Evacuation
pub mod SyncPods
pub mod SyncSets
pub mod UpdateStatus
pub mod Rebalance
pub mod Reconcile
pub mod AddSets
pub mod Bootstrap
pub mod SyncConfig
pub mod Services
pub mod Budgets
