-- ===== src/Api.antt =====
-- apis/apps/v2beta1: the custom resources of the operator and the methods on them.
pub mod Types
pub mod Status
pub mod Labels
pub mod Ports
pub mod Names
pub mod Dashboard
pub mod Rebalance
pub mod Listeners
