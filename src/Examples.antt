-- ===== src/Examples.antt =====
-- Runs of the theorems at small clusters.
mod Fixtures
mod Conditions
mod Machine
mod Status
mod Scaling
mod Rebalancing
mod Reconciling
pub mod Building
pub mod Writing
pub mod Older
