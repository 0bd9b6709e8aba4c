-- ===== src/Agent.antt =====
-- lib/agent and lib/shared: the pause states of vaults and the decision to rebalance.
pub mod Pause
pub mod Decision
pub mod Rebalance
pub mod Session
pub mod Registration
pub mod Resolve
pub mod Oracle
pub mod Risk
pub mod VaultOperation
pub mod Cron
mod Tests
