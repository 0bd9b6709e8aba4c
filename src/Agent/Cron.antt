-- ===== src/Agent/Cron.antt =====
-- lib/agent/cron-orchestration-service.ts: the run that rebalances the users and claims their rewards.
-- `Types` is the summary and what the run calls, `Rebalance` and `Claim` process one user, `Cycle` is
-- the loop over the users and the run.
pub mod Types
pub mod Rebalance
pub mod Claim
pub mod Cycle
pub mod Accounting
pub mod Sequence
pub mod Slices
pub mod Totals
pub mod Gates
pub mod Run
pub mod Losses
mod Tests
