-- ===== src/Agent/Cron/Run.antt =====
-- The summary of a whole run.
use tapioca_money.Base.{
  ◌+◌, ◌≤◌, ◌<◌, ◌/◌, String, ◌≡◌, refl, inl, inr, Option, List, length, arith, Bool-cases, ap, ◌∙◌,
}
use tapioca_money.Base.Double.{Double}
use tapioca_money.Redis.Action.{ok, Result-cases}
use tapioca_money.Agent.Oracle.{is_rebalance_safe}
use tapioca_money.Agent.Oracle.Safety.{IsHealthy, is_rebalance_safe-IsHealthy}
use tapioca_money.Agent.Cron.Types.{
  World, User, CronSummary, PrefetchedVaults, create_empty_summary,
}
use tapioca_money.Agent.Cron.Rebalance.{process_user_rebalance}
use tapioca_money.Agent.Cron.Claim.{process_user_reward_claim}
use tapioca_money.Agent.Cron.Cycle.{claim_phase, process_users_in_parallel, run_cron_cycle}
use tapioca_money.Agent.Cron.Sequence.{after_each, process_users_in_parallel-after_each}
use tapioca_money.Agent.Cron.Totals.{Balanced, rebalance_phase-Totals}

module _ {S N Raw : Type 0} ⦃d : Double N⦄ (w : World S N Raw) where
  -- The rebalance phase, in batches and chunks of a positive size and whatever throws in it, keeps this
  -- of the summary: it has as many details as rebalanced, skipped and failed users together, no more
  -- users were processed, and none counts as claimed.
  pub process_users_in_parallel-Balanced :
      (targeted : Option (List String)) (vaults : PrefetchedVaults N) (users : List User)
      (summary : CronSummary N) (s : S)
      → 0 < w.batch_size
      → 0 < w.concurrency
      → Balanced summary
      → Balanced
          (process_users_in_parallel w users
            (process_user_rebalance w targeted vaults)
            (summary, s)).1.0
  process_users_in_parallel-Balanced targeted vaults users summary s h h' balanced =
      (rebalance_phase-Totals w targeted vaults users summary s h h').0 balanced

  claim_phase-kept :
      (users : List User) (summary merged : CronSummary N) (s : S)
      → (claim_phase w users (summary, s)).0 ≡ ok merged
      → (merged.rebalanced ≡ summary.rebalanced)
        × (merged.skipped ≡ summary.skipped)
        × (merged.errors ≡ summary.errors)
        × (merged.processed ≡ summary.processed)
        × ((claim_phase w users (summary, s)).1.0 ≡ merged)
  unfolding claim_phase
  claim_phase-kept users summary merged s h =
      let ran =
        process_users_in_parallel w users (process_user_reward_claim w) (create_empty_summary, s) in
      elim (Result-cases ran.0) [
        | inr (e, threw) ↦ absurd (ground arith)
        | inl (_, went) ↦ (ground arith, ground arith, ground arith, ground arith, ground arith)
      ]

  -- A run that ends with a summary, in batches and chunks of a positive size: the price feeds were
  -- healthy when it began; its counts of rebalanced, skipped, failed and processed users are those of
  -- processing the active users in their order, each exactly once, from an empty summary; the first
  -- three add up to the number of active users, and the last is at most that number.
  pub run_cron_cycle-counted :
      (targeted : Option (List String)) (s : S) (summary : CronSummary N)
      → 0 < w.batch_size
      → 0 < w.concurrency
      → (run_cron_cycle w targeted s).0 ≡ ok summary
      → IsHealthy w.texts (w.now s / 1000) (w.feeds s)
        × ((users : List User) × ((w.active_users s).0 ≡ ok users)
            × ((vaults : PrefetchedVaults N) × ((w.available_vaults (w.active_users s).1).0
                  ≡ ok vaults)
                × (let last =
                      (after_each w
                        (process_user_rebalance w targeted vaults)
                        users
                        (create_empty_summary, (w.available_vaults (w.active_users s).1).1)).0 in
                    (summary.rebalanced ≡ last.rebalanced)
                    × (summary.skipped ≡ last.skipped)
                    × (summary.errors ≡ last.errors)
                    × (summary.processed ≡ last.processed)))
            × (summary.rebalanced + summary.skipped + summary.errors ≡ length users)
            × (summary.processed ≤ length users))
  unfolding run_cron_cycle
  run_cron_cycle-counted targeted s summary h h' e =
      let now = w.now s / 1000 in
      elim (Bool-cases (is_rebalance_safe w.texts now (w.feeds s)).good) [
        | inr unsafe ↦ absurd (ground arith)
        | inl safe ↦
            let asked = w.active_users s in
            let fetched = w.available_vaults asked.1 in
            elim (Result-cases asked.0) [
              | inr (x, threw) ↦ absurd (ground arith)
              | inl (users, found) ↦ elim (Result-cases fetched.0) [
                | inr (x, threw) ↦ absurd (ground arith)
                | inl (vaults, read) ↦
                    let phase =
                      process_users_in_parallel w users (process_user_rebalance w targeted vaults)
                        (create_empty_summary, fetched.1) in
                    let (keeps, counts) =
                      rebalance_phase-Totals w targeted vaults users create_empty_summary fetched.1
                        h h' in
                    let (same, fewer, none_claimed) = keeps (refl, omega arith, refl) in
                    elim (Result-cases phase.0) [
                      | inr (x, threw) ↦ absurd (ground arith)
                      | inl (_, went) ↦
                          let walked : phase.1
                              ≡ after_each w (process_user_rebalance w targeted vaults) users
                                  (create_empty_summary, fetched.1) =
                            process_users_in_parallel-after_each w
                              (process_user_rebalance w targeted vaults) users
                              (create_empty_summary, fetched.1) h h' went in
                          let (a, b, c, p, _) =
                            claim_phase-kept users phase.1.0 summary phase.1.1 (ground arith) in
                          (
                            (is_rebalance_safe-IsHealthy w.texts now (w.feeds s)).0 safe,
                            (
                              users,
                              found,
                              (
                                vaults,
                                read,
                                (
                                  a ∙ ap (λ q. q.0.rebalanced) walked,
                                  b ∙ ap (λ q. q.0.skipped) walked,
                                  c ∙ ap (λ q. q.0.errors) walked,
                                  p ∙ ap (λ q. q.0.processed) walked,
                                ),
                              ),
                              ground arith,
                              ground arith,
                            ),
                          )
                    ]
              ]
            ]
      ]
