-- ===== src/Agent/Cron/Losses.antt =====
-- Where a log that cannot be written changes what a run counts.
use tapioca_money.Base.{
  suc, ◌+◌, String, ◌≡◌, true, some, none, List, arith, ◌∷◌, [], length, length-append,
}
use tapioca_money.Base.Double.{Double}
use tapioca_money.Redis.Action.{ok, err}
use tapioca_money.Security.Authorization.{Authorization}
use tapioca_money.Agent.Decision.{RebalanceDecision}
use tapioca_money.Agent.Cron.Types.{
  World, User, CronSummary, Detail, ExecutionArguments, ExecutionResult, Rewards,
}
use tapioca_money.Agent.Cron.Rebalance.{
  prepare, smart_account_address, task_of, log_rebalance_action, execute_and_log,
  execute_rebalance_transaction, execute_and_count,
}
use tapioca_money.Agent.Cron.Claim.{log_claim_action, after_claim, claim_and_count}
use tapioca_money.Agent.Cron.Cycle.{process_locked}

module _ {S N Raw : Type 0} ⦃d : Double N⦄ (w : World S N Raw) (user : User) where
  -- A rebalance whose execution has succeeded, when its log as a success throws and its log as a failure
  -- is written: the user counts as failed and not as rebalanced, and the run ends in the state after that
  -- log, so that the operation is not counted in the day's budget.
  pub execute_and_count-log_lost :
      (auth : Authorization) (decision : RebalanceDecision N) (summary : CronSummary N)
      (s t u v : S) (arguments : ExecutionArguments) (result : ExecutionResult) (e : String)
      → prepare w user.wallet_address auth decision ≡ ok arguments
      → w.execute_rebalance (smart_account_address auth) arguments s ≡ (ok result, t)
      → result.success ≡ true
      → log_rebalance_action w user.id decision (some (task_of w result t)) "success" none t
        ≡ (err e, u)
      → log_rebalance_action w user.id decision none "failed" (some e) u ≡ (ok tt, v)
      → ((execute_and_count w user auth decision (summary, s)).1.1 ≡ v)
        × ((execute_and_count w user auth decision (summary, s)).1.0.rebalanced
            ≡ summary.rebalanced)
        × ((execute_and_count w user auth decision (summary, s)).1.0.errors ≡ suc summary.errors)
  unfolding execute_and_count execute_rebalance_transaction execute_and_log
  execute_and_count-log_lost auth decision summary s t u v arguments result e ready ran good lost
        wrote =
      (ground arith, ground arith, ground arith)

  -- A claim that has succeeded, when its log throws: the user counts both as claimed and as failed, with
  -- two details, whatever the release of the lock does.
  pub claim_and_count-counted_twice :
      (auth : Authorization) (account lock_id : String) (rewards : Rewards Raw)
      (summary : CronSummary N) (s t u : S) (result : ExecutionResult) (e : String)
      → w.execute_claim (smart_account_address auth) account rewards.raw s ≡ (ok result, t)
      → result.success ≡ true
      → log_claim_action w user rewards.total_claimable_formatted result.hash "success" none t
        ≡ (err e, u)
      → ((process_locked w
            (λ x. claim_and_count w x auth account rewards)
            user
            lock_id
            (summary, s)).1.0.claimed
          ≡ suc summary.claimed)
        × ((process_locked w
              (λ x. claim_and_count w x auth account rewards)
              user
              lock_id
              (summary, s)).1.0.errors
            ≡ suc summary.errors)
        × (length
              (process_locked w
                (λ x. claim_and_count w x auth account rewards)
                user
                lock_id
                (summary, s)).1.0.details
            ≡ 2 + length summary.details)
  unfolding process_locked claim_and_count after_claim
  claim_and_count-counted_twice auth account lock_id rewards summary s t u result e ran good lost =
      let grown = λ (xs : List (Detail N)) (x : Detail N). length-append xs (x ∷ []) in
      (ground arith, ground arith, grind (arith, grown))
