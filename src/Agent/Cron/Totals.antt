-- ===== src/Agent/Cron/Totals.antt =====
-- The totals of the rebalance phase and of the run.
use tapioca_money.Base.{
  ℕ, suc, ◌+◌, ◌≤◌, ◌<◌, String, ◌≡◌, subst, inl, inr, Option, List, [], ◌∷◌, map, length,
  length-append, or_else, arith, Bool-cases,
}
use tapioca_money.Base.Double.{Double}
use tapioca_money.Redis.Action.{Result, ok, Result-cases}
use tapioca_money.Redis.Lock.{acquire_user_lock, default_lock_ttl}
use tapioca_money.Agent.Cron.Types.{World, User, CronSummary, Detail, PrefetchedVaults, Cron}
use tapioca_money.Agent.Cron.Rebalance.{process_user_rebalance}
use tapioca_money.Agent.Cron.Cycle.{
  process_locked, process_user, process_chunk, process_chunks, process_batches, batches,
  process_users_in_parallel,
}
use tapioca_money.Agent.Cron.Accounting.{counted, Counts, process_user_rebalance-Counts}
use tapioca_money.Agent.Cron.Slices.{join, join-batches}

-- every user that was counted has its detail, and only those were processed
abbrev pub Balanced : {N : Type 0} → CronSummary N → Type 0
Balanced summary =
    (counted summary ≡ length summary.details)
    × (summary.processed ≤ counted summary)
    × (summary.claimed ≡ 0)

-- what a step does to the totals, for `n` users that it ends well for
abbrev pub Totals : {N : Type 0} → ℕ → Result (Unit {0}) → CronSummary N → CronSummary N → Type 0
Totals n r before after =
    (Balanced before → Balanced after) × (r ≡ ok tt → counted after ≡ counted before + n)

module _ {S N Raw : Type 0} ⦃d : Double N⦄ (w : World S N Raw)
    (process : User → Cron S N (Unit {0}))
    (counts : (user : User) (summary : CronSummary N) (s : S)
      → Counts (process user (summary, s)).0 summary (process user (summary, s)).1.0) where
  process_locked-Totals :
      (user : User) (lock_id : String) (summary : CronSummary N) (s : S)
      → Totals 1
          (process_locked w process user lock_id (summary, s)).0
          summary
          (process_locked w process user lock_id (summary, s)).1.0
  unfolding process_locked
  process_locked-Totals user lock_id summary s =
      let started = record summary { processed = suc summary.processed } in
      let ran = process user (started, s) in
      let grown = λ (x : Detail N). length-append summary.details (x ∷ []) in
      elim (counts user started s) [
        | inl (fine, one) ↦ (λ balanced. ground arith, λ ended. ground arith)
        | inr (e, threw, same) ↦ (λ balanced. grind (arith, grown), λ ended. grind (arith, grown))
      ]

  process_user-Totals :
      (user : User) (summary : CronSummary N) (s : S)
      → Totals 1
          (process_user w process user (summary, s)).0
          summary
          (process_user w process user (summary, s)).1.0
  unfolding process_user
  process_user-Totals user summary s =
      let asked =
        acquire_user_lock w.cache (w.now s) (w.lock_id s) user.wallet_address default_lock_ttl s in
      let grown = λ (x : Detail N). length-append summary.details (x ∷ []) in
      elim (Result-cases asked.0) [
        | inr (e, threw) ↦ (λ balanced. ground arith, λ ended. absurd (ground arith))
        | inl (lock, held) ↦ elim (Bool-cases lock.acquired) [
          | inr busy ↦ (λ balanced. grind (arith, grown), λ ended. grind (arith, grown))
          | inl free ↦
              let (keeps, counts_one) =
                process_locked-Totals user (or_else lock.lock_id "") summary asked.1 in
              (λ balanced. grind (arith, keeps balanced), λ ended. grind (arith, counts_one))
        ]
      ]

  process_chunk-Totals :
      (users : List User) (summary : CronSummary N) (s : S)
      → Totals
          (length users)
          (process_chunk w process users (summary, s)).0
          summary
          (process_chunk w process users (summary, s)).1.0
  unfolding process_chunk
  process_chunk-Totals [] summary s = (λ balanced. balanced, λ ended. omega arith)
  process_chunk-Totals (user ∷ users) summary s =
      let first = process_user w process user (summary, s) in
      let (keeps, counts_one) = process_user-Totals user summary s in
      let (keeps', counts_rest) = process_chunk-Totals users first.1.0 first.1.1 in
      (
        λ balanced. ground (arith, keeps' (keeps balanced)),
        λ ended. ground (arith, counts_one, counts_rest),
      )

  process_chunks-Totals :
      (chunks : List (List User)) (summary : CronSummary N) (s : S)
      → Totals
          (length (join chunks))
          (process_chunks w process chunks (summary, s)).0
          summary
          (process_chunks w process chunks (summary, s)).1.0
  unfolding process_chunks
  process_chunks-Totals [] summary s = (λ balanced. balanced, λ ended. omega arith)
  process_chunks-Totals (chunk ∷ chunks) summary s =
      let first = process_chunk w process chunk (summary, s) in
      let (keeps, counts_chunk) = process_chunk-Totals chunk summary s in
      let (keeps', counts_rest) = process_chunks-Totals chunks first.1.0 first.1.1 in
      elim (Result-cases first.0) [
        | inr (e, threw) ↦
            (λ balanced. ground (arith, keeps balanced), λ ended. absurd (ground arith))
        | inl (_, went) ↦ (
          λ balanced. ground (arith, keeps' (keeps balanced)),
          λ ended. ground (arith, counts_chunk, counts_rest, length-append chunk (join chunks)),
        )
      ]

  process_batches-Totals :
      (bs : List (List (List User))) (summary : CronSummary N) (s : S)
      → Totals
          (length (join (map join bs)))
          (process_batches w process bs (summary, s)).0
          summary
          (process_batches w process bs (summary, s)).1.0
  unfolding process_batches
  process_batches-Totals [] summary s = (λ balanced. balanced, λ ended. omega arith)
  process_batches-Totals (batch ∷ bs) summary s =
      let first = process_chunks w process batch (summary, s) in
      let (keeps, counts_batch) = process_chunks-Totals batch summary s in
      let (keeps', counts_rest) = process_batches-Totals bs first.1.0 first.1.1 in
      elim (Result-cases first.0) [
        | inr (e, threw) ↦
            (λ balanced. ground (arith, keeps balanced), λ ended. absurd (ground arith))
        | inl (_, went) ↦ (
          λ balanced. ground (arith, keeps' (keeps balanced)),
          λ ended.
              ground
                (arith, counts_batch, counts_rest, length-append (join batch) (join (map join bs))),
        )
      ]

  -- The loop over the users keeps the summary balanced, and where it ends with no rejection, in batches
  -- and chunks of a positive size, it has counted each of them.
  process_users_in_parallel-Totals :
      (users : List User) (summary : CronSummary N) (s : S)
      → 0 < w.batch_size
      → 0 < w.concurrency
      → Totals
          (length users)
          (process_users_in_parallel w users process (summary, s)).0
          summary
          (process_users_in_parallel w users process (summary, s)).1.0
  unfolding process_users_in_parallel
  process_users_in_parallel-Totals users summary s h h' =
      subst
        (λ us.
          Totals (length us)
            (process_batches w process (batches w.batch_size w.concurrency users) (summary, s)).0
            summary
            (process_batches w process (batches w.batch_size w.concurrency users) (summary, s)).1.0)
        (join-batches w.batch_size w.concurrency users h h')
        (process_batches-Totals (batches w.batch_size w.concurrency users) summary s)

module _ {S N Raw : Type 0} ⦃d : Double N⦄ (w : World S N Raw) where
  -- the rebalance phase over the active users
  pub rebalance_phase-Totals :
      (targeted : Option (List String)) (vaults : PrefetchedVaults N) (users : List User)
      (summary : CronSummary N) (s : S)
      → 0 < w.batch_size
      → 0 < w.concurrency
      → Totals
          (length users)
          (process_users_in_parallel w users
            (process_user_rebalance w targeted vaults)
            (summary, s)).0
          summary
          (process_users_in_parallel w users
            (process_user_rebalance w targeted vaults)
            (summary, s)).1.0
  rebalance_phase-Totals targeted vaults =
      process_users_in_parallel-Totals w (process_user_rebalance w targeted vaults)
        (λ user. process_user_rebalance-Counts w user targeted vaults)
