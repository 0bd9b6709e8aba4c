-- ===== src/Agent/Cron/Cycle.antt =====
-- lib/agent/cron-orchestration-service.ts: `processUsersInParallel` and `runCronCycle`. The users of a
-- chunk run in the order of the list, one after the other; a rejection ends the run after its chunk.
use tapioca_money.Base.{
  ℕ, zero, suc, ◌/◌, String, ◌+++◌, Bool, true, false, Option, some, List, [], ◌∷◌, ◌++◌, map, take,
  drop, filter, length, or_else,
}
use tapioca_money.Base.Double.{Double}
use tapioca_money.Redis.Action.{Result, ok, err, pure, throw, catch, finally, ◌>>=◌, ◌>>◌}
use tapioca_money.Redis.Action as Async
use tapioca_money.Redis.Lock.{acquire_user_lock, release_user_lock, default_lock_ttl}
use tapioca_money.Sentinel.Exit.{or_default}
use tapioca_money.Agent.Oracle.{is_rebalance_safe}
use tapioca_money.Agent.Cron.Types.{
  World, User, CronSummary, Detail, DetailAction, detail, Cron, outside, update, count_error,
  count_skipped, create_empty_summary,
}
use tapioca_money.Agent.Cron.Rebalance.{process_user_rebalance}
use tapioca_money.Agent.Cron.Claim.{process_user_reward_claim}

-- the slices of `n` elements, on fuel
unfoldable pub slices : {A : Type 0} → ℕ → ℕ → List A → List (List A)
slices zero n xs = []
slices (suc fuel) n [] = []
slices (suc fuel) n (x ∷ xs) = take n (x ∷ xs) ∷ slices fuel n (drop n (x ∷ xs))

-- the batches, each in chunks
unfoldable pub batches : {A : Type 0} → ℕ → ℕ → List A → List (List (List A))
batches batch_size concurrency users =
    map (λ batch. slices (length batch) concurrency batch) (slices (length users) batch_size users)

module _ {S N Raw : Type 0} ⦃d : Double N⦄ (w : World S N Raw) where
  -- a user that holds the lock
  unfoldable pub process_locked : (User → Cron S N (Unit {0})) → User → String → Cron S N (Unit {0})
  process_locked process user lock_id =
      finally
        (catch
          (update
              (λ (summary : CronSummary N). record summary { processed = suc summary.processed })
            >> process user)
          (λ e. update (
            count_error (
              detail user.wallet_address DetailAction.error
                (w.sanitize (or_default (some e) "Unknown error during processing"))))))
        (λ p. outside (release_user_lock w.cache (w.now p.1) user.wallet_address lock_id) p)

  unfoldable pub process_user : (User → Cron S N (Unit {0})) → User → Cron S N (Unit {0})
  process_user process user (summary, s) =
      (outside
            (acquire_user_lock w.cache (w.now s) (w.lock_id s) user.wallet_address default_lock_ttl)
          >>= λ lock. elim lock.acquired [
            | false ↦ update (
                count_skipped (
                  detail user.wallet_address DetailAction.skipped
                    "Rebalance already in progress (locked)"))
            | true ↦ process_locked process user (or_else lock.lock_id "")
          ])
        (summary, s)

  -- `Promise.all` over a chunk: every user runs, and the first rejection is the result
  unfoldable pub process_chunk : (User → Cron S N (Unit {0})) → List User → Cron S N (Unit {0})
  process_chunk process [] p = pure tt p
  process_chunk process (user ∷ users) p =
      let (r, p') = process_user process user p in
      let (rest, p'') = process_chunk process users p' in
      elim r [ ok _ ↦ (rest, p'') | err e ↦ (err e, p'') ]

  unfoldable pub process_chunks :
      (User → Cron S N (Unit {0})) → List (List User) → Cron S N (Unit {0})
  process_chunks process [] = pure tt
  process_chunks process (chunk ∷ chunks) =
      process_chunk process chunk >> process_chunks process chunks

  unfoldable pub process_batches :
      (User → Cron S N (Unit {0})) → List (List (List User)) → Cron S N (Unit {0})
  process_batches process [] = pure tt
  process_batches process (batch ∷ rest) =
      process_chunks process batch >> process_batches process rest

  unfoldable pub process_users_in_parallel :
      List User → (User → Cron S N (Unit {0})) → Cron S N (Unit {0})
  process_users_in_parallel users process =
      process_batches process (batches w.batch_size w.concurrency users)

  abbrev pub is_reported : Detail N → Bool
  is_reported entry = elim entry.action [
    | DetailAction.claimed ↦ true
    | DetailAction.error ↦ true
    | _ ↦ false
  ]

  -- the claims' part of the summary
  abbrev pub merge_claims : CronSummary N → CronSummary N → CronSummary N
  merge_claims summary claims = record summary {
    claimed = claims.claimed;
    details = summary.details ++ filter is_reported claims.details;
  }

  -- phase 2, with a summary of its own
  unfoldable pub claim_phase : List User → Cron S N (CronSummary N)
  claim_phase users (summary, s) =
      let (r, (claims, s')) =
        process_users_in_parallel users (process_user_reward_claim w) (create_empty_summary, s) in
      elim r [
        | ok _ ↦ pure (merge_claims summary claims) (merge_claims summary claims, s')
        | err e ↦ throw e (summary, s')
      ]

  -- the run, from an empty summary
  unfoldable pub run_cron_cycle : Option (List String) → Async.Action S (CronSummary N)
  run_cron_cycle targeted s =
      let check = is_rebalance_safe w.texts (w.now s / 1000) (w.feeds s) in
      elim check.good [
        | false ↦
            throw ("Rebalancing blocked by safety check: " +++ or_else check.reason "undefined") s
        | true ↦
            let (r, (summary, s')) =
              (outside w.active_users >>= λ users. outside w.available_vaults >>= λ vaults.
              process_users_in_parallel users (process_user_rebalance w targeted vaults)
              >> claim_phase users)
                (create_empty_summary, s) in
            (r, s')
      ]
