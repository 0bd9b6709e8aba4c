-- ===== src/Agent/Cron/Claim.antt =====
-- lib/agent/cron-orchestration-service.ts: `processUserRewardClaim` and its log.
use tapioca_money.Base.{
  ℕ, suc, ◌+◌, ◌-◌, ◌*◌, String, ◌+++◌, Bool, true, false, Option, none, some, ltb, leb,
  if◌then◌else◌,
}
use tapioca_money.Base.Double.{Double}
use tapioca_money.Redis.Action.{Result, ok, err, pure, throw, ◌>>=◌, ◌>>◌}
use tapioca_money.Redis.Action as Async
use tapioca_money.Redis.Budget.{get_user_op_count, increment_user_op_count, userop_daily_limit}
use tapioca_money.Sentinel.Exit.{truthy, or_default}
use tapioca_money.Security.Authorization.{Authorization, decrypt_authorization}
use tapioca_money.Security.Revocation.{is_session_revoked}
use tapioca_money.Agent.Session.{is_session_valid, approved_vaults}
use tapioca_money.Agent.Registration.{
  approved, unapproved, verify_vault_approval, merkl_distributor_address,
}
use tapioca_money.Agent.Cron.Types.{
  World, User, claim_metadata, ExecutionResult, Rewards, CronSummary, detail, DetailAction, Cron,
  outside, update, count_error, count_claimed,
}
use tapioca_money.Agent.Cron.Rebalance.{has_valid_type, smart_account_address, cron_userop_reserve}

-- `MERKL_CLAIM_COOLDOWN_MS`
abbrev pub merkl_claim_cooldown_ms : ℕ
merkl_claim_cooldown_ms = 24 * 60 * 60 * 1000

-- a user that is skipped without a detail
abbrev pub skip_silently : {S N : Type 0} → Cron S N (Unit {0})
skip_silently =
    update (λ (summary : CronSummary _). record summary { skipped = suc summary.skipped })

module _ {S N Raw : Type 0} ⦃d : Double N⦄ (w : World S N Raw) where
  unfoldable pub log_claim_action :
      User → String → Option String → String → Option String → Async.Action S (Unit {0})
  log_claim_action user claimable_amount tx_hash status error_message = w.insert_action (record {
    user_id = user.id;
    action_type = "merkl_claim";
    status = status;
    from_protocol = some "merkl";
    to_protocol = some "yo";
    amount_usdc = some claimable_amount;
    tx_hash = truthy tx_hash;
    error_message = truthy error_message;
    metadata = claim_metadata claimable_amount user.wallet_address;
  })

  -- the reason of the detail
  abbrev pub claimed_reason : String → String
  claimed_reason amount =
      "Claimed " +++ amount +++ " $YO (~$" +++ w.texts.to_fixed (w.parse_float amount) 2 +++ ")"

  -- what follows a claim that went through
  unfoldable pub after_claim :
      User → Authorization → Rewards Raw → ExecutionResult → Cron S N (Unit {0})
  after_claim user auth rewards result = do
    update (
        count_claimed (
          detail user.wallet_address DetailAction.claimed
            (claimed_reason rewards.total_claimable_formatted)))
    outside (log_claim_action user rewards.total_claimable_formatted result.hash "success" none)
    outside (w.invalidate_yo_rewards (smart_account_address auth))
    λ p. outside (increment_user_op_count w.cache (w.now p.1) user.wallet_address) p

  -- step 10
  unfoldable pub claim_and_count : User → Authorization → String → Rewards Raw → Cron S N (Unit {0})
  claim_and_count user auth serialized_account rewards = do
    result ← outside (w.execute_claim (smart_account_address auth) serialized_account rewards.raw)
    elim result.success [
      | true ↦ after_claim user auth rewards result
      | false ↦
          update (
            count_error (
              detail user.wallet_address DetailAction.error
                (or_default result.error "Merkl claim failed")))
          >> outside
              (log_claim_action user rewards.total_claimable_formatted none "failed" result.error)
    ]

  -- steps 8 and 9
  unfoldable pub claim_rewards : User → Authorization → String → Rewards Raw → Cron S N (Unit {0})
  claim_rewards user auth serialized_account rewards =
      if d.lt (w.parse_float rewards.total_claimable_formatted) w.claim_threshold_usd
      then skip_silently
      else elim w.simulation_mode [
        | true ↦
            outside (
              log_claim_action user rewards.total_claimable_formatted (some "simulation") "success"
                none)
            >> skip_silently
        | false ↦ claim_and_count user auth serialized_account rewards
      ]

  -- steps 5 to 7: the budget and the rewards, which count as none where they cannot be fetched
  unfoldable pub claim_approved : User → Authorization → String → Cron S N (Unit {0})
  claim_approved user auth serialized_account =
      (λ p. outside (get_user_op_count w.cache (w.now p.1) user.wallet_address) p) >>= λ ops_used.
      elim (leb (userop_daily_limit - cron_userop_reserve) ops_used) [
        | true ↦ skip_silently
        | false ↦ λ p.
            let (fetched, t) = w.fetch_claimable_rewards (smart_account_address auth) p.1 in
            elim fetched [
              | err e ↦ skip_silently (p.0, t)
              | ok none ↦ skip_silently (p.0, t)
              | ok (some rewards) ↦ elim rewards.has_claimable [
                | false ↦ skip_silently (p.0, t)
                | true ↦ claim_rewards user auth serialized_account rewards (p.0, t)
              ]
            ]
      ]

  -- step 4, for a session that is not revoked
  unfoldable pub claim_unrevoked : User → Authorization → Cron S N (Unit {0})
  claim_unrevoked user auth =
      elim (verify_vault_approval w.yo_gateway_address (approved_vaults auth)
        merkl_distributor_address "merkl") [
          | unapproved message ↦ skip_silently
          | approved ↦ elim (truthy auth.serialized_account) [
            | none ↦ skip_silently
            | some serialized_account ↦ claim_approved user auth serialized_account
          ]
        ]

  -- step 3
  unfoldable pub claim_rested : User → Cron S N (Unit {0})
  claim_rested user = do
    stored ← outside (w.authorization_of user.id)
    elim stored [
      | none ↦ skip_silently
      | some encrypted ↦ outside (decrypt_authorization w.decrypt encrypted) >>= λ auth. λ p.
          elim (is_session_valid (w.now p.1) auth.expiry) [
            | false ↦ skip_silently p
            | true ↦
                (outside (is_session_revoked w.cache (w.now p.1) auth.session_key_address)
                    >>= λ revoked. elim revoked [
                      | true ↦ skip_silently
                      | false ↦ claim_unrevoked user auth
                    ])
                  p
          ]
    ]

  -- `Date.now() - lastClaimTime < MERKL_CLAIM_COOLDOWN_MS`
  abbrev pub is_cooling : ℕ → Option ℕ → Bool
  is_cooling now none = false
  is_cooling now (some last) = ltb now (last + merkl_claim_cooldown_ms)

  unfoldable pub process_user_reward_claim : User → Cron S N (Unit {0})
  process_user_reward_claim user = elim (has_valid_type user.session_type) [
    | false ↦ skip_silently
    | true ↦ outside (w.last_claim user.id) >>= λ last. λ p. elim (is_cooling (w.now p.1) last) [
      | true ↦ skip_silently p
      | false ↦ claim_rested user p
    ]
  ]
