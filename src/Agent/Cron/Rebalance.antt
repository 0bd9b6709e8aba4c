-- ===== src/Agent/Cron/Rebalance.antt =====
-- lib/agent/cron-orchestration-service.ts: `processUserRebalance`, the execution and the log.
use tapioca_money.Base.{
  ℕ, ◌-◌, String, ◌==◌, ◌+++◌, List, Bool, true, false, ◌||◌, Option, none, some, is_some, leb,
  to_string, if◌then◌else◌,
}
use tapioca_money.Base.Double.{Double}
use tapioca_money.Redis.Action.{Result, ok, err, pure, throw, catch, and_then, ◌>>=◌, ◌>>◌}
use tapioca_money.Redis.Action as Async
use tapioca_money.Redis.Budget.{get_user_op_count, increment_user_op_count, userop_daily_limit}
use tapioca_money.Sentinel.Exit.{truthy, or_default}
use tapioca_money.Security.Authorization.{Authorization, decrypt_authorization}
use tapioca_money.Security.Revocation.{is_session_revoked}
use tapioca_money.Agent.Session.{from_raw, is_valid_type, is_session_valid}
use tapioca_money.Agent.Decision.{
  CurrentVault, Vault, Fetched, RebalanceDecision, evaluate_rebalancing,
}
use tapioca_money.Agent.Cron.Types.{
  World, User, RebalanceMetadata, rebalance_metadata, ExecutionArguments, ExecutionResult,
  PrefetchedVaults, detail, DetailAction, Cron, outside, update, count_skipped, count_error,
  count_rebalanced,
}

-- `CRON_USEROP_RESERVE`
abbrev pub cron_userop_reserve : ℕ
cron_userop_reserve = 3

-- `{ type: sessionType }`
abbrev pub session_probe : Option String → Authorization
session_probe session_type = record {
  type = session_type;
  eoa_address = none;
  smart_wallet_address = none;
  session_key_address = "";
  serialized_account = none;
  approved_vaults = none;
  expiry = none;
  timestamp = none;
  session_private_key = none;
  eip7702_signed_auth = none;
  policy_config = none;
  smart_account_address = none;
  created_at = none;
}

-- `sessionProbe && sessionProbe.isValidType()`
unfoldable pub has_valid_type : Option String → Bool
has_valid_type session_type = elim (from_raw (some (session_probe session_type))) [
  | none ↦ false
  | some session ↦ is_valid_type session
]

-- the account that an authorization is for
unfoldable pub smart_account_address : Authorization → Option String
smart_account_address auth = elim auth.type [
  | none ↦ auth.eoa_address
  | some type ↦
      if type == "zerodev-erc4337-session" then auth.smart_wallet_address else auth.eoa_address
]

-- `decision.currentVault.address` and the other fields, where there is a vault
abbrev pub of_current : {N A : Type 0} → (CurrentVault N → A) → RebalanceDecision N → Option A
of_current field decision = elim decision.current_vault [
  | none ↦ none
  | some vault ↦ some (field vault)
]

abbrev pub of_target : {N A : Type 0} → (Vault N → A) → RebalanceDecision N → Option A
of_target field decision = elim decision.target_vault [
  | none ↦ none
  | some vault ↦ some (field vault)
]

module _ {N : Type 0} ⦃d : Double N⦄ where
  -- `n || 0`
  abbrev pub or_zero : Option N → N
  or_zero none = d.decimal 0 0
  or_zero (some n) = if d.is_nan n then d.decimal 0 0 else n

  abbrev pub metadata_of : RebalanceDecision N → RebalanceMetadata N
  metadata_of decision = record {
    from_vault = of_current (λ v. v.address) decision;
    to_vault = of_target (λ v. v.address) decision;
    from_apy = or_zero (of_current (λ v. v.apy) decision);
    to_apy = or_zero (of_target (λ v. v.apy) decision);
    apy_improvement = decision.apy_improvement;
    estimated_annual_gain = decision.estimated_annual_gain;
    break_even_days = decision.break_even_days;
    reason = decision.reason;
    shares = of_current (λ v. v.shares) decision;
    assets = of_current (λ v. v.assets) decision;
  }

module _ {S N Raw : Type 0} ⦃d : Double N⦄ (w : World S N Raw) where
  -- `formatUnits(BigInt(assets), 6)`, if there are assets
  abbrev pub amount_of : RebalanceDecision N → Result (Option String)
  amount_of decision = elim (truthy (of_current (λ v. v.assets) decision)) [
    | none ↦ ok none
    | some assets ↦ and_then (w.to_bigint assets) λ n. ok (some (w.format_units n))
  ]

  unfoldable pub log_rebalance_action :
      String
      → RebalanceDecision N
      → Option String
      → String
      → Option String
      → Async.Action S (Unit {0})
  log_rebalance_action user_id decision task_id status error_message s = elim (amount_of decision) [
    | err e ↦ throw e s
    | ok amount ↦
        w.insert_action
          (record {
            user_id = user_id;
            action_type = "rebalance";
            status = status;
            from_protocol = truthy (of_current (λ v. v.name) decision);
            to_protocol = truthy (of_target (λ v. v.name) decision);
            amount_usdc = amount;
            tx_hash = truthy task_id;
            error_message = truthy error_message;
            metadata = rebalance_metadata (metadata_of decision);
          })
          s
  ]

  unfoldable pub log_simulated_action : String → RebalanceDecision N → Async.Action S (Unit {0})
  log_simulated_action user_id decision s =
      log_rebalance_action user_id decision (some ("simulation_" +++ to_string (w.now s))) "success"
        none s

  -- `fromProtocol`, `toProtocol` and `underlyingAddress` are not given
  abbrev pub execution_arguments :
      String → Authorization → CurrentVault N → Vault N → ℕ → ExecutionArguments
  execution_arguments user_address auth current target shares = record {
    params = record {
      from_vault = current.address;
      to_vault = target.address;
      shares = shares;
      user_address = user_address;
      from_protocol = none;
      to_protocol = none;
      underlying_address = none;
    };
    session_private_key = auth.session_private_key;
    approved_vaults = auth.approved_vaults;
    eip7702_signed_auth = auth.eip7702_signed_auth;
    serialized_account = auth.serialized_account;
  }

  -- the arguments of the call, where nothing throws before it
  unfoldable pub prepare : String → Authorization → RebalanceDecision N → Result ExecutionArguments
  prepare user_address auth decision = elim decision.current_vault [
    | none ↦ err "Invalid rebalance decision - missing vault data"
    | some current ↦ elim decision.target_vault [
      | none ↦ err "Invalid rebalance decision - missing vault data"
      | some target ↦
          elim (is_some (truthy auth.serialized_account)
            || is_some (truthy auth.session_private_key)) [
              | false ↦
                  err
                    "No serializedAccount or sessionPrivateKey in authorization. User must re-register."
              | true ↦
                  and_then (w.to_bigint current.shares)
                    λ shares. ok (execution_arguments user_address auth current target shares)
            ]
    ]
  ]

  -- `executionResult.taskId || ...`
  abbrev pub task_of : ExecutionResult → S → String
  task_of result s =
      or_default result.hash ("zerodev_" +++ to_string (w.now s) +++ "_" +++ w.task_suffix s)

  -- the body of the `try`: the task's id
  unfoldable pub execute_and_log :
      String → String → Authorization → RebalanceDecision N → Async.Action S String
  execute_and_log user_id user_address auth decision s = elim (prepare user_address auth decision) [
    | err e ↦ throw e s
    | ok arguments ↦
        (w.execute_rebalance (smart_account_address auth) arguments >>= λ result. λ t.
            elim result.success [
              | false ↦ throw (or_default result.error "Execution failed") t
              | true ↦
                  (log_rebalance_action user_id decision (some (task_of result t)) "success" none
                      >> pure (task_of result t))
                    t
            ])
          s
  ]

  -- the task's id, or the error that was logged
  unfoldable pub execute_rebalance_transaction :
      String → String → Authorization → RebalanceDecision N → Async.Action S (Result String)
  execute_rebalance_transaction user_id user_address auth decision =
      catch (execute_and_log user_id user_address auth decision >>= λ task. pure (ok task))
        (λ e. log_rebalance_action user_id decision none "failed" (some e) >> pure (err e))

  -- step 7
  unfoldable pub execute_and_count :
      User → Authorization → RebalanceDecision N → Cron S N (Unit {0})
  execute_and_count user auth decision = do
    result ← outside (execute_rebalance_transaction user.id user.wallet_address auth decision)
    elim result [
      | ok task ↦
          update (
            count_rebalanced (record {
              address = user.wallet_address;
              action = DetailAction.rebalanced;
              reason = decision.reason;
              apy_improvement = some decision.apy_improvement;
              task_id = some task;
            }))
          >> (λ p. outside (increment_user_op_count w.cache (w.now p.1) user.wallet_address) p)
      | err e ↦ update (
          count_error (
            detail user.wallet_address DetailAction.error (or_default (some e) "Execution failed")))
    ]

  -- a user that is skipped, with the improvement where the source gives one
  abbrev pub skip_user : User → String → Option N → Cron S N (Unit {0})
  skip_user user reason improvement = update (
      count_skipped (record {
        address = user.wallet_address;
        action = DetailAction.skipped;
        reason = reason;
        apy_improvement = improvement;
        task_id = none;
      }))

  -- the simulation mode and the budget
  unfoldable pub rebalance_authorized :
      User → Authorization → RebalanceDecision N → Cron S N (Unit {0})
  rebalance_authorized user auth decision = elim w.simulation_mode [
    | true ↦
        outside (log_simulated_action user.id decision)
        >> skip_user user "[SIMULATION] Rebalance simulated only" (some decision.apy_improvement)
    | false ↦
        (λ p. outside (get_user_op_count w.cache (w.now p.1) user.wallet_address) p) >>= λ ops_used.
        elim (leb (userop_daily_limit - cron_userop_reserve) ops_used) [
          | true ↦
              skip_user user ("UserOp budget low (" +++ to_string ops_used +++ "/90 used)") none
          | false ↦ execute_and_count user auth decision
        ]
  ]

  -- steps 4 and 5, with the checks of the session
  unfoldable pub rebalance_decided : User → RebalanceDecision N → Cron S N (Unit {0})
  rebalance_decided user decision = do
    stored ← outside (w.authorization_of user.id)
    elim stored [
      | none ↦ update (
          count_error (
            detail user.wallet_address DetailAction.error
              "Could not fetch authorization for rebalancing user"))
      | some encrypted ↦ outside (decrypt_authorization w.decrypt encrypted) >>= λ auth. λ p.
          elim (is_session_valid (w.now p.1) auth.expiry) [
            | false ↦ skip_user user "Session key expired" none p
            | true ↦
                (outside (is_session_revoked w.cache (w.now p.1) auth.session_key_address)
                    >>= λ revoked. elim revoked [
                      | true ↦ skip_user user "Session key has been revoked" none
                      | false ↦ rebalance_authorized user auth decision
                    ])
                  p
          ]
    ]

  -- `evaluateRebalancing` with the vaults that were fetched before
  abbrev pub decide : PrefetchedVaults N → Option (List String) → Fetched N → RebalanceDecision N
  decide vaults targeted fetched =
      evaluate_rebalancing
        (record fetched { morpho_vaults = ok vaults.morpho; yo_vaults = ok vaults.yo }) targeted

  unfoldable pub process_user_rebalance :
      Option (List String) → PrefetchedVaults N → User → Cron S N (Unit {0})
  process_user_rebalance targeted vaults user (summary, s) =
      elim (has_valid_type user.session_type) [
        | false ↦ skip_user user "No valid ZeroDev session key found" none (summary, s)
        | true ↦
            let (fetched, s') = w.fetched user.wallet_address s in
            let decision = decide vaults targeted fetched in
            elim decision.should_rebalance [
              | false ↦ skip_user user decision.reason (some decision.apy_improvement) (summary, s')
              | true ↦ rebalance_decided user decision (summary, s')
            ]
      ]
