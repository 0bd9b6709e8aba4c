-- ===== src/Agent/Cron/Tests.antt =====
-- A run over two users at a concrete input, in fixed-point numbers and on the in-memory store.
use tapioca_money.Base.{
  ◌≤◌, arith, String, ◌≡◌, refl, true, false, some, none, List, [], ◌∷◌, length, to_lower, to_upper,
  ◌+++◌,
}
use tapioca_money.Base.Int.{ℤ, pos}
use tapioca_money.Base.Double.{fixed}
use tapioca_money.Base.Dict
use tapioca_money.Redis.Action.{Result, ok, err, pure, throw}
use tapioca_money.Redis.Memory
use tapioca_money.Redis.Memory.{Memory, memory_cache, empty_memory}
use tapioca_money.Redis.Budget.{get_user_op_count, increment_user_op_count, userop_budget_key}
use tapioca_money.Redis.Lock.{acquire_user_lock, release_user_lock, lock_key, delete_own}
use tapioca_money.Security.Authorization.{Authorization, decrypt_authorization}
use tapioca_money.Security.Revocation.{is_session_revoked, revocation_key}
use tapioca_money.Agent.Session.{is_session_valid, from_raw, is_valid_type}
use tapioca_money.Agent.Decision.{
  Fetched, MorphoVault, evaluate_rebalancing, evaluate_fetched, evaluate_position, choose,
  choose_best, judge_best, all_positions, all_vaults, largest, current_apy_of,
  normalize_morpho_position, normalize_yo_position, normalize_morpho_vault, normalize_yo_vault,
  RebalanceDecision, CurrentVault, Vault,
}
use tapioca_money.Sentinel.Types.{morpho}
use tapioca_money.Agent.Oracle.{
  RoundData, is_rebalance_safe, check_feeds, judge_price, get_usdc_price, is_sequencer_up,
}
use tapioca_money.Agent.Oracle.Safety.{IsHealthy}
use tapioca_money.Agent.Cron.Types.{
  World, User, CronSummary, PrefetchedVaults, ExecutionArguments, ExecutionResult, Rewards,
  DetailAction, detail, create_empty_summary,
}
use tapioca_money.Agent.Cron.Rebalance.{
  prepare, smart_account_address, log_rebalance_action, execute_and_log, decide, has_valid_type,
  execute_rebalance_transaction, execute_and_count, execution_arguments, rebalance_authorized,
  rebalance_decided, process_user_rebalance,
}
use tapioca_money.Agent.Cron.Claim.{log_claim_action, claim_and_count, process_user_reward_claim}
use tapioca_money.Agent.Cron.Cycle.{
  slices, batches, process_locked, process_user, process_chunk, process_chunks, process_batches,
  process_users_in_parallel, claim_phase, run_cron_cycle,
}
use tapioca_money.Agent.Cron.Totals.{Balanced}
use tapioca_money.Agent.Cron.Sequence.{after_each}
use tapioca_money.Agent.Cron.Run.{process_users_in_parallel-Balanced, run_cron_cycle-counted}
use tapioca_money.Agent.Cron.Gates.{HasRebalanced, process_user_rebalance-gates}
use tapioca_money.Agent.Cron.Losses.{execute_and_count-log_lost, claim_and_count-counted_twice}

abbrev morpho_vault : String → ℤ → MorphoVault ℤ
morpho_vault address apy = record {
  address = address;
  name = address;
  avg_net_apy = some apy;
  net_apy = none;
  total_assets_usd = some (pos 20_000_000_000_000);
}

abbrev vaults : PrefetchedVaults ℤ
vaults = record {
  morpho = morpho_vault "0xa" (pos 30_000) ∷ morpho_vault "0xb" (pos 40_000) ∷ [];
  yo = [];
}

abbrev fetched : Fetched ℤ
fetched = record {
  morpho_positions = ok (
      record {
        vault_address = "0xA";
        vault_name = "A";
        shares = "10";
        assets = "10";
        assets_usd = some (pos 10_000_000);
      }
      ∷ []);
  yo_positions = ok [];
  morpho_vaults = ok [];
  yo_vaults = ok [];
  fetch_vault = λ _. ok none;
  states = none;
  to_fixed = λ _ _. "";
}

abbrev authorization : Authorization
authorization = record {
  type = some "zerodev-7702-session";
  eoa_address = some "0xU";
  smart_wallet_address = none;
  session_key_address = "0xK";
  serialized_account = some "account";
  approved_vaults = none;
  expiry = some 200_000;
  timestamp = none;
  session_private_key = none;
  eip7702_signed_auth = none;
  policy_config = none;
  smart_account_address = none;
  created_at = none;
}

abbrev round : RoundData
round = record { round_id = 1; answer = pos 0; started_at = 0; updated_at = 50_000 }

abbrev done : ExecutionResult
done = record { success = true; hash = some "0xT"; error = none }

abbrev rewards : Rewards String
rewards = record { has_claimable = true; total_claimable_formatted = "5"; raw = "" }

-- a world whose log is `insert`
abbrev world : (Result (Unit {0})) → World Memory ℤ String
world insert = record {
  cache = memory_cache;
  now = λ _. 100_000_000;
  lock_id = λ _. "id";
  task_suffix = λ _. "x";
  feeds = λ _. record {
    sequencer = ok round;
    usdc = ok (record round { answer = pos 100_000_000 });
    usdc_decimals = ok 8;
  };
  active_users = pure (
      record { id = "1"; wallet_address = "0xu"; session_type = some "zerodev-7702-session" }
      ∷ record { id = "2"; wallet_address = "0xv"; session_type = none }
      ∷ []);
  authorization_of = λ _. pure (some authorization);
  last_claim = λ _. pure (some 99_000_000);
  insert_action = λ _ s. (insert, s);
  decrypt = λ text. pure text;
  fetched = λ _ s. (fetched, s);
  available_vaults = pure vaults;
  execute_rebalance = λ _ _. pure done;
  fetch_claimable_rewards = λ _. pure (some rewards);
  execute_claim = λ _ _ _. pure done;
  invalidate_yo_rewards = λ _. pure tt;
  texts = record { to_iso_string = λ _. ""; to_fixed = λ _ _. "" };
  sanitize = λ text. text;
  parse_float = λ _. pos 5_000_000;
  to_bigint = λ _. ok 10;
  format_units = λ _. "";
  yo_gateway_address = "0xG";
  simulation_mode = false;
  claim_threshold_usd = pos 2_000_000;
  batch_size = 50;
  concurrency = 10;
}

abbrev user : User
user = record { id = "1"; wallet_address = "0xu"; session_type = some "zerodev-7702-session" }

process_users_in_parallel-Balanced_example :
    Balanced
      (process_users_in_parallel ⦃d = fixed⦄
        (world (ok tt))
        (user ∷ [])
        (process_user_rebalance ⦃d = fixed⦄ (world (ok tt)) none vaults)
        (create_empty_summary, empty_memory)).1.0
process_users_in_parallel-Balanced_example =
    process_users_in_parallel-Balanced ⦃d = fixed⦄ (world (ok tt)) none vaults (user ∷ [])
      create_empty_summary empty_memory (omega arith) (omega arith) (refl, omega arith, refl)

process_user_rebalance-gates_example :
    (has_valid_type user.session_type ≡ true)
    × ((decide ⦃d = fixed⦄ (world (ok tt)) vaults none fetched).should_rebalance ≡ true)
    × HasRebalanced ⦃d = fixed⦄
        (world (ok tt))
        user
        (decide ⦃d = fixed⦄ (world (ok tt)) vaults none fetched)
        empty_memory
unfolding process_user_rebalance rebalance_decided rebalance_authorized execute_and_count
    execute_rebalance_transaction execute_and_log prepare smart_account_address log_rebalance_action
    decrypt_authorization is_session_revoked is_session_valid from_raw is_valid_type has_valid_type
    get_user_op_count increment_user_op_count Memory.get Memory.set Dict.get revocation_key
    evaluate_rebalancing evaluate_fetched evaluate_position choose choose_best judge_best
    all_positions all_vaults largest current_apy_of normalize_morpho_position normalize_yo_position
    normalize_morpho_vault normalize_yo_vault to_lower to_upper
process_user_rebalance-gates_example =
    process_user_rebalance-gates ⦃d = fixed⦄ (world (ok tt)) user none vaults create_empty_summary
      empty_memory refl

-- the first user is rebalanced, the second has no session
abbrev summary : CronSummary ℤ
summary =
    let decision = decide ⦃d = fixed⦄ (world (ok tt)) vaults none fetched in
    record {
      processed = 2;
      rebalanced = 1;
      claimed = 0;
      skipped = 1;
      errors = 0;
      details =
          record {
            address = "0xu";
            action = DetailAction.rebalanced;
            reason = decision.reason;
            apy_improvement = some decision.apy_improvement;
            task_id = some "0xT";
          }
          ∷ detail "0xv" DetailAction.skipped "No valid ZeroDev session key found"
          ∷ [];
    }

run_cron_cycle-counted_example :
    IsHealthy ⦃d = fixed⦄ (world (ok tt)).texts 100_000 ((world (ok tt)).feeds empty_memory)
    × ((active : List User) × (((world (ok tt)).active_users empty_memory).0 ≡ ok active)
        × ((vaults : PrefetchedVaults ℤ) × (((world (ok tt)).available_vaults
                ((world (ok tt)).active_users empty_memory).1).0
              ≡ ok vaults)
            × (let last =
                  (after_each ⦃d = fixed⦄
                    (world (ok tt))
                    (process_user_rebalance ⦃d = fixed⦄ (world (ok tt)) none vaults)
                    active
                    (
                      create_empty_summary,
                      ((world (ok tt)).available_vaults
                          ((world (ok tt)).active_users empty_memory).1).1,
                    )).0 in
                (summary.rebalanced ≡ last.rebalanced)
                × (summary.skipped ≡ last.skipped)
                × (summary.errors ≡ last.errors)
                × (summary.processed ≡ last.processed)))
        × (2 ≡ length active)
        × (2 ≤ length active))
unfolding run_cron_cycle claim_phase process_users_in_parallel process_batches process_chunks
    process_chunk process_user process_locked batches slices acquire_user_lock release_user_lock
    delete_own lock_key userop_budget_key Memory.set_nx Memory.del Memory.eval Dict.set Dict.delete
    process_user_reward_claim process_user_rebalance rebalance_decided rebalance_authorized
    execute_and_count execute_rebalance_transaction execute_and_log prepare smart_account_address
    log_rebalance_action decrypt_authorization is_session_revoked is_session_valid from_raw
    is_valid_type has_valid_type get_user_op_count increment_user_op_count Memory.get Memory.set
    Dict.get revocation_key evaluate_rebalancing evaluate_fetched evaluate_position choose
    choose_best judge_best all_positions all_vaults largest current_apy_of normalize_morpho_position
    normalize_yo_position normalize_morpho_vault normalize_yo_vault to_lower to_upper ◌+++◌
    is_rebalance_safe check_feeds judge_price get_usdc_price is_sequencer_up
run_cron_cycle-counted_example =
    run_cron_cycle-counted ⦃d = fixed⦄ (world (ok tt)) none empty_memory summary (omega arith)
      (omega arith) refl

abbrev current : CurrentVault ℤ
current = record {
  address = "0xA";
  name = "A";
  apy = pos 30_000;
  shares = "10";
  assets = "10";
  protocol = morpho;
  underlying_address = "0xT";
  underlying_symbol = "USDC";
}

abbrev target : Vault ℤ
target = normalize_morpho_vault ⦃d = fixed⦄ (morpho_vault "0xb" (pos 40_000))

abbrev decision : RebalanceDecision ℤ
decision = record {
  should_rebalance = true;
  reason = "";
  current_vault = some current;
  target_vault = some target;
  apy_improvement = pos 10_000;
  estimated_annual_gain = pos 1;
  break_even_days = 0;
}

abbrev arguments : ExecutionArguments
arguments =
    execution_arguments ⦃d = fixed⦄ (world (err "down")) "0xu" authorization current target 10

abbrev failing : World Memory ℤ String
failing = record (world (ok tt)) {
  insert_action = λ row s. elim row.tx_hash [ none ↦ pure tt s | some hash ↦ throw "down" s ];
}

execute_and_count-log_lost_example :
    ((execute_and_count ⦃d = fixed⦄ failing user authorization decision
        (create_empty_summary, empty_memory)).1.1
      ≡ empty_memory)
    × ((execute_and_count ⦃d = fixed⦄ failing user authorization decision
          (create_empty_summary, empty_memory)).1.0.rebalanced
        ≡ 0)
    × ((execute_and_count ⦃d = fixed⦄ failing user authorization decision
          (create_empty_summary, empty_memory)).1.0.errors
        ≡ 1)
unfolding prepare log_rebalance_action smart_account_address normalize_morpho_vault
execute_and_count-log_lost_example =
    execute_and_count-log_lost ⦃d = fixed⦄ failing user authorization decision create_empty_summary
      empty_memory empty_memory empty_memory empty_memory arguments done "down" refl refl refl refl
      refl

claim_and_count-counted_twice_example :
    ((process_locked ⦃d = fixed⦄
        (world (err "down"))
        (λ x. claim_and_count ⦃d = fixed⦄ (world (err "down")) x authorization "account" rewards)
        user
        "id"
        (create_empty_summary, empty_memory)).1.0.claimed
      ≡ 1)
    × ((process_locked ⦃d = fixed⦄
          (world (err "down"))
          (λ x. claim_and_count ⦃d = fixed⦄ (world (err "down")) x authorization "account" rewards)
          user
          "id"
          (create_empty_summary, empty_memory)).1.0.errors
        ≡ 1)
    × (length
          (process_locked ⦃d = fixed⦄
            (world (err "down"))
            (λ x.
              claim_and_count ⦃d = fixed⦄ (world (err "down")) x authorization "account" rewards)
            user
            "id"
            (create_empty_summary, empty_memory)).1.0.details
        ≡ 2)
unfolding log_claim_action
claim_and_count-counted_twice_example =
    claim_and_count-counted_twice ⦃d = fixed⦄ (world (err "down")) user authorization "account" "id"
      rewards create_empty_summary empty_memory empty_memory empty_memory done "down" refl refl refl
