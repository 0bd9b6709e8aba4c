-- ===== src/Agent/Tests.antt =====
-- The pause service and the decision engine at concrete inputs, in fixed-point numbers.
use tapioca_money.Base.{
  All, ◌⊎◌, ◌+◌, ◌<◌, ◌↔◌, ◌==◌, any, if◌then◌else◌, arith, String, ◌≡◌, refl, Bool, true, false,
  some, none, List, [], ◌∷◌, to_lower, to_upper,
}
use tapioca_money.Base.Int.{ℤ, pos}
use tapioca_money.Base.Double.{fixed, fixed-IsIeee}
use tapioca_money.Base.Dict
use tapioca_money.Redis.Action.{Result, ok, err, pure}
use tapioca_money.Sentinel.Types.{morpho, yo}
use tapioca_money.Agent.Pause.{
  check_pause_states, check_vault_pause_states, create_not_paused_state,
}
use tapioca_money.Agent.Pause.Merge.{
  has_key, check_vault_pause_states-has_key, check_vault_pause_states-later_wins,
}
use tapioca_money.Agent.Rebalance.{
  RebalanceParams, RebalanceCall, Reads, call_of, approve, gateway_redeem, vault_deposit,
  build_rebalance_calls, redeem_calls, deposit_calls, apply_yo_slippage,
}
use tapioca_money.Agent.Rebalance.Funded.{
  Wallet, run_calls, gained, spent, build_rebalance_calls-run,
}
use tapioca_money.Agent.Decision.{
  Fetched, Position, Vault, MorphoVault, YoVault, choose_best, judge_best, choose,
  evaluate_rebalancing, evaluate_fetched, evaluate_position, all_positions, all_vaults, largest,
  current_apy_of, normalize_morpho_position, normalize_yo_position, normalize_morpho_vault,
  normalize_yo_vault,
}
use tapioca_money.Agent.Decision.Best.{IsBest, choose_best-IsBest}
use tapioca_money.Agent.Decision.Choice.{
  IsCurrent, IsTarget, IsAllowed, HasAmount, evaluate_rebalancing-IsTarget,
}
use tapioca_money.Security.Authorization.{Authorization, decrypt_authorization}
use tapioca_money.Agent.Session.{
  AgentSession, from_raw, is_valid, is_valid_type, is_expired, account_address,
}
use tapioca_money.Agent.Registration.{
  User, resolve_row, resolve_agent_registration, resolve_and_decrypt_registration,
}
use tapioca_money.Agent.Registration.Resolve.{resolve_and_decrypt_registration-account}
use tapioca_money.Agent.Rebalance.Execution.{
  Chain, DelegationStatus, SessionKey, RebalanceResult, execute_rebalance,
}
use tapioca_money.Agent.Rebalance.Execution.Sent.{HasExecuted, execute_rebalance-HasExecuted}
use tapioca_money.Agent.Oracle.{RoundData, Feeds, Texts, is_rebalance_safe}
use tapioca_money.Agent.Oracle.Safety.{IsHealthy, is_rebalance_safe-IsHealthy}

abbrev paused : String → Result Bool
paused _ = ok true

abbrev unreachable : String → Result Bool
unreachable _ = err "timeout"

check_vault_pause_states-has_key_example :
    has_key "0xa"
      (check_vault_pause_states
        (check_pause_states 9 paused ∷ check_pause_states 9 unreachable ∷ [])
        60
        9
        ("0xA" ∷ "0xB" ∷ [])
        []).1
    ≡ true
unfolding to_lower
check_vault_pause_states-has_key_example =
    check_vault_pause_states-has_key
      (check_pause_states 9 paused ∷ check_pause_states 9 unreachable ∷ []) 60 9
      ("0xA" ∷ "0xB" ∷ []) [] "0xa" refl

-- The first checker has read that the vault is paused.
check_vault_pause_states-later_wins_example :
    Dict.get "0xa"
      (check_vault_pause_states
        (check_pause_states 9 paused ∷ check_pause_states 9 unreachable ∷ [])
        60
        9
        ("0xa" ∷ [])
        []).1
    ≡ some (create_not_paused_state 9 "0xa")
unfolding to_lower
check_vault_pause_states-later_wins_example =
    check_vault_pause_states-later_wins paused unreachable 60 9 "0xa" "timeout" refl refl

abbrev morpho_vault : String → ℤ → MorphoVault ℤ
morpho_vault address apy = record {
  address = address;
  name = address;
  avg_net_apy = some apy;
  net_apy = none;
  total_assets_usd = some (pos 20_000_000_000_000);
}

-- a position at 3%, and vaults at 3%, 4% and 5%
abbrev fetched : Fetched ℤ
fetched = record {
  morpho_positions = ok (
      record {
        vault_address = "0xA";
        vault_name = "A";
        shares = "10";
        assets = "10";
        assets_usd = some (pos 10_000_000);
      }
      ∷ []);
  yo_positions = ok [];
  morpho_vaults = ok (
      morpho_vault "0xa" (pos 30_000)
      ∷ morpho_vault "0xb" (pos 40_000)
      ∷ morpho_vault "0xc" (pos 50_000)
      ∷ []);
  yo_vaults = ok [];
  fetch_vault = λ _. ok none;
  states = none;
  to_fixed = λ _ _. "";
}

abbrev current : Position ℤ
current = record {
  protocol = morpho;
  vault_address = "0xA";
  vault_name = "A";
  shares = "10";
  assets = "10";
  assets_usd = pos 10_000_000;
  underlying_symbol = "USDC";
  underlying_address = "0x833589fCD6eDb6E08f4c7C32D4f71b54bdA02913";
}

abbrev eligible : List (Vault ℤ)
eligible =
    normalize_morpho_vault ⦃d = fixed⦄ (morpho_vault "0xb" (pos 40_000))
    ∷ normalize_morpho_vault ⦃d = fixed⦄ (morpho_vault "0xc" (pos 50_000))
    ∷ []

abbrev best : Vault ℤ
best = normalize_morpho_vault ⦃d = fixed⦄ (morpho_vault "0xc" (pos 50_000))

choose_best-IsBest_example : IsBest ⦃d = fixed⦄ best eligible
unfolding choose_best judge_best normalize_morpho_vault to_lower
choose_best-IsBest_example =
    choose_best-IsBest ⦃d = fixed⦄ fixed-IsIeee (λ _ _. "") none current (pos 30_000) eligible best
      (refl, (refl, tt)) refl

amounts : (ps : List (Position ℤ)) → All (HasAmount ⦃d = fixed⦄) ps
amounts [] = tt
amounts (p ∷ ps) = (refl, amounts ps)

evaluate_rebalancing-IsTarget_example :
    (morpho_vaults : List (MorphoVault ℤ)) × (yo_vaults : List (YoVault ℤ)) × (current' : Position
      ℤ)
    × (current_apy : ℤ) × (target : Vault ℤ) × (fetched.morpho_vaults ≡ ok morpho_vaults)
    × (fetched.yo_vaults ≡ ok yo_vaults)
    × IsCurrent ⦃d = fixed⦄ fetched morpho_vaults yo_vaults current' current_apy
    × IsTarget ⦃d = fixed⦄
        (IsAllowed ⦃d = fixed⦄ fetched (all_vaults ⦃d = fixed⦄ morpho_vaults yo_vaults) current')
        none
        current'
        current_apy
        (evaluate_rebalancing ⦃d = fixed⦄ fetched none)
        target
unfolding evaluate_rebalancing evaluate_fetched evaluate_position choose choose_best judge_best
    all_positions all_vaults largest current_apy_of normalize_morpho_position normalize_yo_position
    normalize_morpho_vault normalize_yo_vault to_lower to_upper
evaluate_rebalancing-IsTarget_example =
    evaluate_rebalancing-IsTarget ⦃d = fixed⦄ fixed-IsIeee fetched none
      (λ mp yp yv _ _ _. amounts (all_positions ⦃d = fixed⦄ mp yp yv)) refl

abbrev reads : Reads
reads = record {
  gateway = "0xG";
  partner_id = 0;
  preview_redeem = λ _ _. ok 1_000_000;
  quote_preview_redeem = λ _ _. ok 1_000_000;
  quote_preview_deposit = λ _ _. ok 900_000;
}

-- from YO to Morpho
abbrev params : RebalanceParams
params = record {
  from_vault = "0xA";
  to_vault = "0xB";
  shares = 7;
  user_address = "0xU";
  from_protocol = some yo;
  to_protocol = none;
  underlying_address = some "0xT";
}

abbrev wallet : Wallet
wallet = record {
  shares = λ vault. if vault == "0xA" then 7 else 0;
  tokens = 3;
  allowance = λ _ _. 0;
}

abbrev calls : List RebalanceCall
calls =
    call_of "0xA" (approve "0xG" 7)
    ∷ call_of "0xG" (gateway_redeem "0xA" 7 995_000 "0xU" 0)
    ∷ call_of "0xT" (approve "0xB" 995_000)
    ∷ call_of "0xB" (vault_deposit 995_000 "0xU")
    ∷ []

build_rebalance_calls-run_example :
    (w' : Wallet) × (run_calls params 999_000 5 calls wallet ≡ some w')
    × (w'.shares ≡ gained "0xB" 5 (spent "0xA" 7 wallet.shares))
    × (w'.tokens + 995_000 ≡ 999_003)
    × (0 < 995_000)
unfolding build_rebalance_calls redeem_calls deposit_calls apply_yo_slippage
build_rebalance_calls-run_example =
    build_rebalance_calls-run reads params 999_000 5 wallet calls 995_000 0 refl refl refl
      (omega arith) (omega arith) (omega arith)

abbrev session_authorization : Authorization
session_authorization = record {
  type = some "zerodev-erc4337-session";
  eoa_address = some "0xe";
  smart_wallet_address = some "0xs";
  session_key_address = "0xk";
  serialized_account = none;
  approved_vaults = none;
  expiry = some 60;
  timestamp = none;
  session_private_key = none;
  eip7702_signed_auth = none;
  policy_config = none;
  smart_account_address = none;
  created_at = none;
}

abbrev session : AgentSession
session = record { type = "zerodev-erc4337-session"; auth = session_authorization }

abbrev registered : List User
registered =
    record {
      wallet_address = "0xe";
      authorization_7702 = some session_authorization;
      agent_registered = true;
      auto_optimize_enabled = true;
    }
    ∷ []

resolve_and_decrypt_registration-account_example :
    (any (λ a. "0xe" == a) ("0xe" ∷ []) ≡ true)
    × ((session' : AgentSession) × (from_raw (some session_authorization) ≡ some session')
        × (is_valid 5000 session' ≡ true)
        × (session_authorization.smart_wallet_address ≡ (
            if session'.type == "zerodev-erc4337-session"
            then session_authorization.smart_wallet_address
            else session_authorization.eoa_address)))
unfolding resolve_and_decrypt_registration resolve_agent_registration resolve_row
    decrypt_authorization from_raw is_valid_type is_expired account_address
resolve_and_decrypt_registration-account_example =
    resolve_and_decrypt_registration-account {S = Unit {0}} (λ text. pure text) 5000 registered
      ("0xe" ∷ []) tt "0xe" session_authorization session_authorization (some "0xs") refl

abbrev round : RoundData
round = record { round_id = 1; answer = pos 0; started_at = 0; updated_at = 90_000 }

-- the price is 0.994
abbrev depegged : Feeds
depegged = record {
  sequencer = ok round;
  usdc = ok (record round { answer = pos 99_400_000 });
  usdc_decimals = ok 8;
}

abbrev texts : Texts ℤ
texts = record { to_iso_string = λ _. ""; to_fixed = λ _ _. "" }

is_rebalance_safe-IsHealthy_example :
    ((is_rebalance_safe ⦃d = fixed⦄ texts 100_000 depegged).good ≡ true)
    ↔ IsHealthy ⦃d = fixed⦄ texts 100_000 depegged
is_rebalance_safe-IsHealthy_example = is_rebalance_safe-IsHealthy ⦃d = fixed⦄ texts 100_000 depegged

abbrev delegated : DelegationStatus
delegated = record { active = true; is_delegation = true; implementation_address = some "0xI" }

abbrev chain : Chain (Unit {0}) String
chain = record {
  reads = λ _. reads;
  check_active = λ _. pure delegated;
  expected_implementation = "0xi";
  deserialized_client = λ text. pure text;
  session_client = λ account _ _ _. pure account;
  with_builder_code = λ calls. calls;
  send_user_operation = λ _ _. pure "0xh";
  wait_for_receipt =
      λ _ _. pure (record { success = true; reason = none; transaction_hash = "0xt" });
  verify_delegation = λ _ _. pure true;
  call = λ _ _. pure tt;
}

abbrev session_key : SessionKey
session_key = record {
  session_private_key = none;
  approved_vaults = none;
  eip7702_signed_auth = none;
}

execute_rebalance-HasExecuted_example :
    (r : RebalanceResult) × ((execute_rebalance chain [] "0xU" params session_key
        (some "text")
        tt).0
      ≡ ok r)
    × ((r.success ≡ false)
        ⊎ HasExecuted chain [] "0xU" params session_key (some "text") tt r.task_id)
execute_rebalance-HasExecuted_example =
    execute_rebalance-HasExecuted chain [] "0xU" params session_key (some "text") tt
