-- ===== src/Redis/Budget.antt =====
-- lib/redis/rate-limiter.ts: the daily budget of user operations, and the limits on transfers.
pub mod Laws
use tapioca_money.Base.{
  ℕ, ◌+◌, ◌*◌, String, Bool, true, false, Option, none, some, if◌then◌else◌, or_else, is_empty,
  to_lower, to_string, parse_int, ◌+++◌,
}
use tapioca_money.Base.Double.{Double}
use tapioca_money.Redis.Action.{Action, pure, catch, ◌>>=◌, ◌>>◌}
use tapioca_money.Redis.Cache.{Cache}
use tapioca_money.Redis.Limiter.{PartialConfig, RateLimitResult, check_rate_limit, record_request}

unfoldable pub userop_budget_key : String → String
userop_budget_key wallet = "userop_budget:" +++ to_lower wallet

-- `USEROP_DAILY_LIMIT`
abbrev pub userop_daily_limit : ℕ
userop_daily_limit = 90

-- `val ? parseInt(val, 10) : 0`; a text that is no number, which is never written, counts as 0
abbrev pub count_of : Option String → ℕ
count_of none = 0
count_of (some text) = if is_empty text then 0 else or_else (parse_int text) 0

pub record TransferRateLimitConfig (N : Type 0) : Type 0 where
  pub max_transfers_per_day : ℕ
  pub max_amount_per_transfer : N
  pub window_ms : ℕ

module _ {N : Type 0} ⦃d : Double N⦄ where
  -- `DEFAULT_TRANSFER_CONFIG`
  abbrev pub default_transfer_config : TransferRateLimitConfig N
  default_transfer_config = record {
    max_transfers_per_day = 20;
    max_amount_per_transfer = d.decimal 500 0;
    window_ms = 24 * 60 * 60 * 1000;
  }

-- the limiter's configuration for transfers
abbrev pub transfer_config : {N : Type 0} → TransferRateLimitConfig N → PartialConfig
transfer_config cfg = record {
  max_requests = some cfg.max_transfers_per_day;
  window_ms = some cfg.window_ms;
  key_prefix = some "transfer";
  fail_closed = some true;
}

abbrev pub transfer_prefix : PartialConfig
transfer_prefix = record {
  max_requests = none;
  window_ms = none;
  key_prefix = some "transfer";
  fail_closed = none;
}

unfoldable pub transfer_log_key : String → String
transfer_log_key user_address = "transfer:log:" +++ to_lower user_address

module _ {S : Type 0} (c : Cache S) where
  unfoldable pub get_user_op_count : ℕ → String → Action S ℕ
  get_user_op_count now wallet =
      catch (c.connect >> (c.get now (userop_budget_key wallet) >>= λ text. pure (count_of text)))
        (λ _. pure userop_daily_limit)

  -- `current ? parseInt(current, 10) + 1 : 1`
  unfoldable pub increment_user_op_count : ℕ → String → Action S (Unit {0})
  increment_user_op_count now wallet =
      catch
        (c.connect
          >> (c.get now (userop_budget_key wallet) >>= λ current.
              c.set now (userop_budget_key wallet) (to_string (count_of current + 1)) (some 86400)))
        (λ _. pure tt)

  -- `amount` is compared first; `show_max` is the text of the limit
  unfoldable pub check_transfer_rate_limit :
      {N : Type 0} ⦃d : Double N⦄
      → (N → String)
      → ℕ
      → String
      → N
      → TransferRateLimitConfig N
      → Action S RateLimitResult
  check_transfer_rate_limit ⦃d⦄ show_number now user_address amount cfg =
      if d.lt cfg.max_amount_per_transfer amount
      then pure (record {
        allowed = false;
        remaining = 0;
        reset_time = some now;
        retry_after = none;
        reason = some (
            "Amount exceeds maximum of $"
            +++ show_number cfg.max_amount_per_transfer
            +++ " per transfer");
      })
      else check_rate_limit c now user_address (transfer_config cfg)

  -- `entry` is the JSON text of the amount, the success and the time
  unfoldable pub record_transfer_attempt : ℕ → String → String → String → Bool → Action S (Unit {0})
  record_transfer_attempt now uuid user_address entry success =
      (if success then record_request c now uuid user_address transfer_prefix else pure tt)
      >> (c.connect
          >> catch
              (c.zadd now (transfer_log_key user_address) now entry
                >> c.expire now (transfer_log_key user_address) (30 * 24 * 60 * 60))
              (λ _. pure tt))
