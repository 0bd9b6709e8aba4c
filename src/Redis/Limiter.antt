-- ===== src/Redis/Limiter.antt =====
-- lib/redis/rate-limiter.ts, over any cache. The clock and the random ids are arguments. The clock is
-- past the windows, so that `-` does not stop at 0.
pub mod Step
pub mod Window
pub mod Closed
use tapioca_money.Base.{
  ℕ, ◌+◌, ◌-◌, ◌*◌, ◌/◌, String, Bool, true, false, Option, none, some, List, [], ◌∷◌, leb, length,
  if◌then◌else◌, or_else, is_empty, to_lower, to_string, before_colon, parse_int, ◌+++◌, head?,
}
use tapioca_money.Base.Double.{Double}
use tapioca_money.Redis.Action.{Action, pure, catch, ◌>>=◌, ◌>>◌}
use tapioca_money.Redis.Cache.{Cache, rate_limit_script}

pub record RateLimitConfig : Type 0 where
  pub max_requests : ℕ
  pub window_ms : ℕ
  pub key_prefix : String
  pub fail_closed : Bool

-- `Partial<RateLimitConfig>`
pub record PartialConfig : Type 0 where
  pub max_requests : Option ℕ
  pub window_ms : Option ℕ
  pub key_prefix : Option String
  pub fail_closed : Option Bool

-- `none` in the two numbers of times is NaN or absent
pub record RateLimitResult : Type 0 where
  pub allowed : Bool
  pub remaining : ℕ
  pub reset_time : Option ℕ
  pub retry_after : Option ℕ
  pub reason : Option String

abbrev pub default_config : RateLimitConfig
default_config = record {
  max_requests = 20;
  window_ms = 24 * 60 * 60 * 1000;
  key_prefix = "ratelimit";
  fail_closed = true;
}

-- `{ ...DEFAULT_CONFIG, ...config }`
abbrev pub with_defaults : PartialConfig → RateLimitConfig
with_defaults config = record {
  max_requests = or_else config.max_requests default_config.max_requests;
  window_ms = or_else config.window_ms default_config.window_ms;
  key_prefix = or_else config.key_prefix default_config.key_prefix;
  fail_closed = or_else config.fail_closed default_config.fail_closed;
}

unfoldable pub limit_key : String → String → String
limit_key prefix identifier = prefix +++ ":" +++ to_lower identifier

-- `${now}:${uuid}`
unfoldable pub member_of : ℕ → String → String
member_of now uuid = to_string now +++ ":" +++ uuid

-- `Math.ceil(ms / 1000)`
abbrev pub ceil_seconds : ℕ → ℕ
ceil_seconds ms = (ms + 999) / 1000

-- the time in the first request that is listed
unfoldable pub oldest_of : ℕ → List String → Option ℕ
oldest_of now [] = some now
oldest_of now (request ∷ requests) = parse_int (before_colon request)

unfoldable pub refused : ℕ → RateLimitConfig → List String → RateLimitResult
refused now cfg requests = elim (oldest_of now requests) [
  | none ↦ record {
    allowed = false;
    remaining = 0;
    reset_time = none;
    retry_after = none;
    reason = some "Rate limit exceeded. Try again in NaN seconds.";
  }
  | some oldest ↦
      let wait = ceil_seconds (oldest + cfg.window_ms - now) in
      record {
        allowed = false;
        remaining = 0;
        reset_time = some (oldest + cfg.window_ms);
        retry_after = some wait;
        reason = some ("Rate limit exceeded. Try again in " +++ to_string wait +++ " seconds.");
      }
]

-- without a reason, until the window has passed
abbrev pub granted : ℕ → RateLimitConfig → ℕ → RateLimitResult
granted now cfg remaining = record {
  allowed = true;
  remaining = remaining;
  reset_time = some (now + cfg.window_ms);
  retry_after = none;
  reason = none;
}

-- what a failure of the cache gives
unfoldable pub on_cache_error : ℕ → RateLimitConfig → RateLimitResult
on_cache_error now cfg =
    if cfg.fail_closed
    then record {
      allowed = false;
      remaining = 0;
      reset_time = some (now + 60_000);
      retry_after = none;
      reason = some "Rate limiter unavailable. Request denied for safety.";
    }
    else granted now cfg cfg.max_requests

-- steps 3 and 4: the count against the limit
unfoldable pub judge : ℕ → RateLimitConfig → List String → RateLimitResult
judge now cfg requests =
    if leb cfg.max_requests (length requests)
    then refused now cfg requests
    else granted now cfg (cfg.max_requests - length requests)

-- `{ failClosed: true, ...config }`
abbrev pub closed_by_default : PartialConfig → PartialConfig
closed_by_default config = record config { fail_closed = some (or_else config.fail_closed true) }

-- what the count that the script returns means
judge_count : ℕ → RateLimitConfig → ℕ → RateLimitResult
judge_count now cfg count =
    if leb cfg.max_requests count
    then record {
      allowed = false;
      remaining = 0;
      reset_time = some (now + cfg.window_ms);
      retry_after = some (ceil_seconds cfg.window_ms);
      reason = some "Rate limit exceeded. Try again later.";
    }
    else granted now cfg (cfg.max_requests - count - 1)

module _ {S : Type 0} (c : Cache S) where
  -- the body of the `try`
  count_and_judge : ℕ → String → RateLimitConfig → Action S RateLimitResult
  count_and_judge now key cfg = do
    c.zremrangebyscore now key 0 (now - cfg.window_ms)
    requests ← c.zrangebyscore now key (now - cfg.window_ms) now
    pure (judge now cfg requests)

  unfoldable pub check_rate_limit : ℕ → String → PartialConfig → Action S RateLimitResult
  unfolding count_and_judge
  check_rate_limit now identifier config =
      let cfg = with_defaults config in
      c.connect
      >> catch (count_and_judge now (limit_key cfg.key_prefix identifier) cfg)
          (λ _. pure (on_cache_error now cfg))

  unfoldable pub record_request : ℕ → String → String → PartialConfig → Action S (Unit {0})
  record_request now uuid identifier config =
      let cfg = with_defaults config in
      let key = limit_key cfg.key_prefix identifier in
      c.connect
      >> catch
          (c.zadd now key now (member_of now uuid)
            >> c.expire now key (ceil_seconds cfg.window_ms + 60))
          (λ _. pure tt)

  unfoldable pub check_and_record_fallback :
      ℕ → String → String → PartialConfig → Action S RateLimitResult
  check_and_record_fallback now uuid identifier config = do
    result ← check_rate_limit now identifier (closed_by_default config)
    if result.allowed
        then record_request now uuid identifier config
          >> pure (record result { remaining = result.remaining - 1 })
        else pure result

  unfoldable pub check_and_record : ℕ → String → String → PartialConfig → Action S RateLimitResult
  unfolding judge_count
  check_and_record now uuid identifier config =
      let cfg = with_defaults config in
      c.connect
      >> catch
          (c.eval now rate_limit_script (limit_key cfg.key_prefix identifier ∷ []) (
              to_string (now - cfg.window_ms)
              ∷ to_string cfg.max_requests
              ∷ to_string now
              ∷ member_of now uuid
              ∷ to_string (ceil_seconds cfg.window_ms + 60)
              ∷ [])
            >>= λ result. elim result [
              | none ↦ check_and_record_fallback now uuid identifier config
              | some count ↦ pure (judge_count now cfg count)
            ])
          (λ _. pure (on_cache_error now cfg))

  unfoldable pub reset_rate_limit : ℕ → String → String → Action S (Unit {0})
  reset_rate_limit now identifier key_prefix =
      c.connect >> catch (c.del now (limit_key key_prefix identifier)) (λ _. pure tt)

  -- the count and the limit
  unfoldable pub get_rate_limit_usage : ℕ → String → PartialConfig → Action S (ℕ × ℕ)
  get_rate_limit_usage now identifier config =
      let cfg = with_defaults config in
      let key = limit_key cfg.key_prefix identifier in
      c.connect
      >> catch
          (c.zremrangebyscore now key 0 (now - cfg.window_ms)
            >> (c.zcard now key >>= λ count. pure (count, cfg.max_requests)))
          (λ _. pure (0, cfg.max_requests))
