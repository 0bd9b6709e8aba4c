-- ===== src/Redis/Limiter/Closed.antt =====
-- The limiter over any cache: a failing cache never lets a request through where it fails closed.
use tapioca_money.Base.{ℕ, ◌-◌, ◌<◌, String, ◌≡◌, inl, inr, true, List, length, arith}
use tapioca_money.Redis.Action.{Result-cases, ok}
use tapioca_money.Redis.Cache.{Cache}
use tapioca_money.Redis.Limiter.{
  PartialConfig, RateLimitResult, with_defaults, limit_key, judge, refused, on_cache_error,
  check_rate_limit,
}

module _ {S : Type 0} (c : Cache S) (now : ℕ) (identifier : String) (config : PartialConfig)
    (s : S) where
  abbrev key : String
  key = limit_key (with_defaults config).key_prefix identifier

  abbrev since : ℕ
  since = now - (with_defaults config).window_ms

  -- the cache after the clean-up
  abbrev cleaned : S
  cleaned = (c.zremrangebyscore now key 0 since (c.connect s).1).1

  judge-allowed :
      (requests : List String)
      → (judge now (with_defaults config) requests).allowed ≡ true
      → length requests < (with_defaults config).max_requests
  unfolding judge refused
  judge-allowed requests h = ground arith

  -- Where the limiter fails closed, over any cache: a request is allowed only if the cache has
  -- connected, has cleaned up and has listed the requests, and these are fewer than the limit.
  pub check_rate_limit-allowed_only :
      (r : RateLimitResult)
      → (with_defaults config).fail_closed ≡ true
      → (check_rate_limit c now identifier config s).0 ≡ ok r
      → r.allowed ≡ true
      → (requests : List String) × ((c.connect s).0 ≡ ok tt)
        × ((c.zremrangebyscore now key 0 since (c.connect s).1).0 ≡ ok tt)
        × ((c.zrangebyscore now key since now cleaned).0 ≡ ok requests)
        × (length requests < (with_defaults config).max_requests)
  unfolding check_rate_limit on_cache_error
  check_rate_limit-allowed_only r closed made allowed =
      elim (Result-cases (c.zrangebyscore now key since now cleaned).0) [
        | inr (e, failed) ↦ absurd (ground arith)
        | inl (requests, listed) ↦
            (requests, ground arith, ground arith, listed, ground (arith, judge-allowed requests))
      ]
