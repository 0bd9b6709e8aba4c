-- ===== src/Redis/Limiter/Step.antt =====
-- What one call of `checkAndRecordRateLimit` does to the sorted set of the in-memory store.
use tapioca_money.Base.{
  ℕ, ◌+◌, ◌-◌, String, ◌≡◌, Bool, false, not, ◌||◌, List, arith, leb, ltb, if◌then◌else◌, filter,
  length, map,
}
use tapioca_money.Base.Dict
use tapioca_money.Base.Dict.{Dict, get-set_self}
use tapioca_money.Redis.Action.{Result, ok, err}
use tapioca_money.Redis.Memory.{Memory, SortedSet, memory_cache, set_of, in_scores}
use tapioca_money.Redis.Memory
use tapioca_money.Redis.Memory.Laws.{
  entries_of, zremrangebyscore-ok, zremrangebyscore-entries, zrangebyscore_lem, zadd-ok,
  zadd-entries, expire-ok, expire-zsets,
}
use tapioca_money.Redis.Limiter.{
  ceil_seconds, PartialConfig, RateLimitConfig, RateLimitResult, with_defaults, limit_key,
  member_of, judge, refused, closed_by_default, check_rate_limit, record_request,
  check_and_record_fallback, check_and_record,
}

-- those that a clean-up at `now` leaves
abbrev pub kept : ℕ → ℕ → SortedSet → SortedSet
kept now window = filter (λ e. ltb e.1 0 || ltb (now - window) e.1)

-- those that are counted
abbrev pub counted : ℕ → ℕ → SortedSet → ℕ
counted now window entries = length (
    map (λ (e : String × ℕ). e.0) (filter (in_scores (now - window) now) (kept now window entries)))

abbrev pub allowed_of : Result RateLimitResult → Bool
allowed_of (ok r) = r.allowed
allowed_of (err _) = false

-- the key that a call uses
abbrev pub used_key : String → PartialConfig → String
used_key identifier config = limit_key (with_defaults config).key_prefix identifier

-- the call is within the limit
abbrev pub fits : ℕ → PartialConfig → SortedSet → Bool
fits now config entries =
    let cfg = with_defaults config in not (leb cfg.max_requests (counted now cfg.window_ms entries))

-- the entries after it
abbrev pub after_call : ℕ → String → PartialConfig → SortedSet → SortedSet
after_call now uuid config entries =
    let left = kept now (with_defaults config).window_ms entries in
    if fits now config entries then Dict.set (member_of now uuid) now left else left

module _ (now : ℕ) (identifier : String) (config : PartialConfig) (m : Memory) where
  abbrev key : String
  key = used_key identifier config

  abbrev window : ℕ
  window = (with_defaults config).window_ms

  abbrev requests : List String
  requests =
      map (λ (e : String × ℕ). e.0)
        (filter (in_scores (now - window) now) (kept now window (entries_of key m)))

  abbrev cleaned : Memory
  cleaned = (Memory.zremrangebyscore now key 0 (now - window) m).1

  check-memory :
      check_rate_limit memory_cache now identifier config m
      ≡ (ok (judge now (with_defaults config) requests), cleaned)
  unfolding check_rate_limit
  check-memory = ground (
    arith,
    zremrangebyscore-ok now key m 0 (now - window),
    zrangebyscore_lem now key cleaned (now - window) now,
    zremrangebyscore-entries now key m 0 (now - window),
  )

  record-ok : (uuid : String) → (record_request memory_cache now uuid identifier config m).0 ≡ ok tt
  unfolding record_request
  record-ok uuid = ground arith

  record-entries :
      (uuid : String)
      → entries_of key (record_request memory_cache now uuid identifier config m).1
        ≡ Dict.set (member_of now uuid) now (entries_of key m)
  unfolding record_request
  record-entries uuid =
      let added = (Memory.zadd now key now (member_of now uuid) m).1 in
      ground (
        arith,
        zadd-ok now key m now (member_of now uuid),
        zadd-entries now key m now (member_of now uuid),
        expire-ok now key added (ceil_seconds window + 60),
        expire-zsets now key added (ceil_seconds window + 60),
      )

judge-allowed :
    (now : ℕ) (c : RateLimitConfig) (requests : List String)
    → (judge now c requests).allowed ≡ not (leb c.max_requests (length requests))
unfolding judge refused
judge-allowed now c requests = ground arith

module _ (now : ℕ) (uuid identifier : String) (config : PartialConfig) (m : Memory) where
  abbrev checked : RateLimitResult
  checked =
      judge now (with_defaults (closed_by_default config))
        (requests now identifier (closed_by_default config) m)

  abbrev left : Memory
  left = cleaned now identifier (closed_by_default config) m

  fallback-memory : check_and_record_fallback memory_cache now uuid identifier config m ≡ (
      if checked.allowed
      then (
        ok (record checked { remaining = checked.remaining - 1 }),
        (record_request memory_cache now uuid identifier config left).1,
      )
      else (ok checked, left))
  unfolding check_and_record_fallback
  fallback-memory = ground (
    arith,
    check-memory now identifier (closed_by_default config) m,
    record-ok now identifier config left uuid,
  )

  -- Without scripts the fallback runs, and does not throw.
  check_and_record-fallback :
      check_and_record memory_cache now uuid identifier config m
      ≡ check_and_record_fallback memory_cache now uuid identifier config m
  unfolding check_and_record Memory.eval
  check_and_record-fallback = ground (arith, fallback-memory)

-- A call on the in-memory store is allowed exactly if fewer requests than the limit lie in the window,
-- and then adds its own member to the entries that the clean-up leaves.
pub check_and_record-memory :
    (now : ℕ) (uuid identifier : String) (config : PartialConfig) (m : Memory)
    → let (r, m') = check_and_record memory_cache now uuid identifier config m in
      let entries = entries_of (used_key identifier config) m in
      (allowed_of r ≡ fits now config entries)
      × (entries_of (used_key identifier config) m' ≡ after_call now uuid config entries)
check_and_record-memory now uuid identifier config m =
    let allowed =
      judge-allowed now (with_defaults (closed_by_default config))
        (requests now identifier (closed_by_default config) m) in
    rw
      (
        check_and_record-fallback now uuid identifier config m,
        fallback-memory now uuid identifier config m,
      )
      (
        ground (arith, allowed),
        ground (
          arith,
          allowed,
          record-entries now identifier config (left now uuid identifier config m) uuid,
          zremrangebyscore-entries now (used_key identifier config) m 0
              (now - (with_defaults config).window_ms),
        ),
      )
