-- ===== src/Redis/Cache.antt =====
-- lib/redis/client.ts, `CacheInterface`: the operations that Redis and the in-memory store offer. The
-- time is an argument, since the in-memory store reads the clock. `S` is what the cache keeps.
use tapioca_money.Base.{ℕ, String, Bool, Option, List}
use tapioca_money.Redis.Action.{Action}

-- the Lua scripts that the program passes to `eval`
pub data Script : Type 0 where
  release_lock_script rate_limit_script : Script

pub record Cache (S : Type 0) : Type 0 where
  -- `getCacheInterface()`, which throws where production has no Redis
  pub connect : Action S (Unit {0})
  pub get : ℕ → String → Action S (Option String)
  -- the time to live, in seconds, is optional
  pub set : ℕ → String → String → Option ℕ → Action S (Unit {0})
  pub set_nx : ℕ → String → String → ℕ → Action S Bool
  pub del : ℕ → String → Action S (Unit {0})
  pub zadd : ℕ → String → ℕ → String → Action S (Unit {0})
  pub zrangebyscore : ℕ → String → ℕ → ℕ → Action S (List String)
  pub zremrangebyscore : ℕ → String → ℕ → ℕ → Action S (Unit {0})
  pub zcard : ℕ → String → Action S ℕ
  pub expire : ℕ → String → ℕ → Action S (Unit {0})
  -- `null` where scripts are not supported
  pub eval : ℕ → Script → List String → List String → Action S (Option ℕ)
