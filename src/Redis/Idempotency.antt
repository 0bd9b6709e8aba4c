-- ===== src/Redis/Idempotency.antt =====
-- lib/redis/idempotency.ts, over any cache. `T` is what the handler returns; its JSON text is a
-- parameter, with `none` where `JSON.parse` throws. `now` is the time of the lookup, `done` that of the
-- end of the handler.
pub mod Once
use tapioca_money.Base.{
  ℕ, String, Bool, Option, none, some, if◌then◌else◌, is_empty, ◌+++◌, trim, slice_to,
}
use tapioca_money.Redis.Action.{Action, pure, throw, finally, ◌>>=◌, ◌>>◌}
use tapioca_money.Redis.Cache.{Cache}

abbrev pub default_ttl_sec : ℕ
default_ttl_sec = 60

abbrev pub default_lock_ttl_sec : ℕ
default_lock_ttl_sec = 30

abbrev pub busy_message : String
busy_message = "A request with this idempotency key is already in flight"

-- `JSON.stringify` and `JSON.parse` at the type of the results
pub record Json (T : Type 0) : Type 0 where
  pub stringify : T → String
  pub parse : String → Option T

-- `buildKey`
unfoldable pub build_key : String → String → String
build_key user_id key = "transfer:idem:" +++ user_id +++ ":" +++ slice_to 128 (trim key)

module _ {S : Type 0} {T : Type 0} (c : Cache S) (json : Json T) where
  -- the fast path: a response that is cached, after a corrupt one is dropped
  unfoldable pub lookup_response : ℕ → String → Action S (Option T)
  lookup_response now full_key = do
    cached ← c.get now full_key
    elim cached [
      | none ↦ pure none
      | some text ↦ if is_empty text then pure none else elim (json.parse text) [
        | some response ↦ pure (some response)
        | none ↦ c.del now full_key >> pure none
      ]
    ]

  -- the handler, and the response kept before the lock goes
  abbrev pub run_and_cache : ℕ → String → ℕ → Action S T → Action S T
  run_and_cache done full_key ttl_sec fn = do
    result ← fn
    c.set done full_key (json.stringify result) (some ttl_sec)
    pure result

  -- under the execution lock
  unfoldable pub run_locked : ℕ → ℕ → String → ℕ → ℕ → Action S T → Action S T
  run_locked now done full_key ttl_sec lock_ttl_sec fn = do
    acquired ← c.set_nx now (full_key +++ ":lock") "1" lock_ttl_sec
    if acquired
        then finally (run_and_cache done full_key ttl_sec fn) (c.del done (full_key +++ ":lock"))
        else throw busy_message

  unfoldable pub with_idempotency_key : ℕ → ℕ → String → String → ℕ → ℕ → Action S T → Action S T
  with_idempotency_key now done user_id key ttl_sec lock_ttl_sec fn = do
    c.connect
    cached ← lookup_response now (build_key user_id key)
    elim cached [
      | some response ↦ pure response
      | none ↦ run_locked now done (build_key user_id key) ttl_sec lock_ttl_sec fn
    ]
