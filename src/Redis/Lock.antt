-- ===== src/Redis/Lock.antt =====
-- lib/redis/distributed-lock.ts, over any cache. The random id is an argument.
pub mod Exclusion
pub mod Freed
use tapioca_money.Base.{
  ℕ, String, Bool, true, false, Option, none, some, List, [], ◌∷◌, if◌then◌else◌, to_lower, ◌+++◌,
  ◌==◌,
}
use tapioca_money.Redis.Action.{Action, pure, ◌>>=◌, ◌>>◌}
use tapioca_money.Redis.Cache.{Cache, release_lock_script}

pub record LockResult : Type 0 where
  pub acquired : Bool
  pub lock_id : Option String

abbrev pub default_lock_ttl : ℕ
default_lock_ttl = 300

unfoldable pub lock_key : String → String
lock_key user_address = "lock:rebalance:" +++ to_lower user_address

module _ {S : Type 0} (c : Cache S) where
  unfoldable pub acquire_user_lock : ℕ → String → String → ℕ → Action S LockResult
  acquire_user_lock now lock_id user_address ttl_seconds = do
    c.connect
    acquired ← c.set_nx now (lock_key user_address) lock_id ttl_seconds
    pure (
        if acquired
        then record { acquired = true; lock_id = some lock_id }
        else record { acquired = false; lock_id = none })

  -- the fallback where scripts are not supported: delete what is still ours
  unfoldable pub delete_own : ℕ → String → String → Action S (Unit {0})
  delete_own now user_address lock_id = do
    current ← c.get now (lock_key user_address)
    elim current [
      | none ↦ pure tt
      | some held ↦ if held == lock_id then c.del now (lock_key user_address) else pure tt
    ]

  unfoldable pub release_user_lock : ℕ → String → String → Action S (Unit {0})
  unfolding delete_own
  release_user_lock now user_address lock_id = do
    c.connect
    result ← c.eval now release_lock_script (lock_key user_address ∷ []) (lock_id ∷ [])
    elim result [ some _ ↦ pure tt | none ↦ delete_own now user_address lock_id ]
