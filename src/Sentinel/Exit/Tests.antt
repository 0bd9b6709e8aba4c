-- ===== src/Sentinel/Exit/Tests.antt =====
-- The exit orchestrator over a small world: its state is the number of redeems.
use tapioca_money.Base.{ℕ, suc, ◌+◌, ◌≤◌, ◌⊎◌, ◌≡◌, refl, arith, true, false, some, none, []}
use tapioca_money.Base.Int.{ℤ, pos}
use tapioca_money.Base.Double.{fixed}
use tapioca_money.Redis.Action.{ok, pure, throw}
use tapioca_money.Redis.Cache.{Cache}
use tapioca_money.Redis.Lock.{LockResult, acquire_user_lock, release_user_lock}
use tapioca_money.Sentinel.Types.{
  Action, ActionType, ActionReason, SignalType, number, Protocol, ExitResult,
}
use tapioca_money.Sentinel.Exit.{
  World, UserPosition, succeeded, execute_user_exit, exit_with, exit_under_lock, acquire, release,
  report, log_incident, attempt_redeem,
}
use tapioca_money.Sentinel.Exit.Outcome.{
  HasExited, execute_user_exit-HasExited, execute_user_exit-ok,
}
use tapioca_money.Sentinel.Exit.Calls.{Counts, execute_user_exit-calls}

-- a cache that grants every lock
abbrev granting : Cache ℕ
granting = record {
  connect = pure tt;
  get = λ _ _. pure none;
  set = λ _ _ _ _. pure tt;
  set_nx = λ _ _ _ _. pure true;
  del = λ _ _. pure tt;
  zadd = λ _ _ _ _. pure tt;
  zrangebyscore = λ _ _ _ _. pure [];
  zremrangebyscore = λ _ _ _ _. pure tt;
  zcard = λ _ _. pure 0;
  expire = λ _ _ _. pure tt;
  eval = λ _ _ _ _. pure (some 1);
}

-- Every redeem succeeds; the table cannot be written.
abbrev world : World ℕ ℤ (Unit {0}) (Unit {0})
world = record {
  cache = granting;
  users = pure [];
  balance_of = λ _ _. pure 5;
  recent_exit = λ _ _. pure false;
  insert_incident = λ _. throw "down";
  decrypted = λ _ _. pure tt;
  redeem = λ _ _ _ _ s. (ok (record { success = true; tx_hash = some "0x1"; error = none }), suc s);
  sort = λ ps. ps;
}

abbrev position : UserPosition (Unit {0})
position = record {
  user = record {
    wallet_address = "0xA";
    session_type = "zerodev-7702-session";
    auto_optimize_enabled = true;
    agent_registered = true;
    authorization_7702 = some tt;
    smart_wallet_address = none;
  };
  agent_address = "0xA";
  shares = 5;
}

abbrev action : Action ℤ
action = record {
  type = ActionType.exit;
  reason = ActionReason.depeg;
  vault_address = "0xV";
  protocol = some Protocol.morpho;
  signal_type = SignalType.dex_price;
  value = number (pos 0);
}

-- A success that could not be logged is a success all the same.
unlogged_success :
    execute_user_exit ⦃d = fixed⦄ world 0 1 "id" position action 0
    ≡ (ok (succeeded "0xA" "0x1" 5), 1)
unfolding execute_user_exit exit_with exit_under_lock acquire release report log_incident
    attempt_redeem acquire_user_lock release_user_lock
unlogged_success = refl

execute_user_exit-HasExited_example :
    ((world.recent_exit "0xA" "0xV" 0).0 ≡ ok false)
    × ((lock : LockResult) × (final : ℕ) × ((acquire ⦃d = fixed⦄ world 0 "id" "0xA" 0).0 ≡ ok lock)
        × (lock.acquired ≡ true)
        × HasExited ⦃d = fixed⦄ world position action
            (acquire ⦃d = fixed⦄ world 0 "id" "0xA" 0).1
            (succeeded "0xA" "0x1" 5)
            final
        × ((execute_user_exit ⦃d = fixed⦄ world 0 1 "id" position action 0).1
            ≡ (release ⦃d = fixed⦄ world 1 "0xA" lock final).1))
unfolding execute_user_exit exit_with exit_under_lock acquire release report log_incident
    attempt_redeem acquire_user_lock release_user_lock
execute_user_exit-HasExited_example =
    execute_user_exit-HasExited ⦃d = fixed⦄ world position action 0 1 "id" 0
      (succeeded "0xA" "0x1" 5) refl refl

execute_user_exit-ok_example :
    (r : ExitResult) × ((execute_user_exit ⦃d = fixed⦄ world 0 1 "id" position action 0).0 ≡ ok r)
execute_user_exit-ok_example =
    execute_user_exit-ok ⦃d = fixed⦄ world position action 0 1 "id" 0 false refl

redeems : ℕ → ℕ
redeems s = s

world-Counts : Counts world redeems
unfolding redeems
world-Counts = record {
  at_redeem = λ p ctx vault shares s. omega arith;
  at_recent_exit = λ u v s. omega arith;
  at_insert = λ row s. omega arith;
  at_decrypted = λ a u s. omega arith;
  at_connect = λ s. omega arith;
  at_set_nx = λ now k v ttl s. omega arith;
  at_get = λ now k s. omega arith;
  at_del = λ now k s. omega arith;
  at_eval = λ now script keys args s. omega arith;
}

execute_user_exit-calls_example :
    let after = redeems (execute_user_exit ⦃d = fixed⦄ world 0 1 "id" position action 0).1 in
    (after ≤ redeems 0 + 2)
    × ((after ≤ redeems 0) ⊎ ((world.recent_exit "0xA" "0xV" 0).0 ≡ ok false))
execute_user_exit-calls_example =
    execute_user_exit-calls ⦃d = fixed⦄ world position action redeems world-Counts 0 1 "id" 0
