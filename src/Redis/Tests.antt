-- ===== src/Redis/Tests.antt =====
-- The limiter, the lock, the budget and the idempotency keys on the in-memory store, at concrete inputs.
use tapioca_money.Base.{
  trim_start, trim_end, slice_to, ℕ, ◌≤◌, ◌<◌, inl, String, ◌≡◌, refl, arith, length, true, some,
  none, List, [], ◌∷◌, to_lower, ◌+++◌, to_string,
}
use tapioca_money.Base.Dict
use tapioca_money.Redis.Action.{Result, ok}
use tapioca_money.Redis.Memory
use tapioca_money.Redis.Memory.{Memory, memory_cache, empty_memory}
use tapioca_money.Redis.Memory.Refine.{
  Op, get_key, set_key, set_key_nx, run_memory, run_spec, run_memory-run_spec,
}
use tapioca_money.Redis.Lock.Freed.{Reach-acquired}
use tapioca_money.Redis.Limiter.{
  PartialConfig, check_rate_limit, check_and_record, check_and_record_fallback, record_request,
  judge, limit_key, member_of,
}
use tapioca_money.Redis.Limiter.Closed.{check_rate_limit-allowed_only}
use tapioca_money.Redis.Limiter.Window.{in_window, run, run-within_limit}
use tapioca_money.Redis.Lock.{acquire_user_lock, lock_key}
use tapioca_money.Redis.Lock.Exclusion.{Hold, acquired, here, next, Reach-exclusive}
use tapioca_money.Redis.Idempotency.{Json, build_key, with_idempotency_key, run_locked}
use tapioca_money.Redis.Idempotency.Once.{second_call_replays, late_caller_runs_again}

-- two calls in a second
abbrev two_per_second : PartialConfig
two_per_second = record {
  max_requests = some 2;
  window_ms = some 1000;
  key_prefix = none;
  fail_closed = none;
}

run-within_limit_example :
    in_window 1000 5000
      (run two_per_second "0xA" ((5000, "a") ∷ (5000, "b") ∷ []) [] empty_memory).0
    ≤ 2
unfolding Dict.get Dict.set check_and_record check_and_record_fallback check_rate_limit
    record_request judge Memory.eval Memory.zremrangebyscore Memory.zrangebyscore Memory.zadd
    Memory.expire limit_key member_of to_lower to_string ◌+++◌
run-within_limit_example =
    run-within_limit two_per_second "0xA" ((5000, "a") ∷ (5000, "b") ∷ []) 5000
      (omega arith, omega arith, refl, (omega arith, omega arith, refl, tt))

check_rate_limit-allowed_only_example :
    (requests : List String) × ((memory_cache.connect empty_memory).0 ≡ ok tt)
    × ((memory_cache.zremrangebyscore 5000 "ratelimit:0xa" 0 4000 empty_memory).0 ≡ ok tt)
    × ((memory_cache.zrangebyscore 5000 "ratelimit:0xa" 4000 5000
          (memory_cache.zremrangebyscore 5000 "ratelimit:0xa" 0 4000 empty_memory).1).0
        ≡ ok requests)
    × (length requests < 2)
unfolding check_rate_limit judge Memory.zremrangebyscore Memory.zrangebyscore limit_key to_lower
    ◌+++◌ Dict.get
check_rate_limit-allowed_only_example =
    check_rate_limit-allowed_only memory_cache 5000 "0xA" two_per_second empty_memory
      (record {
        allowed = true;
        remaining = 2;
        reset_time = some 6000;
        retry_after = none;
        reason = none;
      })
      refl refl refl

-- the store that holds the lock `id`
abbrev locked_store : Memory
locked_store = record {
  texts = Dict.set (lock_key "0xA") (record { value = "id"; expiry = some 305_000 }) [];
  zsets = [];
}

abbrev hold : Hold
hold = record { id = "id"; until = 305_000 }

Reach-exclusive_example : hold.id ≡ hold.id
unfolding acquire_user_lock Memory.set_nx Dict.get
Reach-exclusive_example =
    Reach-exclusive "0xA" 0 5000 locked_store (hold ∷ []) hold hold
      (next here (
        acquired (record { clock = 0; store = empty_memory; holds = [] }) 5000 300 "id" locked_store
          (omega arith) refl))
      (inl refl) (inl refl) (omega arith) (omega arith)

-- the JSON of a text, for texts that need no quotes
abbrev texts : Json String
texts = record { stringify = λ s. s; parse = λ s. some s }

abbrev transfer : String → Memory → Result String × Memory
transfer hash m = (ok hash, m)

-- the store while the handler of the key "k" runs
abbrev running : Memory
running = record {
  texts = Dict.set "transfer:idem:u:k:lock" (record { value = "1"; expiry = some 35_000 }) [];
  zsets = [];
}

second_call_replays_example :
    let (r, m') =
      with_idempotency_key memory_cache texts 5000 6000 "u" "k" 60 30
        (transfer "0x1")
        empty_memory in
    (r ≡ ok "0x1")
    × (with_idempotency_key memory_cache texts 9000 9500 "u" "k" 60 30 (transfer "0x2") m'
        ≡ (ok "0x1", m'))
unfolding build_key trim_start trim_end slice_to ◌+++◌ Dict.get
second_call_replays_example =
    second_call_replays texts "u" "k" 5000 6000 60 30 (transfer "0x1") empty_memory
      (transfer "0x1" (record {
        texts =
            Dict.set (build_key "u" "k" +++ ":lock") (record { value = "1"; expiry = some 35_000 })
              [];
        zsets = [];
      })).1
      "0x1" refl (ground arith) refl refl refl refl refl 9000 9500 (transfer "0x2") (omega arith)

late_caller_runs_again_example :
    (run_locked memory_cache texts 9000 9500
      (build_key "u" "k")
      60
      30
      (transfer "0x2")
      (with_idempotency_key memory_cache texts 5000 6000 "u" "k" 60 30
        (transfer "0x1")
        empty_memory).1).0
    ≡ ok "0x2"
unfolding Dict.get
late_caller_runs_again_example =
    late_caller_runs_again texts "u" "k" 5000 6000 60 30 (transfer "0x1") empty_memory _ "0x1" refl
      refl refl 9000 9500 (transfer "0x2") "0x2" _ refl

abbrev operations : List (ℕ × Op)
operations = (0, set_key "a" "1" (some 1)) ∷ (1001, get_key "a") ∷ (0, set_key_nx "a" "2" 5) ∷ []

run_memory-run_spec_example :
    run_memory 7 operations empty_memory ≡ run_spec 7 operations (λ _. none)
run_memory-run_spec_example = run_memory-run_spec 7 operations

-- the lock was given out for five minutes, and never released
Reach-acquired_example :
    (acquire_user_lock memory_cache 305_001 "next" "0xA" 300 locked_store).0
    ≡ ok (record { acquired = true; lock_id = some "next" })
unfolding acquire_user_lock Memory.set_nx Dict.get
Reach-acquired_example =
    Reach-acquired "0xA" 0 5000 305_001 300 locked_store (hold ∷ []) "next"
      (next here (
        acquired (record { clock = 0; store = empty_memory; holds = [] }) 5000 300 "id" locked_store
          (omega arith) refl))
      (omega arith, tt)
