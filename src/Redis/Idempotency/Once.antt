-- ===== src/Redis/Idempotency/Once.antt =====
-- The handler of a key on the in-memory store: once for calls that follow one another, and again for
-- a caller that looked up the response before an earlier caller had finished.
use tapioca_money.Base.{
  ℕ, ◌+◌, ◌*◌, ◌≤◌, String, ◌≡◌, ◌≢◌, ◌∙◌, refl, true, false, Option, some, none, arith,
  if◌then◌else◌, is_empty, ◌==◌, ◌+++◌,
}
use tapioca_money.Base.Dict
use tapioca_money.Base.Dict.{get-set, get-set_self, get-set_ne, get-delete_self, get-delete_ne}
use tapioca_money.Redis.Action.{Action, ok, err, ◌>>◌, pure, throw, finally, >>=-ok, finally-ok}
use tapioca_money.Redis.Memory
use tapioca_money.Redis.Memory.{Memory, Item, memory_cache, is_live, is_expired, expiry_of}
use tapioca_money.Redis.Idempotency.{
  run_and_cache, Json, build_key, busy_message, lookup_response, run_locked, with_idempotency_key,
}

module _ {T : Type 0} (json : Json T) (user_id key : String) where
  abbrev pub full : String
  full = build_key user_id key

  abbrev pub lock : String
  lock = full +++ ":lock"

  -- the lock's key is not the response's: it is longer
  abbrev pub IsApart : Type 0
  IsApart = (lock == full) ≡ false

  -- after the handler of a call that held the lock
  abbrev left_by : ℕ → Option ℕ → T → Memory → Memory
  left_by done ttl result m = record m {
    texts = Dict.delete lock (
        Dict.set full (record { value = json.stringify result; expiry = expiry_of done ttl })
          m.texts);
  }

  -- the store in which the handler runs
  abbrev pub locked : ℕ → ℕ → Memory → Memory
  locked now lock_ttl m = record m {
    texts = Dict.set lock (record { value = "1"; expiry = some (now + lock_ttl * 1000) }) m.texts;
  }

  set_nx-free :
      (now lock_ttl : ℕ) (m : Memory)
      → is_live now (Dict.get lock m.texts) ≡ false
      → Memory.set_nx now lock "1" lock_ttl m ≡ (ok true, locked now lock_ttl m)
  unfolding Memory.set_nx
  set_nx-free now lock_ttl m free = rw free refl

  run_ok :
      (now done ttl lock_ttl : ℕ) (fn : Action Memory T) (m after : Memory) (result : T)
      → is_live now (Dict.get lock m.texts) ≡ false
      → fn (locked now lock_ttl m) ≡ (ok result, after)
      → run_locked memory_cache json now done full ttl lock_ttl fn m
        ≡ (ok result, left_by done (some ttl) result after)
  unfolding run_locked Memory.set Memory.del
  run_ok now done ttl lock_ttl fn m after result free ran =
      let kept : T → Action Memory T =
        λ r. memory_cache.set done full (json.stringify r) (some ttl) >> pure r in
      >>=-ok (memory_cache.set_nx now lock "1" lock_ttl)
        (λ acquired.
          if acquired
          then finally (run_and_cache memory_cache json done full ttl fn)
              (memory_cache.del done lock)
          else throw busy_message)
        m (locked now lock_ttl m) true (set_nx-free now lock_ttl m free)
      ∙ finally-ok (run_and_cache memory_cache json done full ttl fn) (memory_cache.del done lock)
          (locked now lock_ttl m) (kept result after).1 (left_by done (some ttl) result after)
          result (>>=-ok fn kept (locked now lock_ttl m) after result ran) refl

  lookup_hit :
      (now : ℕ) (item : Item) (m : Memory) (result : T)
      → Dict.get full m.texts ≡ some item
      → is_expired now item ≡ false
      → is_empty item.value ≡ false
      → json.parse item.value ≡ some result
      → lookup_response memory_cache json now full m ≡ (ok (some result), m)
  unfolding lookup_response Memory.get
  lookup_hit now item m result found live full_text parsed = ground arith

  lookup_miss :
      (now : ℕ) (m : Memory)
      → Dict.get full m.texts ≡ none
      → lookup_response memory_cache json now full m ≡ (ok none, m)
  unfolding lookup_response Memory.get
  lookup_miss now m missing = ground arith

  first_call :
      (now done ttl lock_ttl : ℕ) (fn : Action Memory T) (m after : Memory) (result : T)
      → Dict.get full m.texts ≡ none
      → is_live now (Dict.get lock m.texts) ≡ false
      → fn (locked now lock_ttl m) ≡ (ok result, after)
      → with_idempotency_key memory_cache json now done user_id key ttl lock_ttl fn m
        ≡ (ok result, left_by done (some ttl) result after)
  unfolding with_idempotency_key
  first_call now done ttl lock_ttl fn m after result missing free ran =
      ground
        (arith, lookup_miss now m missing, run_ok now done ttl lock_ttl fn m after result free ran)

  kept_response :
      (done ttl : ℕ) (result : T) (after : Memory)
      → IsApart
      → ttl ≢ 0
      → Dict.get full (left_by done (some ttl) result after).texts
        ≡ some (record { value = json.stringify result; expiry = some (done + ttl * 1000) })
  kept_response done ttl result after apart pos =
      let item : Item = record {
        value = json.stringify result;
        expiry = some (done + ttl * 1000);
      } in
      ground (
        arith,
        get-delete_ne lock full (Dict.set full item after.texts) apart,
        get-set_self full item after.texts,
      )

  -- At most once, for calls that follow one another. The first call misses the cache, holds the lock
  -- and its handler returns `result`. Then any later call with the key, up to `ttl` seconds after the
  -- handler's end, returns `result`, and leaves the store as it was: its own handler does not run.
  -- The response's text is not empty and parses back.
  pub second_call_replays :
      (now done ttl lock_ttl : ℕ) (fn : Action Memory T) (m after : Memory) (result : T)
      → IsApart
      → ttl ≢ 0
      → is_empty (json.stringify result) ≡ false
      → json.parse (json.stringify result) ≡ some result
      → Dict.get full m.texts ≡ none
      → is_live now (Dict.get lock m.texts) ≡ false
      → fn (locked now lock_ttl m) ≡ (ok result, after)
      → (later end : ℕ) (other : Action Memory T) → later ≤ done + ttl * 1000
      → let (r, m') =
          with_idempotency_key memory_cache json now done user_id key ttl lock_ttl fn m in
        (r ≡ ok result)
        × (with_idempotency_key memory_cache json later end user_id key ttl lock_ttl other m'
            ≡ (ok result, m'))
  unfolding with_idempotency_key
  second_call_replays now done ttl lock_ttl fn m after result apart pos text parsed missing free ran
        later end other soon =
      let done_store = left_by done (some ttl) result after in
      let stored = kept_response done ttl result after apart pos in
      rw (first_call now done ttl lock_ttl fn m after result missing free ran) (
        refl,
        ground (
          arith,
          lookup_hit later
              (record { value = json.stringify result; expiry = some (done + ttl * 1000) })
              done_store result stored (ground arith) text parsed,
        ),
      )

  -- While the lock is held and no response is cached, a call is refused and changes nothing.
  pub busy_call :
      (now done ttl lock_ttl : ℕ) (fn : Action Memory T) (m : Memory)
      → Dict.get full m.texts ≡ none
      → is_live now (Dict.get lock m.texts) ≡ true
      → with_idempotency_key memory_cache json now done user_id key ttl lock_ttl fn m
        ≡ (err busy_message, m)
  unfolding with_idempotency_key run_locked Memory.set_nx
  busy_call now done ttl lock_ttl fn m missing held = ground (arith, lookup_miss now m missing)

  -- The race that the lock leaves open. No response is cached and the lock is free; a first call runs
  -- and its handler returns. A second caller that had missed the response before goes on at its lock:
  -- the lock is free, and if its handler returns on that store, its result is the second call's.
  pub late_caller_runs_again :
      (now done ttl lock_ttl : ℕ) (fn : Action Memory T) (m after : Memory) (result : T)
      → Dict.get full m.texts ≡ none
      → is_live now (Dict.get lock m.texts) ≡ false
      → fn (locked now lock_ttl m) ≡ (ok result, after)
      → (later end : ℕ) (other : Action Memory T) (again : T) (after' : Memory)
      → other (
          locked later lock_ttl
            (with_idempotency_key memory_cache json now done user_id key ttl lock_ttl fn m).1)
        ≡ (ok again, after')
      → (run_locked memory_cache json later end full ttl lock_ttl other
          (with_idempotency_key memory_cache json now done user_id key ttl lock_ttl fn m).1).0
        ≡ ok again
  late_caller_runs_again now done ttl lock_ttl fn m after result missing free ran later end other
        again after' ran' =
      let m' = (with_idempotency_key memory_cache json now done user_id key ttl lock_ttl fn m).1 in
      let unlocked : Dict.get lock m'.texts ≡ none =
        rw (first_call now done ttl lock_ttl fn m after result missing free ran) (
          get-delete_self lock (
            Dict.set full
              (record { value = json.stringify result; expiry = expiry_of done (some ttl) })
              after.texts)) in
      ground
        (arith, run_ok later end ttl lock_ttl other m' after' again (ground (arith, unlocked)) ran')
