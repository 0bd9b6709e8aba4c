-- ===== src/Redis/Memory/Laws.antt =====
-- The sorted sets of the in-memory store, one operation at a time: its result, and the entries left.
use tapioca_money.Base.{ℕ, String, ◌≡◌, refl, inl, inr, ◌||◌, arith, ltb, filter, map, Option-cases}
use tapioca_money.Base.Dict
use tapioca_money.Base.Dict.{get-set_self}
use tapioca_money.Redis.Action.{ok}
use tapioca_money.Redis.Memory.{
  Memory, SortedSet, set_of, in_scores, zadd, zrangebyscore, zremrangebyscore, expire,
}

-- the entries under a key
abbrev pub entries_of : String → Memory → SortedSet
entries_of key m = set_of (Dict.get key m.zsets)

module _ (now : ℕ) (key : String) (m : Memory) where
  pub zremrangebyscore-ok : (min max : ℕ) → (zremrangebyscore now key min max m).0 ≡ ok tt
  unfolding zremrangebyscore
  zremrangebyscore-ok min max = ground arith

  pub zremrangebyscore-entries :
      (min max : ℕ)
      → entries_of key (zremrangebyscore now key min max m).1
        ≡ filter (λ e. ltb e.1 min || ltb max e.1) (entries_of key m)
  unfolding zremrangebyscore
  zremrangebyscore-entries min max = elim (Option-cases (Dict.get key m.zsets)) [
    | inl missing ↦ ground arith
    | inr (entries, found) ↦ ground (
      arith,
      get-set_self key (filter (λ (e : String × ℕ). ltb e.1 min || ltb max e.1) entries) m.zsets,
    )
  ]

  pub zrangebyscore_lem :
      (min max : ℕ)
      → zrangebyscore now key min max m
        ≡ (ok (map (λ e. e.0) (filter (in_scores min max) (entries_of key m))), m)
  unfolding zrangebyscore
  zrangebyscore_lem min max = ground arith

  pub zadd-ok : (score : ℕ) (member : String) → (zadd now key score member m).0 ≡ ok tt
  unfolding zadd
  zadd-ok score member = refl

  pub zadd-entries :
      (score : ℕ) (member : String)
      → entries_of key (zadd now key score member m).1 ≡ Dict.set member score (entries_of key m)
  unfolding zadd
  zadd-entries score member =
      ground (arith, get-set_self key (Dict.set member score (entries_of key m)) m.zsets)

  pub expire-ok : (seconds : ℕ) → (expire now key seconds m).0 ≡ ok tt
  unfolding expire
  expire-ok seconds = ground arith

  -- Sorted sets have no time to live in the in-memory store.
  pub expire-zsets : (seconds : ℕ) → (expire now key seconds m).1.zsets ≡ m.zsets
  unfolding expire
  expire-zsets seconds = ground arith
