-- ===== src/Redis/Memory.antt =====
-- lib/redis/client.ts, the in-memory fallback. `memoryStore` holds texts under plain keys, and sorted
-- sets under keys with the prefix "zset:". The two stand apart here, so that a plain key that begins with
-- "zset:", which no caller passes, is outside the model; a sorted set is kept as the entries that its
-- JSON text lists.
pub mod Laws
pub mod Refine
use tapioca_money.Base.{
  ℕ, ◌+◌, ◌*◌, String, Bool, true, false, not, ◌&&◌, ◌||◌, Option, none, some, List, [], map, leb,
  ltb, nat_eq, if◌then◌else◌, filter, length,
}
use tapioca_money.Base.Dict
use tapioca_money.Base.Dict.{Dict}
use tapioca_money.Redis.Action.{Action, pure}
use tapioca_money.Redis.Cache.{Cache, Script}

pub record Item : Type 0 where
  pub value : String
  pub expiry : Option ℕ

-- members and their scores, in the order of a `Map`
abbrev pub SortedSet : Type 0
SortedSet = Dict ℕ

pub record Memory : Type 0 where
  pub texts : Dict Item
  pub zsets : Dict SortedSet

abbrev pub empty_memory : Memory
empty_memory = record { texts = []; zsets = [] }

-- `item.expiry && item.expiry < Date.now()`; no expiry is 0, since the clock is past 0
abbrev pub is_expired : ℕ → Item → Bool
is_expired now item = elim item.expiry [ none ↦ false | some t ↦ ltb t now ]

unfoldable pub get : ℕ → String → Action Memory (Option String)
get now key m = elim (Dict.get key m.texts) [
  | none ↦ pure none m
  | some item ↦
      if is_expired now item
      then pure none (record m { texts = Dict.delete key m.texts })
      else pure (some item.value) m
]

-- `ttlSeconds ? Date.now() + ttlSeconds * 1000 : undefined`
abbrev pub expiry_of : ℕ → Option ℕ → Option ℕ
expiry_of now none = none
expiry_of now (some ttl_seconds) =
    if nat_eq ttl_seconds 0 then none else some (now + ttl_seconds * 1000)

unfoldable pub set : ℕ → String → String → Option ℕ → Action Memory (Unit {0})
set now key value ttl_seconds m = pure tt (record m {
  texts = Dict.set key (record { value = value; expiry = expiry_of now ttl_seconds }) m.texts;
})

abbrev pub is_live : ℕ → Option Item → Bool
is_live now none = false
is_live now (some item) = not (is_expired now item)

unfoldable pub set_nx : ℕ → String → String → ℕ → Action Memory Bool
set_nx now key value ttl_seconds m =
    if is_live now (Dict.get key m.texts)
    then pure false m
    else pure true (record m {
      texts =
          Dict.set key (record { value = value; expiry = some (now + ttl_seconds * 1000) }) m.texts;
    })

unfoldable pub del : ℕ → String → Action Memory (Unit {0})
del now key m = pure tt (record m { texts = Dict.delete key m.texts })

abbrev pub set_of : Option SortedSet → SortedSet
set_of none = []
set_of (some s) = s

unfoldable pub zadd : ℕ → String → ℕ → String → Action Memory (Unit {0})
zadd now key score member m = pure tt (record m {
  zsets = Dict.set key (Dict.set member score (set_of (Dict.get key m.zsets))) m.zsets;
})

abbrev pub in_scores : ℕ → ℕ → String × ℕ → Bool
in_scores min max (_, score) = leb min score && leb score max

unfoldable pub zrangebyscore : ℕ → String → ℕ → ℕ → Action Memory (List String)
zrangebyscore now key min max m = elim (Dict.get key m.zsets) [
  | none ↦ pure [] m
  | some entries ↦ pure (map (λ e. e.0) (filter (in_scores min max) entries)) m
]

unfoldable pub zremrangebyscore : ℕ → String → ℕ → ℕ → Action Memory (Unit {0})
zremrangebyscore now key min max m = elim (Dict.get key m.zsets) [
  | none ↦ pure tt m
  | some entries ↦
      pure tt (record m {
        zsets = Dict.set key (filter (λ e. ltb e.1 min || ltb max e.1) entries) m.zsets;
      })
]

unfoldable pub zcard : ℕ → String → Action Memory ℕ
zcard now key m = elim (Dict.get key m.zsets) [
  | none ↦ pure 0 m
  | some entries ↦ pure (length entries) m
]

-- `memoryStore.get(key)` is a plain key: a sorted set has no item of its own name.
unfoldable pub expire : ℕ → String → ℕ → Action Memory (Unit {0})
expire now key seconds m = elim (Dict.get key m.texts) [
  | none ↦ pure tt m
  | some item ↦ pure tt (record m {
    texts = Dict.set key (record item { expiry = some (now + seconds * 1000) }) m.texts;
  })
]

unfoldable pub eval : ℕ → Script → List String → List String → Action Memory (Option ℕ)
eval now script keys args m = pure none m

-- the fallback of `getCacheInterface`
abbrev pub memory_cache : Cache Memory
memory_cache = record {
  connect = pure tt;
  get = get;
  set = set;
  set_nx = set_nx;
  del = del;
  zadd = zadd;
  zrangebyscore = zrangebyscore;
  zremrangebyscore = zremrangebyscore;
  zcard = zcard;
  expire = expire;
  eval = eval;
}
