-- ===== src/Redis/Lock/Exclusion.antt =====
-- The lock on the in-memory store, as a system of steps: at most one holder at any time.
use tapioca_money.Base.{
  ℕ, ◌+◌, ◌*◌, ◌≤◌, ◌<◌, String, ◌≡◌, ◌⊎◌, inl, inr, true, false, not, Option, some, none, List, [],
  ◌∷◌, arith, ltb, sym, if◌then◌else◌, ◌==◌, All, All-imp, All-filter_imp, filter, Bool-cases,
}
use mathlib.Core.Path.{subst}
use tapioca_money.Base.Dict
use tapioca_money.Base.Dict.{
  get-set, get-set_self, get-set_ne, get-delete, get-delete_self, get-delete_ne,
}
use tapioca_money.Redis.Action.{ok}
use tapioca_money.Redis.Memory
use tapioca_money.Redis.Memory.{Memory, Item, memory_cache, empty_memory, is_live, is_expired}
use tapioca_money.Redis.Lock.{lock_key, acquire_user_lock, release_user_lock}

-- a lock that was given out, with the last time at which it counts
pub record Hold : Type 0 where
  pub id : String
  pub until : ℕ

-- the store, the time, and the locks on one user that were given out and not released
pub record World : Type 0 where
  pub clock : ℕ
  pub store : Memory
  pub holds : List Hold

-- the item of a lock
abbrev pub item_of : Hold → Item
item_of h = record { value = h.id; expiry = some h.until }

module _ (user : String) where
  abbrev pub key : String
  key = lock_key user

  -- `acquireUserLock` on the in-memory store
  pub acquire-memory :
      (now ttl : ℕ) (id : String) (m : Memory)
      → acquire_user_lock memory_cache now id user ttl m ≡ (
          if is_live now (Dict.get key m.texts)
          then (ok (record { acquired = false; lock_id = none }), m)
          else (
            ok (record { acquired = true; lock_id = some id }),
            record m {
              texts =
                  Dict.set key (record { value = id; expiry = some (now + ttl * 1000) }) m.texts;
            },
          ))
  unfolding acquire_user_lock Memory.set_nx
  acquire-memory now ttl id m = ground arith

  -- what `releaseUserLock` leaves under the key of a user
  abbrev pub released : ℕ → String → Option Item → Option Item
  released now id none = none
  released now id (some item) =
      if is_expired now item then none else if item.value == id then none else some item

  -- the store under the key of `user` after a release for `other`
  pub release-other :
      (now : ℕ) (id other : String) (m : Memory)
      → (lock_key other == key) ≡ false
      → Dict.get key (release_user_lock memory_cache now other id m).1.texts ≡ Dict.get key m.texts
  unfolding release_user_lock Memory.get Memory.del Memory.eval
  release-other now id other m ne = ground (arith, get-delete_ne (lock_key other) key m.texts ne)

  pub acquire-other :
      (now ttl : ℕ) (id other : String) (m : Memory)
      → (lock_key other == key) ≡ false
      → Dict.get key (acquire_user_lock memory_cache now id other ttl m).1.texts
        ≡ Dict.get key m.texts
  unfolding acquire_user_lock Memory.set_nx
  acquire-other now ttl id other m ne = ground (
    arith,
    get-set_ne (lock_key other) key (record { value = id; expiry = some (now + ttl * 1000) })
        m.texts ne,
  )

  pub release-memory :
      (now : ℕ) (id : String) (m : Memory)
      → Dict.get key (release_user_lock memory_cache now user id m).1.texts
        ≡ released now id (Dict.get key m.texts)
  unfolding release_user_lock Memory.get Memory.del Memory.eval
  release-memory now id m = ground (arith, get-delete_self key m.texts)

  pub acquire-texts :
      (now ttl : ℕ) (id : String) (m : Memory)
      → Dict.get key (acquire_user_lock memory_cache now id user ttl m).1.texts ≡ (
          if is_live now (Dict.get key m.texts)
          then Dict.get key m.texts
          else some (record { value = id; expiry = some (now + ttl * 1000) }))
  acquire-texts now ttl id m = rw (acquire-memory now ttl id m) (
      ground
        (arith, get-set_self key (record { value = id; expiry = some (now + ttl * 1000) }) m.texts))

  -- the holds after an attempt, by what it returned
  abbrev held_after : ℕ → ℕ → String → Memory → List Hold → List Hold
  held_after now ttl id m holds =
      if is_live now (Dict.get key m.texts)
      then holds
      else record { id = id; until = now + ttl * 1000 } ∷ holds

  -- Anyone may acquire or release, for this user or for another, at any later time.
  pub data Step : World → World → Type 0 where
    acquired :
        (w : World) (now ttl : ℕ) (id : String) (store : Memory)
        → w.clock ≤ now
        → acquire_user_lock memory_cache now id user ttl w.store
          ≡ (ok (record { acquired = true; lock_id = some id }), store)
        → Step w (record {
          clock = now;
          store = store;
          holds = record { id = id; until = now + ttl * 1000 } ∷ w.holds;
        })
    refused :
        (w : World) (now ttl : ℕ) (id : String) (store : Memory)
        → w.clock ≤ now
        → acquire_user_lock memory_cache now id user ttl w.store
          ≡ (ok (record { acquired = false; lock_id = none }), store)
        → Step w (record { clock = now; store = store; holds = w.holds })
    released_by :
        (w : World) (now : ℕ) (id : String)
        → w.clock ≤ now
        → Step w (record {
          clock = now;
          store = (release_user_lock memory_cache now user id w.store).1;
          holds = filter (λ h. not (h.id == id)) w.holds;
        })
    acquired_other :
        (w : World) (now ttl : ℕ) (id other : String)
        → w.clock ≤ now
        → (lock_key other == key) ≡ false
        → Step w (record {
          clock = now;
          store = (acquire_user_lock memory_cache now id other ttl w.store).1;
          holds = w.holds;
        })
    released_other :
        (w : World) (now : ℕ) (id other : String)
        → w.clock ≤ now
        → (lock_key other == key) ≡ false
        → Step w (record {
          clock = now;
          store = (release_user_lock memory_cache now other id w.store).1;
          holds = w.holds;
        })

  pub data Reach (w : World) : World → Type 0 where
    here : Reach w w
    next : {u v : World} → Reach w u → Step u v → Reach w v

  -- a hold is over, or it is what the store has
  abbrev IsBacked : ℕ → Option Item → Hold → Type 0
  IsBacked now stored h = (h.until < now) ⊎ (stored ≡ some (item_of h))

  abbrev IsSafe : World → Type 0
  IsSafe w = All (IsBacked w.clock (Dict.get key w.store.texts)) w.holds

  later :
      (t now : ℕ) (stored : Option Item) (h : Hold)
      → t ≤ now
      → IsBacked t stored h
      → IsBacked now stored h
  later t now stored h o (inl over) = inl (omega arith)
  later t now stored h o (inr kept) = inr kept

  won :
      (now ttl : ℕ) (id : String) (m store : Memory)
      → acquire_user_lock memory_cache now id user ttl m
        ≡ (ok (record { acquired = true; lock_id = some id }), store)
      → (is_live now (Dict.get key m.texts) ≡ false)
        × (Dict.get key store.texts
            ≡ some (record { value = id; expiry = some (now + ttl * 1000) }))
  won now ttl id m store e =
      ground (arith, e, acquire-memory now ttl id m, acquire-texts now ttl id m)

  lost :
      (now ttl : ℕ) (id : String) (m store : Memory)
      → acquire_user_lock memory_cache now id user ttl m
        ≡ (ok (record { acquired = false; lock_id = none }), store)
      → Dict.get key store.texts ≡ Dict.get key m.texts
  lost now ttl id m store e = ground (arith, e, acquire-memory now ttl id m)

  over_of_dead :
      (t now : ℕ) (stored : Option Item) (h : Hold)
      → t ≤ now
      → is_live now stored ≡ false
      → IsBacked t stored h
      → h.until < now
  over_of_dead t now stored h o dead (inl over) = omega arith
  over_of_dead t now stored h o dead (inr kept) = ground arith

  release_keeps :
      (t now : ℕ) (id : String) (stored : Option Item) (h : Hold)
      → t ≤ now
      → not (h.id == id) ≡ true
      → IsBacked t stored h
      → IsBacked now (released now id stored) h
  release_keeps t now id stored h o ne (inl over) = inl (omega arith)
  release_keeps t now id stored h o ne (inr kept) = rw kept (elim (Bool-cases (ltb h.until now)) [
    | inl old ↦ inl (ground arith)
    | inr live ↦ inr (ground arith)
  ])

  Step-IsSafe : {u v : World} → Step u v → IsSafe u → IsSafe v
  Step-IsSafe (acquired w now ttl id store o e) s =
      let (dead, mine) = won now ttl id w.store store e in
      (
        inr mine,
        All-imp w.holds
            (λ h b. inl (over_of_dead w.clock now (Dict.get key w.store.texts) h o dead b)) s,
      )
  Step-IsSafe (refused w now ttl id store o e) s =
      rw (lost now ttl id w.store store e)
        (All-imp w.holds (λ h. later w.clock now (Dict.get key w.store.texts) h o) s)
  Step-IsSafe (released_by w now id o) s = rw (release-memory now id w.store) (
      All-filter_imp _ w.holds (λ h. release_keeps w.clock now id (Dict.get key w.store.texts) h o)
        s)
  Step-IsSafe (acquired_other w now ttl id other o ne) s =
      rw (acquire-other now ttl id other w.store ne)
        (All-imp w.holds (λ h. later w.clock now (Dict.get key w.store.texts) h o) s)
  Step-IsSafe (released_other w now id other o ne) s =
      rw (release-other now id other w.store ne)
        (All-imp w.holds (λ h. later w.clock now (Dict.get key w.store.texts) h o) s)

  Reach-IsSafe : {u v : World} → IsSafe u → Reach u v → IsSafe v
  Reach-IsSafe s here = s
  Reach-IsSafe s (next r st) = Step-IsSafe st (Reach-IsSafe s r)

  abbrev pub In : Hold → List Hold → Type 0
  In h [] = ⊥
  In h (k ∷ ks) = (h ≡ k) ⊎ In h ks

  All-In : (P : Hold → Type 0) (h : Hold) (ks : List Hold) → All P ks → In h ks → P h
  All-In P h [] a i = absurd i
  All-In P h (k ∷ ks) (p, a) (inl e) = subst P (sym e) p
  All-In P h (k ∷ ks) (p, a) (inr i) = All-In P h ks a i

  backed_agree :
      (now : ℕ) (stored : Option Item) (h k : Hold)
      → IsBacked now stored h
      → IsBacked now stored k
      → now ≤ h.until
      → now ≤ k.until
      → h.id ≡ k.id
  backed_agree now stored h k (inl over) b lh lk = absurd (omega arith)
  backed_agree now stored h k (inr kept) (inl over) lh lk = absurd (omega arith)
  backed_agree now stored h k (inr kept) (inr same) lh lk = ground arith

  -- Mutual exclusion. From an empty store, after any steps of any processes: two locks on one user
  -- that were given out, not released, and not past their time to live have the same id.
  pub Reach-exclusive :
      (start now : ℕ) (store : Memory) (holds : List Hold) (h k : Hold)
      → Reach
          (record { clock = start; store = empty_memory; holds = [] })
          (record { clock = now; store = store; holds = holds })
      → In h holds
      → In k holds
      → now ≤ h.until
      → now ≤ k.until
      → h.id ≡ k.id
  Reach-exclusive start now store holds h k r ih ik lh lk =
      let safe = Reach-IsSafe tt r in
      backed_agree now (Dict.get key store.texts) h k
        (All-In (IsBacked now (Dict.get key store.texts)) h holds safe ih)
        (All-In (IsBacked now (Dict.get key store.texts)) k holds safe ik) lh lk
