-- ===== src/Redis/Lock/Freed.antt =====
-- The lock on the in-memory store is never stuck: what it stores is a lock that was given out.
use tapioca_money.Base.{
  ℕ, ◌<◌, ◌+◌, ◌*◌, String, ◌==◌, ◌≡◌, refl, sym, subst, ◌⊎◌, inl, inr, true, false, not, Option,
  some, none, List, [], ◌∷◌, filter, All, arith, Bool-cases,
}
use tapioca_money.Base.Dict
use tapioca_money.Redis.Action.{ok}
use tapioca_money.Redis.Memory.{Memory, Item, memory_cache, empty_memory, is_live, is_expired}
use tapioca_money.Redis.Lock.{acquire_user_lock}
use tapioca_money.Redis.Lock.Exclusion.{
  Hold, World, Step, Reach, acquired, refused, released_by, acquired_other, released_other, here,
  next, item_of, released, key, acquire-memory, acquire-texts, acquire-other, release-memory,
  release-other,
}

-- the item of one of the holds
abbrev Has : List Hold → Item → Type 0
Has [] item = ⊥
Has (h ∷ hs) item = (item_of h ≡ item) ⊎ Has hs item

abbrev IsLeased : Option Item → List Hold → Type 0
IsLeased none holds = Unit {0}
IsLeased (some item) holds = Has holds item

Has-filter :
    (id : String) (item : Item) (holds : List Hold)
    → (item.value == id) ≡ false
    → Has holds item
    → Has (filter (λ h. not (h.id == id)) holds) item
Has-filter id item [] ne held = absurd held
Has-filter id item (h ∷ hs) ne (inl e) =
    let kept : (h.id == id) ≡ false = subst (λ (i : Item). (i.value == id) ≡ false) (sym e) ne in
    rw kept (inl e)
Has-filter id item (h ∷ hs) ne (inr i) = elim (Bool-cases (h.id == id)) [
  | inl gone ↦ rw gone (Has-filter id item hs ne i)
  | inr kept ↦ rw kept (inr (Has-filter id item hs ne i))
]

released-IsLeased :
    (user : String) (now : ℕ) (id : String) (stored : Option Item) (holds : List Hold)
    → IsLeased stored holds
    → IsLeased (released user now id stored) (filter (λ h. not (h.id == id)) holds)
released-IsLeased user now id none holds leased = tt
released-IsLeased user now id (some item) holds leased = elim (Bool-cases (is_expired now item)) [
  | inl over ↦ rw over tt
  | inr live ↦ elim (Bool-cases (item.value == id)) [
    | inl own ↦ rw (live, own) tt
    | inr other ↦ rw (live, other) (Has-filter id item holds other leased)
  ]
]

-- when every hold is over, so is what is stored
expired-IsLeased :
    (now : ℕ) (stored : Option Item) (holds : List Hold)
    → IsLeased stored holds
    → All (λ h. h.until < now) holds
    → is_live now stored ≡ false
expired-IsLeased now none holds leased over = refl
expired-IsLeased now (some item) [] leased over = absurd leased
expired-IsLeased now (some item) (h ∷ hs) (inl e) (past, over) =
    subst (λ i. is_live now (some i) ≡ false) e (ground (arith, past))
expired-IsLeased now (some item) (h ∷ hs) (inr i) (past, over) =
    expired-IsLeased now (some item) hs i over

module _ (user : String) where
  abbrev IsGood : World → Type 0
  IsGood w = IsLeased (Dict.get (key user) w.store.texts) w.holds

  Step-IsGood : {u v : World} → Step user u v → IsGood u → IsGood v
  Step-IsGood (acquired w now ttl id store le e) good =
      let same : Dict.get (key user) store.texts
          ≡ some (record { value = id; expiry = some (now + ttl * 1000) }) =
        ground (
          arith,
          acquire-memory user now ttl id w.store,
          acquire-texts user now ttl id w.store,
          e,
        ) in
      subst (λ o. IsLeased o (record { id = id; until = now + ttl * 1000 } ∷ w.holds)) (sym same)
        (inl refl)
  Step-IsGood (refused w now ttl id store le e) good =
      let same : Dict.get (key user) store.texts ≡ Dict.get (key user) w.store.texts =
        ground (
          arith,
          acquire-memory user now ttl id w.store,
          acquire-texts user now ttl id w.store,
          e,
        ) in
      subst (λ o. IsLeased o w.holds) (sym same) good
  Step-IsGood (released_by w now id le) good =
      subst (λ o. IsLeased o (filter (λ h. not (h.id == id)) w.holds))
        (sym (release-memory user now id w.store))
        (released-IsLeased user now id (Dict.get (key user) w.store.texts) w.holds good)
  Step-IsGood (acquired_other w now ttl id other le ne) good =
      subst (λ o. IsLeased o w.holds) (sym (acquire-other user now ttl id other w.store ne)) good
  Step-IsGood (released_other w now id other le ne) good =
      subst (λ o. IsLeased o w.holds) (sym (release-other user now id other w.store ne)) good

  Reach-IsGood : {u v : World} → Reach user u v → IsGood u → IsGood v
  Reach-IsGood here good = good
  Reach-IsGood (next r st) good = Step-IsGood st (Reach-IsGood r good)

  -- From an empty store, after any acquires and releases by anyone: once every lock on the user that was
  -- given out and not released is past its time to live, an attempt to acquire it succeeds.
  pub Reach-acquired :
      (start clock now ttl : ℕ) (store : Memory) (holds : List Hold) (id : String)
      → Reach user
          (record { clock = start; store = empty_memory; holds = [] })
          (record { clock = clock; store = store; holds = holds })
      → All (λ h. h.until < now) holds
      → (acquire_user_lock memory_cache now id user ttl store).0
        ≡ ok (record { acquired = true; lock_id = some id })
  unfolding Dict.get
  Reach-acquired start clock now ttl store holds id r over =
      let stored = Dict.get (key user) store.texts in
      let free = expired-IsLeased now stored holds (Reach-IsGood r tt) over in
      ground (arith, free, acquire-memory user now ttl id store)
