-- ===== src/Security/Access/Owned.antt =====
-- Whom a request is authenticated as, and how much the cache of users holds.
use tapioca_money.Base.{
  ℕ, suc, ◌+◌, ◌≤◌, ◌<◌, String, ◌==◌, ◌≡◌, refl, sym, subst, ◌⊎◌, inl, inr, true, false, Option,
  some, none, List, [], ◌∷◌, any, length, to_lower, starts_with, is_empty, arith, eq_iff, leb,
  Option-cases, Bool-cases, All,
}
use tapioca_money.Base.Dict
use tapioca_money.Base.Dict.{Dict}
use tapioca_money.Redis.Action.{ok, Result-cases}
use tapioca_money.Security.Access.{
  LinkedAccount, CachedUser, UserCache, AuthResult, Privy, evict, fresh, user_of,
  authenticate_token, authenticate_request, check_owner, require_auth_for_address,
  extract_all_wallet_addresses, slice_from, user_cache_max_size,
}

length-delete : {V : Type 0} (k : String) (d : Dict V) → length (Dict.delete k d) ≤ length d
unfolding Dict.delete
length-delete k [] = omega arith
length-delete k ((j, v) ∷ d) = ground (arith, length-delete k d)

length-set :
    {V : Type 0} (k : String) (v : V) (d : Dict V) → length (Dict.set k v d) ≤ suc (length d)
unfolding Dict.set
length-set k v [] = omega arith
length-set k v ((j, w) ∷ d) = ground (arith, length-set k v d)

-- a key that is not empty
abbrev pub IsNamed : String × CachedUser → Type 0
IsNamed (key, _) = is_empty key ≡ false

-- a full cache whose keys are not empty has room after the eviction
length-evict :
    (cache : UserCache) → All IsNamed cache → length cache ≤ 1000 → length (evict cache) < 1000
unfolding evict Dict.delete
length-evict [] named small = omega arith
length-evict ((key, entry) ∷ cache) (h, named) small =
    ground (arith, h, eq_iff key key, length-delete key cache)

All-delete :
    (k : String) (cache : UserCache) → All IsNamed cache → All IsNamed (Dict.delete k cache)
unfolding Dict.delete
All-delete k [] named = tt
All-delete k ((j, v) ∷ cache) (h, named) = elim (Bool-cases (j == k)) [
  | inl same ↦ rw same (All-delete k cache named)
  | inr other ↦ rw other (h, All-delete k cache named)
]

All-set :
    (k : String) (entry : CachedUser) (cache : UserCache)
    → is_empty k ≡ false
    → All IsNamed cache
    → All IsNamed (Dict.set k entry cache)
unfolding Dict.set
All-set k entry [] full named = (full, tt)
All-set k entry ((j, v) ∷ cache) full (h, named) = elim (Bool-cases (j == k)) [
  | inl same ↦ rw same (full, named)
  | inr other ↦ rw other (h, All-set k entry cache full named)
]

All-evict : (cache : UserCache) → All IsNamed cache → All IsNamed (evict cache)
unfolding evict
All-evict [] named = tt
All-evict ((key, entry) ∷ cache) (h, named) =
    elim (Bool-cases (leb user_cache_max_size (length ((key, entry) ∷ cache)))) [
      | inr room ↦ rw (room, evict) (h, named)
      | inl crowded ↦ rw (crowded, h, evict) (All-delete key ((key, entry) ∷ cache) (h, named))
    ]

-- at most a thousand users, under keys that are not empty
abbrev pub IsBounded : UserCache → Type 0
IsBounded cache = All IsNamed cache × (length cache ≤ 1000)

module _ (privy : Privy) where
  user_of-IsBounded :
      (now : ℕ) (user_id : String) (cache : UserCache)
      → is_empty user_id ≡ false
      → IsBounded cache
      → IsBounded (user_of privy now user_id cache).1
  unfolding user_of
  user_of-IsBounded now user_id cache full (named, small) =
      elim (Option-cases (fresh now (Dict.get user_id cache))) [
        | inr (cached, e) ↦
            let same : (user_of privy now user_id cache).1 ≡ cache = ground (arith, e) in
            subst (λ c. IsBounded c) (sym same) (named, small)
        | inl e ↦ elim (Result-cases (privy.get_user user_id)) [
          | inr (x, threw) ↦
              let same : (user_of privy now user_id cache).1 ≡ cache = ground (arith, e) in
              subst (λ c. IsBounded c) (sym same) (named, small)
          | inl (accounts, read) ↦
              let entry : CachedUser = record {
                linked_accounts = accounts;
                expires_at = now + 30_000;
              } in
              let grown = length-set user_id entry (evict cache) in
              let room = length-evict cache named small in
              let same : (user_of privy now user_id cache).1
                  ≡ Dict.set user_id entry (evict cache) =
                ground (arith, e, read) in
              subst (λ c. IsBounded c) (sym same)
                (All-set user_id entry (evict cache) full (All-evict cache named), omega arith)
        ]
      ]

  authenticate_token-IsBounded :
      (now : ℕ) (token : String) (cache : UserCache)
      → ((text user_id : String)
          → privy.verify_access_token text ≡ ok user_id
          → is_empty user_id ≡ false)
      → IsBounded cache
      → IsBounded (authenticate_token privy now token cache).1
  unfolding authenticate_token
  authenticate_token-IsBounded now token cache ids bounded =
      elim (Result-cases (privy.verify_access_token token)) [
        | inr (e, threw) ↦ rw (threw, authenticate_token) bounded
        | inl (user_id, verified) ↦
            let kept = user_of-IsBounded now user_id cache (ids token user_id verified) bounded in
            elim (Result-cases (user_of privy now user_id cache).0) [
              | inr (e, threw) ↦ rw (verified, threw, authenticate_token) kept
              | inl (accounts, read) ↦ rw (verified, read, authenticate_token) kept
            ]
      ]

  require_auth_for_address-cache :
      (now : ℕ) (header address : String) (cache : UserCache)
      → ((require_auth_for_address privy now (some header) address cache).1 ≡ cache)
        ⊎ ((require_auth_for_address privy now (some header) address cache).1
            ≡ (authenticate_token privy now (slice_from 7 header) cache).1)
  unfolding require_auth_for_address authenticate_request
  require_auth_for_address-cache now header address cache =
      elim (Result-cases (authenticate_token privy now (slice_from 7 header) cache).0) [
        | inr (e, threw) ↦ ground arith
        | inl (r, done) ↦ ground arith
      ]

  -- Where Privy gives no user an empty id, requireAuthForAddress keeps the cache of users within a
  -- thousand entries, whatever the request and whatever throws.
  pub require_auth_for_address-IsBounded :
      (now : ℕ) (header : Option String) (address : String) (cache : UserCache)
      → ((text user_id : String)
          → privy.verify_access_token text ≡ ok user_id
          → is_empty user_id ≡ false)
      → IsBounded cache
      → IsBounded (require_auth_for_address privy now header address cache).1
  unfolding require_auth_for_address authenticate_request
  require_auth_for_address-IsBounded now none address cache ids bounded = bounded
  require_auth_for_address-IsBounded now (some header) address cache ids bounded =
      let token = slice_from 7 header in
      elim (require_auth_for_address-cache now header address cache) [
        | inl same ↦ subst (λ c. IsBounded c) (sym same) bounded
        | inr same ↦
            subst (λ c. IsBounded c) (sym same)
              (authenticate_token-IsBounded now token cache ids bounded)
      ]

  -- the request bears a token of a user whose accounts, as the cache or Privy gives them, have an EVM
  -- wallet with the address
  abbrev pub IsOwner : ℕ → Option String → String → UserCache → Type 0
  IsOwner now header address cache =
      (text user_id : String) × (accounts : List LinkedAccount) × (header ≡ some text)
      × (starts_with text "Bearer " ≡ true)
      × (privy.verify_access_token (slice_from 7 text) ≡ ok user_id)
      × ((user_of privy now user_id cache).0 ≡ ok accounts)
      × (any (λ owned. owned == to_lower address) (extract_all_wallet_addresses accounts) ≡ true)

  authenticate_request-user :
      (now : ℕ) (header : Option String) (cache : UserCache) (r : AuthResult)
      → (authenticate_request privy now header cache).0 ≡ ok r
      → r.authenticated ≡ true
      → (text user_id : String) × (accounts : List LinkedAccount) × (header ≡ some text)
        × (starts_with text "Bearer " ≡ true)
        × (privy.verify_access_token (slice_from 7 text) ≡ ok user_id)
        × ((user_of privy now user_id cache).0 ≡ ok accounts)
        × (r.all_wallet_addresses ≡ some (extract_all_wallet_addresses accounts))
  unfolding authenticate_request authenticate_token
  authenticate_request-user now none cache r h good = absurd (ground arith)
  authenticate_request-user now (some text) cache r h good =
      elim (Result-cases (privy.verify_access_token (slice_from 7 text))) [
        | inr (e, threw) ↦ absurd (ground arith)
        | inl (user_id, verified) ↦ elim (Result-cases (user_of privy now user_id cache).0) [
          | inr (e, threw) ↦ absurd (ground arith)
          | inl (accounts, read) ↦
              (text, user_id, accounts, refl, ground arith, verified, read, ground arith)
        ]
      ]

  -- A request that requireAuthForAddress authenticates bears a token that Privy has verified, of a user
  -- who has an EVM wallet with the requested address among the accounts that were cached or read.
  pub require_auth_for_address-IsOwner :
      (now : ℕ) (header : Option String) (address : String) (cache : UserCache) (r : AuthResult)
      → (require_auth_for_address privy now header address cache).0 ≡ ok r
      → r.authenticated ≡ true
      → IsOwner now header address cache
  unfolding require_auth_for_address check_owner
  require_auth_for_address-IsOwner now header address cache r h good =
      elim (Result-cases (authenticate_request privy now header cache).0) [
        | inr (e, threw) ↦ absurd (ground arith)
        | inl (auth, done) ↦ elim (Bool-cases auth.authenticated) [
          | inr bad ↦ absurd (ground arith)
          | inl fine ↦
              let (text, user_id, accounts, a, b, c, e, owned) =
                authenticate_request-user now header cache auth done fine in
              (text, user_id, accounts, a, b, c, e, ground arith)
        ]
      ]
