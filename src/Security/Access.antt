-- ===== src/Security/Access.antt =====
-- lib/auth/middleware.ts. The state is the cache of Privy's users; verifying a token and reading a user
-- are Privy's, which may throw.
pub mod Owned
use tapioca_money.Base.{
  ℕ, zero, suc, ◌+◌, String, ◌==◌, Bool, true, false, not, ◌&&◌, ◌||◌, Option, none, some, List, [],
  ◌∷◌, map, any, find?, filter, length, leb, ltb, or_else, is_empty, is_some, to_lower, starts_with,
  if◌then◌else◌,
}
use Prim.Native.String
use tapioca_money.Base.Dict
use tapioca_money.Base.Dict.{Dict}
use tapioca_money.Redis.Action.{Result, ok, err, Action, pure, throw, catch, ◌>>=◌, ◌>>◌}
use tapioca_money.Sentinel.Exit.{truthy, or_default}

-- `USER_CACHE_TTL_MS` and `USER_CACHE_MAX_SIZE`
abbrev pub user_cache_ttl_ms : ℕ
user_cache_ttl_ms = 30_000

abbrev pub user_cache_max_size : ℕ
user_cache_max_size = 1000

-- an account linked to a user, with the fields of either spelling in one
pub record LinkedAccount : Type 0 where
  pub type : String
  pub chain_type : Option String
  pub wallet_client_type : Option String
  pub address : Option String

pub record CachedUser : Type 0 where
  pub linked_accounts : List LinkedAccount
  pub expires_at : ℕ

abbrev pub UserCache : Type 0
UserCache = Dict CachedUser

pub record AuthResult : Type 0 where
  pub authenticated : Bool
  pub user_id : Option String
  pub wallet_address : Option String
  pub all_wallet_addresses : Option (List String)
  pub error : Option String

abbrev pub refused : String → AuthResult
refused error = record {
  authenticated = false;
  user_id = none;
  wallet_address = none;
  all_wallet_addresses = none;
  error = some error;
}

unfoldable pub is_evm_wallet : LinkedAccount → Bool
is_evm_wallet account =
    (account.type == "wallet")
    && elim (truthy account.chain_type) [ none ↦ true | some chain_type ↦ chain_type == "ethereum" ]

unfoldable pub is_embedded_wallet : LinkedAccount → Bool
is_embedded_wallet account = elim account.wallet_client_type [
  | none ↦ false
  | some client_type ↦ client_type == "privy"
]

-- the address of an account that was found, in lower case
abbrev pub address_of : Option LinkedAccount → Option String
address_of none = none
address_of (some account) = elim (truthy account.address) [
  | none ↦ none
  | some address ↦ some (to_lower address)
]

abbrev pub first_of : Option String → Option String → Option String
first_of none other = other
first_of (some address) other = some address

unfoldable pub extract_wallet_address : List LinkedAccount → Option String
extract_wallet_address accounts =
    first_of (address_of (find? (λ a. is_evm_wallet a && not (is_embedded_wallet a)) accounts)) (
      first_of (address_of (find? (λ a. is_evm_wallet a && is_embedded_wallet a) accounts)) (
        address_of (
          find? (λ (a : LinkedAccount). (a.type == "wallet") && is_some (truthy a.address))
            accounts)))

-- the addresses of the EVM wallets that have one, in lower case
unfoldable pub extract_all_wallet_addresses : List LinkedAccount → List String
extract_all_wallet_addresses [] = []
extract_all_wallet_addresses (account ∷ accounts) =
    let rest = extract_all_wallet_addresses accounts in
    elim (is_evm_wallet account) [
      | false ↦ rest
      | true ↦ elim (truthy account.address) [
        | none ↦ rest
        | some address ↦ to_lower address ∷ rest
      ]
    ]

-- `s.slice(n)`
unfoldable pub slice_from : ℕ → String → String
slice_from zero s = s
slice_from (suc n) String.[] = String.[]
slice_from (suc n) (String.◌∷◌ c s) = slice_from n s

-- what Privy offers: the user of a token, and the accounts of a user
pub record Privy : Type 0 where
  pub verify_access_token : String → Result String
  pub get_user : String → Result (List LinkedAccount)

-- the eviction: where the cache is full, its first entry goes, but for an empty key
unfoldable pub evict : UserCache → UserCache
evict [] = []
evict ((first_key, entry) ∷ cache) =
    elim (leb user_cache_max_size (length ((first_key, entry) ∷ cache))) [
      | false ↦ (first_key, entry) ∷ cache
      | true ↦
          if is_empty first_key
          then (first_key, entry) ∷ cache
          else Dict.delete first_key ((first_key, entry) ∷ cache)
    ]

-- `cached && cached.expiresAt > Date.now()`
abbrev pub fresh : ℕ → Option CachedUser → Option CachedUser
fresh now none = none
fresh now (some cached) = if ltb now cached.expires_at then some cached else none

-- what the authentication says of an address
unfoldable pub check_owner : String → AuthResult → AuthResult
check_owner requested_address auth_result = elim auth_result.authenticated [
  | false ↦ auth_result
  | true ↦ elim (or_else auth_result.all_wallet_addresses []) [
    | [] ↦ refused "No wallet linked to account"
    | a ∷ addresses ↦
        if any (λ owned. owned == to_lower requested_address) (a ∷ addresses)
        then auth_result
        else refused "Address does not belong to authenticated user"
  ]
]

module _ (privy : Privy) where
  -- the linked accounts of a user
  unfoldable pub user_of : ℕ → String → Action UserCache (List LinkedAccount)
  user_of now user_id cache = elim (fresh now (Dict.get user_id cache)) [
    | some cached ↦ (ok cached.linked_accounts, cache)
    | none ↦ elim (privy.get_user user_id) [
      | err e ↦ (err e, cache)
      | ok accounts ↦ (
        ok accounts,
        Dict.set user_id
            (record { linked_accounts = accounts; expires_at = now + user_cache_ttl_ms })
            (evict cache),
      )
    ]
  ]

  -- a token that is not empty
  unfoldable pub authenticate_token : ℕ → String → Action UserCache AuthResult
  authenticate_token now token cache = elim (privy.verify_access_token token) [
    | err e ↦ (err e, cache)
    | ok user_id ↦
        let (found, cache') = user_of now user_id cache in
        elim found [
          | err e ↦ (err e, cache')
          | ok accounts ↦ (
            ok (record {
              authenticated = true;
              user_id = some user_id;
              wallet_address = truthy (extract_wallet_address accounts);
              all_wallet_addresses = some (extract_all_wallet_addresses accounts);
              error = none;
            }),
            cache',
          )
        ]
  ]

  -- the header's token, if it is a bearer's
  unfoldable pub authenticate_request : ℕ → Option String → Action UserCache AuthResult
  authenticate_request now none = pure (refused "Missing or invalid Authorization header")
  authenticate_request now (some header) =
      if starts_with header "Bearer "
      then if is_empty (slice_from 7 header)
        then pure (refused "Missing access token")
        else (catch (authenticate_token now (slice_from 7 header))
            (λ e. pure (refused (or_default (some e) "Authentication failed"))))
      else pure (refused "Missing or invalid Authorization header")

  unfoldable pub require_auth_for_address : ℕ → Option String → String → Action UserCache AuthResult
  require_auth_for_address now header requested_address =
      authenticate_request now header >>= λ auth_result.
      pure (check_owner requested_address auth_result)
