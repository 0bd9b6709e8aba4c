-- ===== src/Agent/Resolve.antt =====
-- lib/agent/resolve-agent-address.ts and lib/agent/position-check.ts. The query and the multicall are
-- arguments.
pub mod Cached
use tapioca_money.Base.{
  ℕ, String, ◌==◌, ◌+++◌, Bool, true, false, Option, none, some, List, [], ◌∷◌, map, any, ltb,
  is_some, to_lower, if◌then◌else◌,
}
use tapioca_money.Redis.Action.{Result, ok, err, Action, pure, catch, ◌>>=◌, ◌>>◌}
use tapioca_money.Redis.Cache.{Cache}
use tapioca_money.Sentinel.Exit.{truthy}
use tapioca_money.Security.Authorization.{Authorization}

-- `CACHE_TTL`, in seconds
abbrev pub cache_ttl : ℕ
cache_ttl = 60

unfoldable pub cache_key : String → String
cache_key address = "agent_addr:" +++ address

-- a row with an authorization
pub record RegisteredRow : Type 0 where
  pub wallet_address : String
  pub authorization_7702 : Authorization

-- the account of an authorization, or else the wallet that is registered
abbrev pub smart_address_of : Authorization → Option String
smart_address_of auth = elim auth.type [
  | none ↦ none
  | some type ↦ if type == "zerodev-erc4337-session" then truthy auth.smart_wallet_address else none
]

unfoldable pub agent_address_of : RegisteredRow → String
agent_address_of row = elim (smart_address_of row.authorization_7702) [
  | some address ↦ address
  | none ↦ elim (truthy row.authorization_7702.eoa_address) [
    | some address ↦ address
    | none ↦ row.wallet_address
  ]
]

module _ {S : Type 0} (c : Cache S) where
  -- the loop over the addresses
  unfoldable pub find_cached : ℕ → List String → Action S (Option String)
  find_cached now [] = pure none
  find_cached now (address ∷ addresses) = c.get now (cache_key address) >>= λ cached.
      elim (truthy cached) [ some agent ↦ pure (some agent) | none ↦ find_cached now addresses ]

  -- what follows a query that has answered
  unfoldable pub resolve_row : ℕ → String → Option RegisteredRow → Action S (Option String)
  resolve_row now first none = pure (some first)
  resolve_row now first (some row) =
      catch
        (c.connect
          >> c.set now (cache_key row.wallet_address) (agent_address_of row) (some cache_ttl))
        (λ _. pure tt)
      >> pure (some (agent_address_of row))

module _ {S : Type 0} (c : Cache S) (find_row : List String → Action S (Option RegisteredRow)) where
  -- past the cache
  unfoldable pub resolve_uncached : ℕ → String → List String → Action S (Option String)
  resolve_uncached now first addresses s =
      let (found, t) = find_row addresses s in
      elim found [ err _ ↦ pure (some first) t | ok row ↦ resolve_row c now first row t ]

  unfoldable pub resolve_agent_address : ℕ → List String → Action S (Option String)
  resolve_agent_address now [] = pure none
  resolve_agent_address now (wallet ∷ wallets) =
      catch (c.connect >> find_cached c now (map to_lower (wallet ∷ wallets))) (λ _. pure none)
      >>= λ cached. elim cached [
        | some agent ↦ pure (some agent)
        | none ↦ resolve_uncached now (to_lower wallet) (map to_lower (wallet ∷ wallets))
      ]

-- the result of one `balanceOf` of the multicall: none is a failure
abbrev pub has_position : Option ℕ → Bool
has_position none = true
has_position (some shares) = ltb 0 shares

-- `multicall` has an answer for each vault, or throws
unfoldable pub has_active_positions : (List String → Result (List (Option ℕ))) → List String → Bool
has_active_positions multicall [] = false
has_active_positions multicall (vault ∷ vaults) = elim (multicall (vault ∷ vaults)) [
  | err _ ↦ true
  | ok results ↦ any has_position results
]
