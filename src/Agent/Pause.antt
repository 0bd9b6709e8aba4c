-- ===== src/Agent/Pause.antt =====
-- lib/shared/vault-pause-state.ts, lib/shared/pause-service.ts, lib/yo/pause-checker.ts and
-- lib/morpho/pause-checker.ts. A checker is what it answers for a list of addresses, or that it throws;
-- the checkers answer in the order of their list. Reading `paused()` of a contract is a parameter.
pub mod Merge
use tapioca_money.Base.{
  ℕ, ◌-◌, String, Bool, true, false, ◌&&◌, ◌||◌, Option, none, some, List, [], ◌∷◌, map, to_lower,
  is_some, ltb, if◌then◌else◌,
}
use tapioca_money.Base.Dict
use tapioca_money.Base.Dict.{Dict}
use tapioca_money.Redis.Action.{Result, ok, err}

pub record VaultPauseState : Type 0 where
  pub address : String
  pub paused : Bool
  pub deposit_paused : Bool
  pub redeem_paused : Bool
  pub checked_at : ℕ

unfoldable pub create_vault_pause_state : ℕ → String → Bool → Bool → VaultPauseState
create_vault_pause_state now address deposit_paused redeem_paused = record {
  address = to_lower address;
  paused = deposit_paused || redeem_paused;
  deposit_paused = deposit_paused;
  redeem_paused = redeem_paused;
  checked_at = now;
}

abbrev pub create_not_paused_state : ℕ → String → VaultPauseState
create_not_paused_state now address = create_vault_pause_state now address false false

abbrev pub is_pause_state_fresh : ℕ → VaultPauseState → ℕ → Bool
is_pause_state_fresh now state ttl_ms = ltb (now - state.checked_at) ttl_ms

-- `VaultPauseChecker`, run to its end
abbrev pub Checker : Type 0
Checker = List String → Result (List VaultPauseState)

-- one address of either protocol's checker
unfoldable pub pause_state_of : ℕ → Result Bool → String → VaultPauseState
pause_state_of now (ok paused) address = create_vault_pause_state now address paused paused
pause_state_of now (err e) address = create_not_paused_state now address

-- `YoPauseChecker` and `MorphoPauseChecker`, which differ in nothing but the calls they make
unfoldable pub check_pause_states : ℕ → (String → Result Bool) → Checker
check_pause_states now read addresses = ok (map (λ a. pause_state_of now (read a) a) addresses)

-- the service's cache, and the result
abbrev pub Found : Type 0
Found = Dict VaultPauseState × Dict VaultPauseState

-- the cached state of an address, if it is fresh
abbrev pub fresh_state : ℕ → ℕ → Dict VaultPauseState → String → Option VaultPauseState
fresh_state now ttl_ms cache address = elim (Dict.get (to_lower address) cache) [
  | none ↦ none
  | some state ↦ if is_pause_state_fresh now state ttl_ms then some state else none
]

-- the vaults with a fresh state, and the addresses of the others
unfoldable pub split_cached :
    ℕ
    → ℕ
    → Dict VaultPauseState
    → List String
    → Dict VaultPauseState
    → Dict VaultPauseState × List String
split_cached now ttl_ms cache [] result = (result, [])
split_cached now ttl_ms cache (address ∷ vaults) result =
    elim (fresh_state now ttl_ms cache address) [
      | some state ↦ split_cached now ttl_ms cache vaults (Dict.set (to_lower address) state result)
      | none ↦
          let (hit, missed) = split_cached now ttl_ms cache vaults result in (hit, address ∷ missed)
    ]

-- the states of a checker that has answered
unfoldable pub merge_states : List VaultPauseState → Found → Found
merge_states [] found = found
merge_states (state ∷ states) (cache, result) =
    merge_states states (
      Dict.set (to_lower state.address) state cache,
      Dict.set (to_lower state.address) state result,
    )

-- the addresses with no entry yet, after a checker that has thrown
unfoldable pub fill_not_paused : ℕ → List String → Found → Found
fill_not_paused now [] found = found
fill_not_paused now (address ∷ addresses) (cache, result) =
    fill_not_paused now addresses (elim (Dict.get (to_lower address) result) [
      | some _ ↦ (cache, result)
      | none ↦ (
        Dict.set (to_lower address) (create_not_paused_state now address) cache,
        Dict.set (to_lower address) (create_not_paused_state now address) result,
      )
    ])

unfoldable pub merge_outcome : ℕ → List String → Result (List VaultPauseState) → Found → Found
merge_outcome now uncached (ok states) found = merge_states states found
merge_outcome now uncached (err e) found = fill_not_paused now uncached found

unfoldable pub merge_checkers : ℕ → List String → List Checker → Found → Found
merge_checkers now uncached [] found = found
merge_checkers now uncached (checker ∷ checkers) found =
    merge_checkers now uncached checkers (merge_outcome now uncached (checker uncached) found)

-- the last loop, which leaves the cache
unfoldable pub ensure_all : ℕ → List String → Dict VaultPauseState → Dict VaultPauseState
ensure_all now [] result = result
ensure_all now (address ∷ addresses) result =
    ensure_all now addresses (elim (Dict.get (to_lower address) result) [
      | some _ ↦ result
      | none ↦ Dict.set (to_lower address) (create_not_paused_state now address) result
    ])

-- the cache after it, and the states by address
unfoldable pub check_vault_pause_states :
    List Checker → ℕ → ℕ → List String → Dict VaultPauseState → Found
check_vault_pause_states checkers ttl_ms now vaults cache =
    let (hit, uncached) = split_cached now ttl_ms cache vaults [] in
    elim uncached [
      | [] ↦ (cache, hit)
      | address ∷ rest ↦
          let (cache', result) = merge_checkers now (address ∷ rest) checkers (cache, hit) in
          (cache', ensure_all now (address ∷ rest) result)
    ]
