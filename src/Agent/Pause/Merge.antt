-- ===== src/Agent/Pause/Merge.antt =====
-- The states that the pause service returns: one for every vault, and, where two checkers answer for
-- a vault, that of the later one.
use tapioca_money.Base.{
  ℕ, String, ◌≡◌, refl, inl, inr, Bool, true, ◌||◌, some, List, [], ◌∷◌, arith, any, to_lower,
  is_some, ◌==◌, eq_iff, Option-cases, List-cases,
}
use tapioca_money.Base.Dict
use tapioca_money.Base.Dict.{Dict, get-set, get-set_self}
use tapioca_money.Redis.Action.{Result, ok, err, Result-cases}
use tapioca_money.Agent.Pause.{
  VaultPauseState, Checker, create_vault_pause_state, create_not_paused_state, fresh_state,
  pause_state_of, check_pause_states, split_cached, merge_states, fill_not_paused, merge_outcome,
  merge_checkers, ensure_all, check_vault_pause_states,
}

-- the vault with the key `k` is among the addresses
abbrev pub among : String → List String → Bool
among k addresses = any (λ a. to_lower a == k) addresses

abbrev pub has_key : String → Dict VaultPauseState → Bool
has_key k states = is_some (Dict.get k states)

has_key-set :
    (k k' : String) (state : VaultPauseState) (states : Dict VaultPauseState)
    → (k' == k) || has_key k states ≡ true
    → has_key k (Dict.set k' state states) ≡ true
has_key-set k k' state states h = ground (arith, get-set k' k state states)

yo_key :
    (now : ℕ) (r : Result Bool) (address : String)
    → to_lower address ≡ address
    → to_lower (pause_state_of now r address).address ≡ address
unfolding pause_state_of create_vault_pause_state
yo_key now (ok b) address lower = rw (lower, lower) refl
yo_key now (err e) address lower = rw (lower, lower) refl

ensure_all-has_key :
    (now : ℕ) (k : String) (addresses : List String) (result : Dict VaultPauseState)
    → among k addresses || has_key k result ≡ true
    → has_key k (ensure_all now addresses result) ≡ true
unfolding ensure_all
ensure_all-has_key now k [] result h = h
ensure_all-has_key now k (a ∷ addresses) result h =
    let state = create_not_paused_state now a in
    elim (Option-cases (Dict.get (to_lower a) result)) [
      | inl missing ↦ rw missing (
          ensure_all-has_key now k addresses (Dict.set (to_lower a) state result)
            (ground (arith, has_key-set k (to_lower a) state result)))
      | inr (s, found) ↦
          rw found
            (ensure_all-has_key now k addresses result (ground (arith, eq_iff (to_lower a) k)))
    ]

split_cached-keeps :
    (now ttl_ms : ℕ) (k : String) (cache : Dict VaultPauseState) (vaults : List String)
    (result : Dict VaultPauseState)
    → has_key k result ≡ true
    → has_key k (split_cached now ttl_ms cache vaults result).0 ≡ true
unfolding split_cached
split_cached-keeps now ttl_ms k cache [] result h = h
split_cached-keeps now ttl_ms k cache (a ∷ vaults) result h =
    elim (Option-cases (fresh_state now ttl_ms cache a)) [
      | inl stale ↦ ground (arith, split_cached-keeps now ttl_ms k cache vaults result h)
      | inr (s, fresh) ↦
          let result' = Dict.set (to_lower a) s result in
          let kept = has_key-set k (to_lower a) s result (ground arith) in
          ground (arith, split_cached-keeps now ttl_ms k cache vaults result' kept)
    ]

split_cached-covers :
    (now ttl_ms : ℕ) (k : String) (cache : Dict VaultPauseState) (vaults : List String)
    (result : Dict VaultPauseState)
    → among k vaults ≡ true
    → let (hit, missed) = split_cached now ttl_ms cache vaults result in
      among k missed || has_key k hit ≡ true
unfolding split_cached
split_cached-covers now ttl_ms k cache [] result h = absurd (ground arith)
split_cached-covers now ttl_ms k cache (a ∷ vaults) result h =
    elim (Option-cases (fresh_state now ttl_ms cache a)) [
      | inl stale ↦ ground (arith, split_cached-covers now ttl_ms k cache vaults result)
      | inr (s, fresh) ↦
          let result' = Dict.set (to_lower a) s result in
          ground (
            arith,
            has_key-set k (to_lower a) s result,
            split_cached-keeps now ttl_ms k cache vaults result',
            split_cached-covers now ttl_ms k cache vaults result',
          )
    ]

merge_states-keeps :
    (k : String) (states : List VaultPauseState) (cache result : Dict VaultPauseState)
    → has_key k result ≡ true
    → has_key k (merge_states states (cache, result)).1 ≡ true
unfolding merge_states
merge_states-keeps k [] cache result h = h
merge_states-keeps k (state ∷ states) cache result h =
    merge_states-keeps k states (Dict.set (to_lower state.address) state cache)
      (Dict.set (to_lower state.address) state result)
      (has_key-set k (to_lower state.address) state result (ground arith))

fill_not_paused-keeps :
    (now : ℕ) (k : String) (addresses : List String) (cache result : Dict VaultPauseState)
    → has_key k result ≡ true
    → has_key k (fill_not_paused now addresses (cache, result)).1 ≡ true
unfolding fill_not_paused
fill_not_paused-keeps now k [] cache result h = h
fill_not_paused-keeps now k (a ∷ addresses) cache result h =
    let state = create_not_paused_state now a in
    elim (Option-cases (Dict.get (to_lower a) result)) [
      | inl missing ↦
          rw (missing, fill_not_paused)
            (fill_not_paused-keeps now k addresses (Dict.set (to_lower a) state cache)
              (Dict.set (to_lower a) state result)
              (has_key-set k (to_lower a) state result (ground arith)))
      | inr (s, found) ↦
          rw (found, fill_not_paused) (fill_not_paused-keeps now k addresses cache result h)
    ]

merge_checkers-keeps :
    (now : ℕ) (k : String) (uncached : List String) (checkers : List Checker)
    (cache result : Dict VaultPauseState)
    → has_key k result ≡ true
    → has_key k (merge_checkers now uncached checkers (cache, result)).1 ≡ true
unfolding merge_checkers merge_outcome
merge_checkers-keeps now k uncached [] cache result h = h
merge_checkers-keeps now k uncached (c ∷ checkers) cache result h =
    let (cache', result') = merge_outcome now uncached (c uncached) (cache, result) in
    merge_checkers-keeps now k uncached checkers cache' result' (elim (Result-cases (c uncached)) [
      | inl (states, answered) ↦ rw answered (merge_states-keeps k states cache result h)
      | inr (e, threw) ↦ rw threw (fill_not_paused-keeps now k uncached cache result h)
    ])

-- The service gives a state for every vault it was asked about, whatever the checkers answer or throw
-- and whatever its cache holds.
pub check_vault_pause_states-has_key :
    (checkers : List Checker) (ttl_ms now : ℕ) (vaults : List String) (cache : Dict VaultPauseState)
    (k : String)
    → among k vaults ≡ true
    → has_key k (check_vault_pause_states checkers ttl_ms now vaults cache).1 ≡ true
unfolding check_vault_pause_states
check_vault_pause_states-has_key checkers ttl_ms now vaults cache k asked =
    let (hit, missed) = split_cached now ttl_ms cache vaults [] in
    let covered = split_cached-covers now ttl_ms k cache vaults [] asked in
    elim (List-cases missed) [
      | inl none_missed ↦ ground arith
      | inr (a, rest, some_missed) ↦
          let (cache', result) = merge_checkers now (a ∷ rest) checkers (cache, hit) in
          ground (
            arith,
            merge_checkers-keeps now k (a ∷ rest) checkers cache hit,
            ensure_all-has_key now k (a ∷ rest) result,
          )
    ]

-- For one vault with a lowercase address, on an empty cache: if the second checker cannot read it, the
-- service's state is that the vault is not paused, whatever the first checker has read.
pub check_vault_pause_states-later_wins :
    (yo morpho : String → Result Bool) (ttl_ms now : ℕ) (address e : String)
    → to_lower address ≡ address
    → morpho address ≡ err e
    → Dict.get address
        (check_vault_pause_states
          (check_pause_states now yo ∷ check_pause_states now morpho ∷ [])
          ttl_ms
          now
          (address ∷ [])
          []).1
      ≡ some (create_not_paused_state now address)
unfolding check_vault_pause_states split_cached merge_checkers merge_outcome merge_states
    check_pause_states pause_state_of create_vault_pause_state ensure_all Dict.get
check_vault_pause_states-later_wins yo morpho ttl_ms now address e lower failed =
    let before : Dict VaultPauseState =
      Dict.set address (pause_state_of now (yo address) address) [] in
    let state = create_not_paused_state now address in
    ground (arith, yo_key now (yo address) address lower, get-set_self address state before)
