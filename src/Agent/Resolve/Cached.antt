-- ===== src/Agent/Resolve/Cached.antt =====
-- What the address of a user's funds is resolved to.
use tapioca_money.Base.{
  ℕ, String, ◌≡◌, inl, inr, Option, some, none, List, ◌∷◌, map, to_lower, arith,
}
use tapioca_money.Redis.Action.{Action, pure, catch, ◌>>◌, ok, Result-cases}
use tapioca_money.Redis.Cache.{Cache}
use tapioca_money.Agent.Resolve.{
  RegisteredRow, find_cached, resolve_row, resolve_uncached, resolve_agent_address,
  agent_address_of,
}

module _ {S : Type 0} (c : Cache S) (find_row : List String → Action S (Option RegisteredRow)) where
  resolve_uncached-some :
      (now : ℕ) (first : String) (addresses : List String) (s : S)
      → (agent : String) × ((resolve_uncached c find_row now first addresses s).0 ≡ ok (some agent))
  unfolding resolve_uncached resolve_row
  resolve_uncached-some now first addresses s = elim (Result-cases (find_row addresses s).0) [
    | inr (e, threw) ↦ (first, ground arith)
    | inl (none, found) ↦ (first, ground arith)
    | inl (some row, found) ↦ (agent_address_of row, ground arith)
  ]

  -- For a user with a wallet, resolveAgentAddress gives an address, whatever throws.
  pub resolve_agent_address-some :
      (now : ℕ) (wallet : String) (wallets : List String) (s : S)
      → (agent : String) × ((resolve_agent_address c find_row now (wallet ∷ wallets) s).0
          ≡ ok (some agent))
  unfolding resolve_agent_address
  resolve_agent_address-some now wallet wallets s =
      let looked =
        catch (c.connect >> find_cached c now (map to_lower (wallet ∷ wallets))) (λ _. pure none)
          s in
      elim (Result-cases looked.0) [
        | inr (e, threw) ↦ absurd (ground arith)
        | inl (some agent, hit) ↦ (agent, ground arith)
        | inl (none, missed) ↦
            let (agent, found) =
              resolve_uncached-some now (to_lower wallet) (map to_lower (wallet ∷ wallets))
                looked.1 in
            (agent, ground (arith, found))
      ]
