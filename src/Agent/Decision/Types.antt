-- ===== src/Agent/Decision/Types.antt =====
-- lib/agent/decision-engine.ts: the vaults, positions and decisions.
use tapioca_money.Base.{ℕ, String, Bool, Option, List}
use tapioca_money.Base.Dict.{Dict}
use tapioca_money.Redis.Action.{Result}
use tapioca_money.Sentinel.Types.{Protocol}
use tapioca_money.Agent.Pause.{VaultPauseState}

-- what the source reads of the vaults and positions of the two protocols
pub record MorphoVault (N : Type 0) : Type 0 where
  pub address : String
  pub name : String
  pub avg_net_apy : Option N
  pub net_apy : Option N
  pub total_assets_usd : Option N

pub record YoVault (N : Type 0) : Type 0 where
  pub address : String
  pub name : String
  pub apy : N
  pub tvl_usd : N
  pub underlying_symbol : String
  pub underlying_address : String

pub record MorphoUserPosition (N : Type 0) : Type 0 where
  pub vault_address : String
  pub vault_name : String
  pub shares : String
  pub assets : String
  pub assets_usd : Option N

pub record YoUserPosition (N : Type 0) : Type 0 where
  pub vault_address : String
  pub vault_name : String
  pub shares : String
  pub assets : String
  pub assets_usd : N

-- `NormalizedPosition`
pub record Position (N : Type 0) : Type 0 where
  pub protocol : Protocol
  pub vault_address : String
  pub vault_name : String
  pub shares : String
  pub assets : String
  pub assets_usd : N
  pub underlying_symbol : String
  pub underlying_address : String

-- `NormalizedVault`, and the decision's `targetVault`, which has the same fields
pub record Vault (N : Type 0) : Type 0 where
  pub protocol : Protocol
  pub address : String
  pub name : String
  pub apy : N
  pub liquidity_usd : N
  pub underlying_symbol : String
  pub underlying_address : String

-- the decision's `currentVault`
pub record CurrentVault (N : Type 0) : Type 0 where
  pub address : String
  pub name : String
  pub apy : N
  pub shares : String
  pub assets : String
  pub protocol : Protocol
  pub underlying_address : String
  pub underlying_symbol : String

pub record RebalanceDecision (N : Type 0) : Type 0 where
  pub should_rebalance : Bool
  pub reason : String
  pub current_vault : Option (CurrentVault N)
  pub target_vault : Option (Vault N)
  pub apy_improvement : N
  pub estimated_annual_gain : N
  pub break_even_days : ℕ

-- What the clients give for one user. `states` is `checkVaultPauseStates`, if there is a service.
pub record Fetched (N : Type 0) : Type 0 where
  pub morpho_positions : Result (List (MorphoUserPosition N))
  pub yo_positions : Result (List (YoUserPosition N))
  pub morpho_vaults : Result (List (MorphoVault N))
  pub yo_vaults : Result (List (YoVault N))
  pub fetch_vault : String → Result (Option (MorphoVault N))
  pub states : Option (List String → Dict VaultPauseState)
  pub to_fixed : N → ℕ → String
