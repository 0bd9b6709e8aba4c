-- ===== src/Agent/Risk/Excluded.antt =====
-- When a vault is excluded, and that the score and its breakdown agree on it.
use tapioca_money.Base.{ℕ, String, ◌≡◌, ◌⊎◌, true, false, or_else, arith}
use tapioca_money.Base.Double.{Double}
use tapioca_money.Agent.Risk.{
  RatedVault, high, has_warning, effective_apy, calculate_risk_score, get_risk_level,
  get_risk_breakdown,
}

module _ {N : Type 0} ⦃d : Double N⦄ (to_fixed : N → ℕ → String) (vault : RatedVault N) where
  -- not whitelisted, an APY above 50%, or a red warning
  abbrev pub IsExcluded : Type 0
  IsExcluded =
      (or_else vault.whitelisted false ≡ false)
      ⊎ (d.lt (d.decimal 5 1) (effective_apy vault) ≡ true)
      ⊎ (has_warning "RED" vault ≡ true)

  -- An excluded vault has the score 1, and its breakdown the same score and the level high.
  pub get_risk_breakdown-excluded :
      IsExcluded
      → d.le (d.decimal 1 0) (d.decimal 3 1) ≡ false
      → d.le (d.decimal 1 0) (d.decimal 6 1) ≡ false
      → (calculate_risk_score vault ≡ d.decimal 1 0)
        × ((get_risk_breakdown to_fixed vault).score ≡ d.decimal 1 0)
        × ((get_risk_breakdown to_fixed vault).level ≡ high)
  unfolding calculate_risk_score get_risk_breakdown get_risk_level
  get_risk_breakdown-excluded excluded a b = ground arith
