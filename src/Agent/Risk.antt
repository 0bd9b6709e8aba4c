-- ===== src/Agent/Risk.antt =====
-- lib/morpho/risk-scoring.ts: the score of a vault, its level and its breakdown. The texts of numbers are
-- a parameter.
pub mod Excluded
use tapioca_money.Base.{
  ℕ, String, ◌==◌, ◌+++◌, Bool, true, false, not, ◌&&◌, Option, none, some, List, [], ◌∷◌, ◌++◌,
  any, map, head?, or_else, includes, is_empty, to_lower, if◌then◌else◌,
}
use tapioca_money.Base.Double.{Double}

pub record Warning : Type 0 where
  pub type : String
  pub level : String

-- what the scoring reads of a vault; `curators` has the names of its items
pub record RatedVault (N : Type 0) : Type 0 where
  pub warnings : Option (List Warning)
  pub whitelisted : Option Bool
  pub curators : Option (List (Option String))
  pub performance_fee : Option N
  pub management_fee : Option N
  pub liquidity_usd : Option N
  pub total_assets_usd : Option N
  pub avg_net_apy : Option N
  pub net_apy : Option N

pub data RiskLevel : Type 0 where
  low medium high : RiskLevel

pub record Factors (N : Type 0) : Type 0 where
  pub warnings : N
  pub whitelist : N
  pub curator : N
  pub fees : N
  pub liquidity : N
  pub size : N

pub record RiskBreakdown (N : Type 0) : Type 0 where
  pub score : N
  pub level : RiskLevel
  pub factors : Factors N
  pub reasoning : List String

abbrev pub trusted_curators : List String
trusted_curators =
    "steakhouse" ∷ "gauntlet" ∷ "re7" ∷ "morpho" ∷ "block analitica" ∷ "blockanalitica" ∷ []

abbrev pub is_trusted_name : String → Bool
is_trusted_name name = any (λ trusted. includes name trusted) trusted_curators

unfoldable pub is_trusted_curator : String → Bool
is_trusted_curator name = not (is_empty name) && is_trusted_name (to_lower name)

abbrev pub has_warning : {N : Type 0} → String → RatedVault N → Bool
has_warning level vault = any (λ (w : Warning). w.level == level) (or_else vault.warnings [])

-- `c.name || ""`
abbrev pub curator_names : {N : Type 0} → RatedVault N → List String
curator_names vault = map (λ name. or_else name "") (or_else vault.curators [])

abbrev pub has_trusted_curator : {N : Type 0} → RatedVault N → Bool
has_trusted_curator vault = any (λ name. is_trusted_name (to_lower name)) (curator_names vault)

-- `items.join(", ")` of at most two items
abbrev pub join_items : List String → String
join_items [] = ""
join_items (x ∷ []) = x
join_items (x ∷ y ∷ _) = x +++ ", " +++ y

-- a factor and the lines of its reasoning
abbrev pub Part : Type 0 → Type 0
Part N = N × List String

module _ {N : Type 0} ⦃d : Double N⦄ where
  abbrev pub effective_apy : RatedVault N → N
  effective_apy vault = or_else vault.avg_net_apy (or_else vault.net_apy (d.decimal 0 0))

  -- `score += n` under a condition
  abbrev pub add_if : Bool → N → N → N
  add_if true n score = d.add score n
  add_if false n score = score

  abbrev pub score_warnings : RatedVault N → N → N
  score_warnings vault = add_if (has_warning "YELLOW" vault) (d.decimal 2 1)

  abbrev pub score_curator : RatedVault N → N → N
  score_curator vault score = elim (curator_names vault) [
    | [] ↦ d.add score (d.decimal 15 2)
    | _ ∷ _ ↦ add_if (not (has_trusted_curator vault)) (d.decimal 2 1) score
  ]

  abbrev pub has_high_performance_fee : RatedVault N → Bool
  has_high_performance_fee vault =
      d.lt (d.decimal 5 2) (or_else vault.performance_fee (d.decimal 0 0))

  abbrev pub has_high_management_fee : RatedVault N → Bool
  has_high_management_fee vault =
      d.lt (d.decimal 2 2) (or_else vault.management_fee (d.decimal 0 0))

  abbrev pub score_fees : RatedVault N → N → N
  score_fees vault score =
      add_if (has_high_management_fee vault) (d.decimal 5 2)
        (add_if (has_high_performance_fee vault) (d.decimal 4 1) score)

  -- the share of the assets that is liquid, where both are known and there are assets
  abbrev pub liquidity_ratio : RatedVault N → Option N
  liquidity_ratio vault = elim vault.liquidity_usd [
    | none ↦ none
    | some liquidity ↦ elim vault.total_assets_usd [
      | none ↦ none
      | some total ↦ if d.lt (d.decimal 0 0) total then some (d.div liquidity total) else none
    ]
  ]

  abbrev pub score_liquidity : RatedVault N → N → N
  score_liquidity vault score = elim (liquidity_ratio vault) [
    | none ↦ score
    | some ratio ↦
        if d.lt ratio (d.decimal 1 1)
        then d.add score (d.decimal 15 2)
        else if d.lt ratio (d.decimal 3 1)
        then d.add score (d.decimal 8 2)
        else score
  ]

  abbrev pub total_of : RatedVault N → N
  total_of vault = or_else vault.total_assets_usd (d.decimal 0 0)

  abbrev pub score_size : RatedVault N → N → N
  score_size vault = add_if (d.lt (total_of vault) (d.decimal 100_000 0)) (d.decimal 1 1)

  -- `Math.min(score, 1.0)`
  abbrev pub cap : N → N
  cap score = if d.lt (d.decimal 1 0) score then d.decimal 1 0 else score

  -- the score of a vault that no gate excludes
  unfoldable pub score_of : RatedVault N → N
  score_of vault = cap (
      score_size vault (
        score_liquidity vault
          (score_fees vault (score_curator vault (score_warnings vault (d.decimal 0 0))))))

  unfoldable pub calculate_risk_score : RatedVault N → N
  calculate_risk_score vault =
      if not (or_else vault.whitelisted false)
      then d.decimal 1 0
      else if d.lt (d.decimal 5 1) (effective_apy vault)
      then d.decimal 1 0
      else if has_warning "RED" vault
      then d.decimal 1 0
      else score_of vault

  unfoldable pub get_risk_level : N → RiskLevel
  get_risk_level score =
      if d.le score (d.decimal 3 1)
      then low
      else if d.le score (d.decimal 6 1)
      then medium
      else high

  abbrev pub no_factors : Factors N
  no_factors = record {
    warnings = d.decimal 0 0;
    whitelist = d.decimal 0 0;
    curator = d.decimal 0 0;
    fees = d.decimal 0 0;
    liquidity = d.decimal 0 0;
    size = d.decimal 0 0;
  }

  abbrev pub warnings_part : RatedVault N → Part N
  warnings_part vault =
      if has_warning "RED" vault
      then (d.decimal 4 1, "Vault has critical warnings from Morpho" ∷ [])
      else if has_warning "YELLOW" vault
      then (d.decimal 2 1, "Vault has warnings to review" ∷ [])
      else (d.decimal 0 0, [])

  abbrev pub curator_part : RatedVault N → Part N
  curator_part vault = elim (curator_names vault) [
    | [] ↦ (d.decimal 15 2, "Curator information unknown" ∷ [])
    | name ∷ _ ↦
        if has_trusted_curator vault
        then (d.decimal 0 0, ("Curated by trusted team: " +++ name) ∷ [])
        else (
          d.decimal 2 1,
          ("Curator \""
                +++ (if is_empty name then "Unknown" else name)
                +++ "\" is not widely recognized")
              ∷ [],
        )
  ]

  module _ (to_fixed : N → ℕ → String) where
    abbrev pub percent : N → ℕ → String
    percent n digits = to_fixed (d.mul n (d.decimal 100 0)) digits +++ "%"

    abbrev pub fee_texts : RatedVault N → List String
    fee_texts vault =
        (if has_high_performance_fee vault
          then (percent (or_else vault.performance_fee (d.decimal 0 0)) 1 +++ " performance") ∷ []
          else [])
        ++ (if has_high_management_fee vault
            then (percent (or_else vault.management_fee (d.decimal 0 0)) 2 +++ " annual") ∷ []
            else [])

    -- `factors.fees` after both `+=`
    abbrev pub fee_factor : RatedVault N → N
    fee_factor vault =
        let performance : N =
          if d.lt (d.decimal 5 2) (or_else vault.performance_fee (d.decimal 0 0))
          then d.add (d.decimal 0 0) (d.decimal 4 1)
          else d.decimal 0 0 in
        if d.lt (d.decimal 2 2) (or_else vault.management_fee (d.decimal 0 0))
        then d.add performance (d.decimal 5 2)
        else performance

    abbrev pub fees_part : RatedVault N → Part N
    fees_part vault = (
      fee_factor vault,
      elim (fee_texts vault) [
        | [] ↦ []
        | fee ∷ fees ↦ ("High fees: " +++ join_items (fee ∷ fees)) ∷ []
      ],
    )

    abbrev pub liquidity_part : RatedVault N → Part N
    liquidity_part vault = elim (liquidity_ratio vault) [
      | none ↦ (d.decimal 0 0, [])
      | some ratio ↦
          if d.lt ratio (d.decimal 1 1)
          then (d.decimal 15 2, ("Low liquidity: only " +++ percent ratio 0 +++ " available") ∷ [])
          else if d.lt ratio (d.decimal 3 1)
          then (d.decimal 8 2, ("Moderate liquidity: " +++ percent ratio 0 +++ " available") ∷ [])
          else (d.decimal 0 0, ("Good liquidity: " +++ percent ratio 0 +++ " available") ∷ [])
    ]

    abbrev pub size_part : RatedVault N → Part N
    size_part vault =
        let total = total_of vault in
        if d.lt total (d.decimal 100_000 0)
        then (
          d.decimal 1 1,
          ("Small TVL: $" +++ to_fixed (d.div total (d.decimal 1000 0)) 0 +++ "k (less tested)")
              ∷ [],
        )
        else if d.lt total (d.decimal 1_000_000 0)
        then (
          d.decimal 0 0,
          ("Moderate TVL: $" +++ to_fixed (d.div total (d.decimal 1_000_000 0)) 1 +++ "m") ∷ [],
        )
        else (
          d.decimal 0 0,
          ("Strong TVL: $" +++ to_fixed (d.div total (d.decimal 1_000_000 0)) 1 +++ "m") ∷ [],
        )

    -- what a vault past the first two gates is given
    unfoldable pub factors_of : RatedVault N → Factors N
    factors_of vault = record {
      warnings = (warnings_part vault).0;
      whitelist = d.decimal 0 0;
      curator = (curator_part vault).0;
      fees = (fees_part vault).0;
      liquidity = (liquidity_part vault).0;
      size = (size_part vault).0;
    }

    unfoldable pub get_risk_breakdown : RatedVault N → RiskBreakdown N
    get_risk_breakdown vault =
        let score = calculate_risk_score vault in
        let level = get_risk_level score in
        let whitelisted : String = "Vault is whitelisted by Morpho ✓" in
        if not (or_else vault.whitelisted false)
        then record {
          score = score;
          level = level;
          factors = record no_factors { whitelist = d.decimal 1 0 };
          reasoning = "EXCLUDED: Vault is not whitelisted by Morpho" ∷ [];
        }
        else if d.lt (d.decimal 5 1) (effective_apy vault)
        then record {
          score = score;
          level = level;
          factors = record no_factors { warnings = d.decimal 1 0 };
          reasoning =
              whitelisted
              ∷ ("EXCLUDED: APY "
                  +++ percent (effective_apy vault) 0
                  +++ " exceeds 50% ceiling — likely artificial")
              ∷ [];
        }
        else record {
          score = score;
          level = level;
          factors = factors_of vault;
          reasoning =
              (whitelisted ∷ [])
              ++ (warnings_part vault).1
              ++ (curator_part vault).1
              ++ (fees_part vault).1
              ++ (liquidity_part vault).1
              ++ (size_part vault).1;
        }
