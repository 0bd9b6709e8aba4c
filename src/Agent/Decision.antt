-- ===== src/Agent/Decision.antt =====
-- lib/agent/decision-engine.ts, `evaluateRebalancing`, and the thresholds of lib/config.ts. What the
-- clients return is an argument; the first fetch that fails in the order of the list is the error.
-- `N` is the type of the numbers, `to_fixed` the text of one with some digits.
mod Types
pub mod Best
pub mod Choice
use tapioca_money.Base.{
  ℕ, String, ◌==◌, ◌+++◌, Bool, true, false, not, ◌&&◌, Option, none, some, List, [], ◌∷◌, ◌++◌,
  map, any, find?, filter, head?, sort_by, or_else, to_lower, to_upper, if◌then◌else◌,
}
use tapioca_money.Base.Double.{Double}
use tapioca_money.Base.Dict
use tapioca_money.Base.Dict.{Dict}
use tapioca_money.Redis.Action.{Result, ok, err, and_then}
use tapioca_money.Sentinel.Types.{Protocol, morpho, yo}
use tapioca_money.Agent.Pause.{VaultPauseState}
unfoldable pub use Types.*

-- `USDC_ADDRESS`
abbrev pub usdc_address : String
usdc_address = "0x833589fCD6eDb6E08f4c7C32D4f71b54bdA02913"

abbrev pub protocol_name : Protocol → String
protocol_name morpho = "morpho"
protocol_name yo = "yo"

-- `pauseStates.get(address.toLowerCase())?.redeemPaused`
abbrev pub is_redeem_paused : Dict VaultPauseState → String → Bool
is_redeem_paused states address = elim (Dict.get (to_lower address) states) [
  | none ↦ false
  | some state ↦ state.redeem_paused
]

abbrev pub is_deposit_paused : Dict VaultPauseState → String → Bool
is_deposit_paused states address = elim (Dict.get (to_lower address) states) [
  | none ↦ false
  | some state ↦ state.deposit_paused
]

module _ {N : Type 0} ⦃d : Double N⦄ where
  -- `REBALANCE_THRESHOLDS`
  abbrev pub min_apy_improvement : N
  min_apy_improvement = d.decimal 5 3

  abbrev pub targeted_apy_improvement : N
  targeted_apy_improvement = d.decimal 1 3

  abbrev pub min_liquidity_usd : N
  min_liquidity_usd = d.decimal 100_000 0

  -- `v.avgNetApy ?? v.netApy ?? 0`
  abbrev pub morpho_apy : MorphoVault N → N
  morpho_apy v = or_else v.avg_net_apy (or_else v.net_apy (d.decimal 0 0))

  unfoldable pub normalize_morpho_position : MorphoUserPosition N → Position N
  normalize_morpho_position p = record {
    protocol = morpho;
    vault_address = p.vault_address;
    vault_name = p.vault_name;
    shares = p.shares;
    assets = p.assets;
    assets_usd = or_else p.assets_usd (d.decimal 0 0);
    underlying_symbol = "USDC";
    underlying_address = usdc_address;
  }

  -- the underlying of the last vault with the address, as in a `Map` of the vaults
  unfoldable pub underlying_of : List (YoVault N) → String → Option (String × String)
  underlying_of [] key = none
  underlying_of (v ∷ vaults) key = elim (underlying_of vaults key) [
    | some u ↦ some u
    | none ↦
        if to_lower v.address == key then some (v.underlying_symbol, v.underlying_address) else none
  ]

  unfoldable pub normalize_yo_position : List (YoVault N) → YoUserPosition N → Position N
  normalize_yo_position vaults p =
      let (symbol, address) =
        or_else (underlying_of vaults (to_lower p.vault_address)) ("USDC", usdc_address) in
      record {
        protocol = yo;
        vault_address = p.vault_address;
        vault_name = p.vault_name;
        shares = p.shares;
        assets = p.assets;
        assets_usd = p.assets_usd;
        underlying_symbol = symbol;
        underlying_address = address;
      }

  unfoldable pub normalize_morpho_vault : MorphoVault N → Vault N
  normalize_morpho_vault v = record {
    protocol = morpho;
    address = v.address;
    name = v.name;
    apy = morpho_apy v;
    liquidity_usd = or_else v.total_assets_usd (d.decimal 0 0);
    underlying_symbol = "USDC";
    underlying_address = usdc_address;
  }

  unfoldable pub normalize_yo_vault : YoVault N → Vault N
  normalize_yo_vault v = record {
    protocol = yo;
    address = v.address;
    name = v.name;
    apy = v.apy;
    liquidity_usd = v.tvl_usd;
    underlying_symbol = v.underlying_symbol;
    underlying_address = v.underlying_address;
  }

  -- `reduce` to the largest position, of equal ones the first
  unfoldable pub largest : Position N → List (Position N) → Position N
  largest max [] = max
  largest max (p ∷ ps) = largest (if d.lt max.assets_usd p.assets_usd then p else max) ps

  abbrev pub is_eligible : Position N → Vault N → Bool
  is_eligible current v =
      d.le min_liquidity_usd v.liquidity_usd
      && not (to_lower v.address == to_lower current.vault_address)
      && to_upper v.underlying_symbol == to_upper current.underlying_symbol

  abbrev pub current_vault_of : Position N → N → CurrentVault N
  current_vault_of p apy = record {
    address = p.vault_address;
    name = p.vault_name;
    apy = apy;
    shares = p.shares;
    assets = p.assets;
    protocol = p.protocol;
    underlying_address = p.underlying_address;
    underlying_symbol = p.underlying_symbol;
  }

  -- the decision not to rebalance that every early return gives
  abbrev pub stay : String → Option (CurrentVault N) → RebalanceDecision N
  stay reason current = record {
    should_rebalance = false;
    reason = reason;
    current_vault = current;
    target_vault = none;
    apy_improvement = d.decimal 0 0;
    estimated_annual_gain = d.decimal 0 0;
    break_even_days = 0;
  }

  -- `b.apy - a.apy > 0`
  abbrev pub sorts_after : Vault N → Vault N → Bool
  sorts_after a b = d.lt (d.decimal 0 0) (d.sub b.apy a.apy)

  -- `targetedVaults?.some(...)`
  abbrev pub is_targeted : Option (List String) → Position N → Bool
  is_targeted none current = false
  is_targeted (some targeted) current =
      any (λ v. to_lower v == to_lower current.vault_address) targeted

  abbrev pub effective_threshold : Option (List String) → Position N → N
  effective_threshold targeted current =
      if is_targeted targeted current then targeted_apy_improvement else min_apy_improvement

  percent : (N → ℕ → String) → N → ℕ → String
  percent to_fixed x digits = to_fixed (d.mul x (d.decimal 100 0)) digits +++ "%"

  -- steps 6 and 7: the improvement against the threshold
  unfoldable pub judge_best :
      (N → ℕ → String) → Option (List String) → Position N → N → Vault N → RebalanceDecision N
  unfolding percent
  judge_best to_fixed targeted current current_apy best =
      let apy_improvement = d.sub best.apy current_apy in
      let gain = d.mul current.assets_usd apy_improvement in
      let threshold = effective_threshold targeted current in
      let should_rebalance = d.le threshold apy_improvement in
      record {
        should_rebalance = should_rebalance;
        reason =
            if should_rebalance
            then (if is_targeted targeted current then "[TARGETED] " else "")
              +++ "Found "
              +++ percent to_fixed apy_improvement 2
              +++ " APY improvement ("
              +++ percent to_fixed current_apy 2
              +++ " → "
              +++ percent to_fixed best.apy 2
              +++ "). "
              +++ protocol_name current.protocol
              +++ "→"
              +++ protocol_name best.protocol
              +++ ". Estimated gain: $"
              +++ to_fixed gain 2
              +++ "/year."
            else "APY improvement too small ("
              +++ percent to_fixed apy_improvement 2
              +++ " < "
              +++ percent to_fixed threshold 1
              +++ " threshold)";
        current_vault = some (current_vault_of current current_apy);
        target_vault = if should_rebalance then some best else none;
        apy_improvement = apy_improvement;
        estimated_annual_gain = gain;
        break_even_days = 0;
      }

  -- step 5 on: the best of the eligible vaults
  unfoldable pub choose_best :
      (N → ℕ → String)
      → Option (List String)
      → Position N
      → N
      → List (Vault N)
      → RebalanceDecision N
  choose_best to_fixed targeted current current_apy eligible =
      elim (head? (sort_by sorts_after eligible)) [
        | none ↦
            stay "No eligible alternative vaults found"
              (some (current_vault_of current current_apy))
        | some best ↦ judge_best to_fixed targeted current current_apy best
      ]

  -- the filters, with the pause states if there is a service
  unfoldable pub choose :
      Fetched N → Option (List String) → Position N → N → List (Vault N) → RebalanceDecision N
  choose fetched targeted current current_apy vaults =
      let eligible = filter (is_eligible current) vaults in
      elim fetched.states [
        | none ↦ choose_best fetched.to_fixed targeted current current_apy eligible
        | some check ↦
            let states =
              check (map (λ (v : Vault N). v.address) eligible ++ current.vault_address ∷ []) in
            elim (is_redeem_paused states current.vault_address) [
              | true ↦
                  stay "Current vault has redeems paused"
                    (some (current_vault_of current current_apy))
              | false ↦
                  choose_best fetched.to_fixed targeted current current_apy
                    (filter (λ (v : Vault N). not (is_deposit_paused states v.address)) eligible)
            ]
      ]

  -- the current vault's APY; `none` where its details could not be fetched
  unfoldable pub current_apy_of :
      Fetched N → List (MorphoVault N) → List (YoVault N) → Position N → Result (Option N)
  current_apy_of fetched morpho_vaults yo_vaults current = elim current.protocol [
    | morpho ↦
        elim (find? (λ (v : MorphoVault N). to_lower v.address == to_lower current.vault_address)
          morpho_vaults) [
            | some v ↦ ok (some (morpho_apy v))
            | none ↦
                and_then (fetched.fetch_vault current.vault_address)
                  λ details. elim details [ none ↦ ok none | some v ↦ ok (some (morpho_apy v)) ]
          ]
    | yo ↦
        elim (find? (λ (v : YoVault N). to_lower v.address == to_lower current.vault_address)
          yo_vaults) [ some v ↦ ok (some v.apy) | none ↦ ok (some (d.decimal 0 0)) ]
  ]

  unfoldable pub all_vaults : List (MorphoVault N) → List (YoVault N) → List (Vault N)
  all_vaults morpho_vaults yo_vaults =
      map normalize_morpho_vault morpho_vaults ++ map normalize_yo_vault yo_vaults

  unfoldable pub all_positions :
      List (MorphoUserPosition N) → List (YoUserPosition N) → List (YoVault N) → List (Position N)
  all_positions morpho_positions yo_positions yo_vaults =
      map normalize_morpho_position morpho_positions
      ++ map (normalize_yo_position yo_vaults) yo_positions

  -- for the largest position
  unfoldable pub evaluate_position :
      Fetched N
      → Option (List String)
      → List (MorphoVault N)
      → List (YoVault N)
      → Position N
      → Result (RebalanceDecision N)
  evaluate_position fetched targeted morpho_vaults yo_vaults current =
      and_then (current_apy_of fetched morpho_vaults yo_vaults current) λ apy. elim apy [
        | none ↦ ok (stay "Could not fetch current Morpho vault details" none)
        | some current_apy ↦
            ok (choose fetched targeted current current_apy (all_vaults morpho_vaults yo_vaults))
      ]

  -- the body of the `try`
  unfoldable pub evaluate_fetched : Fetched N → Option (List String) → Result (RebalanceDecision N)
  evaluate_fetched fetched targeted = and_then fetched.morpho_positions λ morpho_positions.
      and_then fetched.yo_positions λ yo_positions. and_then fetched.morpho_vaults λ morpho_vaults.
        and_then fetched.yo_vaults λ yo_vaults.
          elim (all_positions morpho_positions yo_positions yo_vaults) [
            | [] ↦ ok (stay "No active positions found" none)
            | p ∷ ps ↦ evaluate_position fetched targeted morpho_vaults yo_vaults (largest p ps)
          ]

  unfoldable pub evaluate_rebalancing : Fetched N → Option (List String) → RebalanceDecision N
  evaluate_rebalancing fetched targeted = elim (evaluate_fetched fetched targeted) [
    | ok decision ↦ decision
    | err e ↦ stay ("Error: " +++ e) none
  ]
