-- ===== src/Agent/Rebalance.antt =====
-- lib/agent/rebalance-executor.ts, `buildRebalanceCalls`, with `applyYoSlippage` of lib/yo/constants.ts.
-- A call is kept as the function and the arguments that are encoded. The previews of the contracts, the
-- gateway's address and the partner's number are parameters.
pub mod Funded
pub mod Execution
use tapioca_money.Base.{
  ℕ, ◌-◌, ◌*◌, ◌/◌, String, ◌+++◌, true, false, Option, none, some, List, [], ◌∷◌, ◌++◌, nat_eq,
  or_else, if◌then◌else◌, to_string,
}
use tapioca_money.Redis.Action.{Result, ok, err, and_then}
use tapioca_money.Sentinel.Types.{Protocol, morpho, yo}
use tapioca_money.Agent.Decision.{usdc_address}

pub record RebalanceParams : Type 0 where
  pub from_vault : String
  pub to_vault : String
  pub shares : ℕ
  pub user_address : String
  pub from_protocol : Option Protocol
  pub to_protocol : Option Protocol
  pub underlying_address : Option String

-- the function that is called and its arguments
pub data CallData : Type 0 where
  -- shares, receiver, owner
  vault_redeem : ℕ → String → String → CallData
  -- assets, receiver
  vault_deposit : ℕ → String → CallData
  -- spender, amount
  approve : String → ℕ → CallData
  -- vault, shares, least assets, receiver, partner
  gateway_redeem : String → ℕ → ℕ → String → ℕ → CallData
  -- vault, assets, least shares, receiver, partner
  gateway_deposit : String → ℕ → ℕ → String → ℕ → CallData

pub record RebalanceCall : Type 0 where
  pub to : String
  pub data_of : CallData
  pub value : ℕ

-- what is read of the contracts
pub record Reads : Type 0 where
  pub gateway : String
  pub partner_id : ℕ
  pub preview_redeem : String → ℕ → Result ℕ
  pub quote_preview_redeem : String → ℕ → Result ℕ
  pub quote_preview_deposit : String → ℕ → Result ℕ

-- `YO_SLIPPAGE_BPS`
abbrev pub yo_slippage_bps : ℕ
yo_slippage_bps = 50

unfoldable pub apply_yo_slippage : ℕ → ℕ
apply_yo_slippage value = value * (10_000 - yo_slippage_bps) / 10_000

abbrev pub call_of : String → CallData → RebalanceCall
call_of to data_of = record { to = to; data_of = data_of; value = 0 }

abbrev pub underlying_address_of : RebalanceParams → String
underlying_address_of params = or_else params.underlying_address usdc_address

-- step 1: the calls, and the amount that they are to give at least
unfoldable pub redeem_calls : Reads → RebalanceParams → Result (List RebalanceCall × ℕ)
redeem_calls reads params = elim (or_else params.from_protocol morpho) [
  | morpho ↦ and_then (reads.preview_redeem params.from_vault params.shares) λ expected. ok (
    call_of params.from_vault (vault_redeem params.shares params.user_address params.user_address)
        ∷ [],
    expected * 995 / 1000,
  )
  | yo ↦ and_then (reads.quote_preview_redeem params.from_vault params.shares) λ expected. ok (
    call_of params.from_vault (approve reads.gateway params.shares)
        ∷ call_of reads.gateway (
            gateway_redeem params.from_vault params.shares (apply_yo_slippage expected)
              params.user_address reads.partner_id)
        ∷ [],
    apply_yo_slippage expected,
  )
]

-- step 2: approve and deposit the amount
unfoldable pub deposit_calls : Reads → RebalanceParams → ℕ → Result (List RebalanceCall)
deposit_calls reads params amount = elim (or_else params.to_protocol morpho) [
  | morpho ↦ ok (
      call_of (underlying_address_of params) (approve params.to_vault amount)
      ∷ call_of params.to_vault (vault_deposit amount params.user_address)
      ∷ [])
  | yo ↦ and_then (reads.quote_preview_deposit params.to_vault amount) λ least. ok (
      call_of (underlying_address_of params) (approve reads.gateway amount)
      ∷ call_of reads.gateway (
          gateway_deposit params.to_vault amount (apply_yo_slippage least) params.user_address
            reads.partner_id)
      ∷ [])
]

unfoldable pub build_rebalance_calls : Reads → RebalanceParams → Result (List RebalanceCall)
build_rebalance_calls reads params = and_then (redeem_calls reads params) λ redeemed.
    elim (nat_eq redeemed.1 0) [
      | true ↦ err (
          "previewRedeem returned 0 for "
          +++ to_string params.shares
          +++ " shares on vault "
          +++ params.from_vault)
      | false ↦
          and_then (deposit_calls reads params redeemed.1) λ deposits. ok (redeemed.0 ++ deposits)
    ]
