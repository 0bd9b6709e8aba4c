-- ===== src/Agent/Rebalance/Funded.antt =====
-- The calls of a rebalance, run in their order on a wallet: each has the shares, the tokens and the
-- allowance that it needs, whatever the two protocols.
use tapioca_money.Base.{
  ℕ, ◌+◌, ◌-◌, ◌*◌, ◌/◌, ◌≤◌, ◌<◌, String, ◌==◌, ◌≡◌, refl, inl, inr, true, ◌&&◌, Option, none,
  some, ap, ◌∙◌, ◌⊎◌, subst, List, [], ◌∷◌, ◌++◌, arith, leb, or_else, if◌then◌else◌, eq_iff,
  Option-cases,
}
use tapioca_money.Redis.Action.{Result, ok, and_then, Result-cases}
use tapioca_money.Sentinel.Types.{Protocol, morpho, yo}
use tapioca_money.Agent.Rebalance.{
  call_of, RebalanceParams, RebalanceCall, vault_redeem, vault_deposit, approve, gateway_redeem,
  gateway_deposit, Reads, apply_yo_slippage, redeem_calls, deposit_calls, build_rebalance_calls,
  underlying_address_of,
}

-- the user's shares by vault, tokens of the underlying, and allowances by token and spender
pub record Wallet : Type 0 where
  pub shares : String → ℕ
  pub tokens : ℕ
  pub allowance : String → String → ℕ

-- the shares less some of a vault, and with some more
abbrev pub spent : String → ℕ → (String → ℕ) → String → ℕ
spent vault amount shares v = if v == vault then shares v - amount else shares v

abbrev pub gained : String → ℕ → (String → ℕ) → String → ℕ
gained vault amount shares v = if v == vault then shares v + amount else shares v

-- the wallet after a call from `user`, where a redeem pays `paid` tokens and a deposit gives `minted`
-- shares, each of the vault that is called or named; `none` where the contract reverts
abbrev pub run_call : RebalanceParams → ℕ → ℕ → RebalanceCall → Wallet → Option Wallet
run_call params paid minted call w = elim call.data_of [
  | vault_redeem shares receiver owner ↦
      if leb shares (w.shares call.to)
        && receiver == params.user_address
        && owner == params.user_address
      then some (record w { shares = spent call.to shares w.shares; tokens = w.tokens + paid })
      else none
  | vault_deposit assets receiver ↦
      if leb assets (w.allowance (underlying_address_of params) call.to)
        && leb assets w.tokens
        && receiver == params.user_address
      then some (record w { shares = gained call.to minted w.shares; tokens = w.tokens - assets })
      else none
  | approve spender amount ↦ some (record w {
    allowance = λ token s. if token == call.to && s == spender then amount else w.allowance token s;
  })
  | gateway_redeem vault shares least receiver _ ↦
      if leb shares (w.allowance vault call.to)
        && leb shares (w.shares vault)
        && leb least paid
        && receiver == params.user_address
      then some (record w { shares = spent vault shares w.shares; tokens = w.tokens + paid })
      else none
  | gateway_deposit vault assets least receiver _ ↦
      if leb assets (w.allowance (underlying_address_of params) call.to)
        && leb assets w.tokens
        && leb least minted
        && receiver == params.user_address
      then some (record w { shares = gained vault minted w.shares; tokens = w.tokens - assets })
      else none
]

abbrev pub run_calls : RebalanceParams → ℕ → ℕ → List RebalanceCall → Wallet → Option Wallet
run_calls params paid minted [] w = some w
run_calls params paid minted (call ∷ calls) w = elim (run_call params paid minted call w) [
  | none ↦ none
  | some w' ↦ run_calls params paid minted calls w'
]

-- the least that the redeem may pay: the preview less half a percent, as the source rounds it
abbrev pub least_paid : Reads → RebalanceParams → Result ℕ
least_paid reads params = elim (or_else params.from_protocol morpho) [
  | morpho ↦
      and_then (reads.preview_redeem params.from_vault params.shares)
        λ expected. ok (expected * 995 / 1000)
  | yo ↦
      and_then (reads.quote_preview_redeem params.from_vault params.shares)
        λ expected. ok (expected * 9950 / 10_000)
]

-- the least that the deposit may give: of YO the preview less half a percent, of Morpho anything
abbrev pub least_minted : Reads → RebalanceParams → ℕ → Result ℕ
least_minted reads params amount = elim (or_else params.to_protocol morpho) [
  | morpho ↦ ok 0
  | yo ↦
      and_then (reads.quote_preview_deposit params.to_vault amount)
        λ expected. ok (expected * 9950 / 10_000)
]

module _ (reads : Reads) (params : RebalanceParams) (paid minted : ℕ) where
  run_calls-append :
      (xs ys : List RebalanceCall) (w w' : Wallet)
      → run_calls params paid minted xs w ≡ some w'
      → run_calls params paid minted (xs ++ ys) w ≡ run_calls params paid minted ys w'
  run_calls-append [] ys w w' h = ground arith
  run_calls-append (x ∷ xs) ys w w' h = elim (Option-cases (run_call params paid minted x w)) [
    | inl reverted ↦ absurd (ground arith)
    | inr (u, ran) ↦ ground (arith, run_calls-append xs ys u w')
  ]

  -- the user's own address, as the receiver
  own : (params.user_address == params.user_address) ≡ true
  own = ground (arith, eq_iff params.user_address params.user_address)

  run-vault_redeem :
      (w : Wallet)
      → params.shares ≤ w.shares params.from_vault
      → run_calls params paid minted
          (call_of params.from_vault
              (vault_redeem params.shares params.user_address params.user_address)
            ∷ [])
          w
        ≡ some (record w {
          shares = spent params.from_vault params.shares w.shares;
          tokens = w.tokens + paid;
        })
  run-vault_redeem w owned = ground (arith, own)

  -- the allowances after an approval
  abbrev approved : String → String → ℕ → Wallet → Wallet
  approved to spender amount w = record w {
    allowance = λ token s. if token == to && s == spender then amount else w.allowance token s;
  }

  approved-allowance :
      (to spender : String) (amount : ℕ) (w : Wallet)
      → (approved to spender amount w).allowance to spender ≡ amount
  approved-allowance to spender amount w = ground (arith, eq_iff to to, eq_iff spender spender)

  run-gateway_redeem :
      (w : Wallet) (least : ℕ)
      → params.shares ≤ w.shares params.from_vault
      → least ≤ paid
      → run_calls params paid minted
          (call_of params.from_vault (approve reads.gateway params.shares)
            ∷ call_of reads.gateway (
                gateway_redeem params.from_vault params.shares least params.user_address
                  reads.partner_id)
            ∷ [])
          w
        ≡ some (record (approved params.from_vault reads.gateway params.shares w) {
          shares = spent params.from_vault params.shares w.shares;
          tokens = w.tokens + paid;
        })
  run-gateway_redeem w least owned enough =
      ground (arith, own, approved-allowance params.from_vault reads.gateway params.shares w)

  run-vault_deposit :
      (w : Wallet) (amount : ℕ)
      → amount ≤ w.tokens
      → run_calls params paid minted
          (call_of (underlying_address_of params) (approve params.to_vault amount)
            ∷ call_of params.to_vault (vault_deposit amount params.user_address)
            ∷ [])
          w
        ≡ some (record (approved (underlying_address_of params) params.to_vault amount w) {
          shares = gained params.to_vault minted w.shares;
          tokens = w.tokens - amount;
        })
  run-vault_deposit w amount funded =
      ground
        (arith, own, approved-allowance (underlying_address_of params) params.to_vault amount w)

  run-gateway_deposit :
      (w : Wallet) (amount least : ℕ)
      → amount ≤ w.tokens
      → least ≤ minted
      → run_calls params paid minted
          (call_of (underlying_address_of params) (approve reads.gateway amount)
            ∷ call_of reads.gateway
                (gateway_deposit params.to_vault amount least params.user_address reads.partner_id)
            ∷ [])
          w
        ≡ some (record (approved (underlying_address_of params) reads.gateway amount w) {
          shares = gained params.to_vault minted w.shares;
          tokens = w.tokens - amount;
        })
  run-gateway_deposit w amount least funded enough =
      ground (arith, own, approved-allowance (underlying_address_of params) reads.gateway amount w)

  Protocol-cases : (p : Protocol) → (p ≡ morpho) ⊎ (p ≡ yo)
  Protocol-cases morpho = inl refl
  Protocol-cases yo = inr refl

  -- Step 1 gives the amount that the wallet is to gain at least.
  redeem_calls-least_paid :
      (calls : List RebalanceCall) (amount : ℕ)
      → redeem_calls reads params ≡ ok (calls, amount)
      → least_paid reads params ≡ ok amount
  unfolding redeem_calls apply_yo_slippage
  redeem_calls-least_paid calls amount made = ground arith

  run-redeem_calls :
      (w : Wallet) (calls : List RebalanceCall) (amount : ℕ)
      → redeem_calls reads params ≡ ok (calls, amount)
      → params.shares ≤ w.shares params.from_vault
      → amount ≤ paid
      → (w' : Wallet) × (run_calls params paid minted calls w ≡ some w')
        × (w'.tokens ≡ w.tokens + paid)
        × (w'.shares ≡ spent params.from_vault params.shares w.shares)
  unfolding redeem_calls
  run-redeem_calls w calls amount made owned enough =
      elim (Protocol-cases (or_else params.from_protocol morpho)) [
        | inl from_morpho ↦
            let same : call_of params.from_vault
                    (vault_redeem params.shares params.user_address params.user_address)
                  ∷ []
                ≡ calls =
              ground arith in
            (
              record w {
                shares = spent params.from_vault params.shares w.shares;
                tokens = w.tokens + paid;
              },
              subst
                  (λ cs.
                    run_calls params paid minted cs w
                    ≡ some (record w {
                      shares = spent params.from_vault params.shares w.shares;
                      tokens = w.tokens + paid;
                    }))
                  same (run-vault_redeem w owned),
              refl,
              refl,
            )
        | inr from_yo ↦
            let same : call_of params.from_vault (approve reads.gateway params.shares)
                  ∷ call_of reads.gateway (
                      gateway_redeem params.from_vault params.shares amount params.user_address
                        reads.partner_id)
                  ∷ []
                ≡ calls =
              ground arith in
            let w' = record (approved params.from_vault reads.gateway params.shares w) {
              shares = spent params.from_vault params.shares w.shares;
              tokens = w.tokens + paid;
            } in
            (
              w',
              subst (λ cs. run_calls params paid minted cs w ≡ some w') same
                  (run-gateway_redeem w amount owned enough),
              refl,
              refl,
            )
      ]

  run-deposit_calls :
      (w : Wallet) (calls : List RebalanceCall) (amount least : ℕ)
      → deposit_calls reads params amount ≡ ok calls
      → amount ≤ w.tokens
      → least_minted reads params amount ≡ ok least
      → least ≤ minted
      → (w' : Wallet) × (run_calls params paid minted calls w ≡ some w')
        × (w'.tokens ≡ w.tokens - amount)
        × (w'.shares ≡ gained params.to_vault minted w.shares)
  unfolding deposit_calls apply_yo_slippage
  run-deposit_calls w calls amount least made funded previewed enough =
      elim (Protocol-cases (or_else params.to_protocol morpho)) [
        | inl to_morpho ↦
            let same : call_of (underlying_address_of params) (approve params.to_vault amount)
                  ∷ call_of params.to_vault (vault_deposit amount params.user_address)
                  ∷ []
                ≡ calls =
              ground arith in
            let w' = record (approved (underlying_address_of params) params.to_vault amount w) {
              shares = gained params.to_vault minted w.shares;
              tokens = w.tokens - amount;
            } in
            (
              w',
              subst (λ cs. run_calls params paid minted cs w ≡ some w') same
                  (run-vault_deposit w amount funded),
              refl,
              refl,
            )
        | inr to_yo ↦ elim (Result-cases (reads.quote_preview_deposit params.to_vault amount)) [
          | inr (e, failed) ↦ absurd (ground arith)
          | inl (expected, quoted) ↦
              let same : call_of (underlying_address_of params) (approve reads.gateway amount)
                    ∷ call_of reads.gateway (
                        gateway_deposit params.to_vault amount (apply_yo_slippage expected)
                          params.user_address reads.partner_id)
                    ∷ []
                  ≡ calls =
                ground arith in
              let w' = record (approved (underlying_address_of params) reads.gateway amount w) {
                shares = gained params.to_vault minted w.shares;
                tokens = w.tokens - amount;
              } in
              (
                w',
                subst (λ cs. run_calls params paid minted cs w ≡ some w') same
                    (run-gateway_deposit w amount (apply_yo_slippage expected) funded
                      (ground arith)),
                refl,
                refl,
              )
        ]
      ]

  -- The calls of `buildRebalanceCalls`, for all four pairs of protocols, on a wallet that has the
  -- shares of the source vault, where the redeem pays at least the preview less half a percent, and a
  -- deposit into YO gives at least its preview less half a percent: run in their order, none of them
  -- reverts for want of shares, tokens or allowance, for too small a return or for another receiver than
  -- the user. The shares of the source vault leave the wallet, a positive amount is deposited for shares
  -- of the target vault, no other shares change, and what was paid beyond the amount stays.
  pub build_rebalance_calls-run :
      (w : Wallet) (calls : List RebalanceCall) (least least_shares : ℕ)
      → build_rebalance_calls reads params ≡ ok calls
      → least_paid reads params ≡ ok least
      → least_minted reads params least ≡ ok least_shares
      → params.shares ≤ w.shares params.from_vault
      → least ≤ paid
      → least_shares ≤ minted
      → (w' : Wallet) × (run_calls params paid minted calls w ≡ some w')
        × (w'.shares
            ≡ gained params.to_vault minted (spent params.from_vault params.shares w.shares))
        × (w'.tokens + least ≡ w.tokens + paid)
        × (0 < least)
  unfolding build_rebalance_calls
  build_rebalance_calls-run w calls least least_shares built previewed quoted owned enough fair =
      elim (Result-cases (redeem_calls reads params)) [
        | inr (e, failed) ↦ absurd (ground arith)
        | inl ((redeems, amount), redeemed) ↦
            let same : amount ≡ least =
              ground (arith, redeem_calls-least_paid redeems amount redeemed) in
            elim (Result-cases (deposit_calls reads params amount)) [
              | inr (e, failed) ↦ absurd (ground arith)
              | inl (deposits, made) ↦
                  let (u, ran, tokens, shares) =
                    run-redeem_calls w redeems amount redeemed owned (ground arith) in
                  let (w', ran', tokens', shares') =
                    run-deposit_calls u deposits amount least_shares made (ground arith)
                      (ap (λ n. least_minted reads params n) same ∙ quoted) fair in
                  let both : redeems ++ deposits ≡ calls = ground arith in
                  (
                    w',
                    subst (λ cs. run_calls params paid minted cs w ≡ some w') both
                        (run_calls-append redeems deposits w u ran ∙ ran'),
                    shares' ∙ ap (λ f. gained params.to_vault minted f) shares,
                    ground arith,
                    ground arith,
                  )
            ]
      ]
