-- ===== src/Agent/Oracle/Safety.antt =====
-- When a rebalance is safe.
use tapioca_money.Base.{ℕ, ◌+◌, ◌≤◌, ◌^◌, ◌≡◌, ◌↔◌, inl, inr, true, false, arith}
use tapioca_money.Base.Int.{pos}
use tapioca_money.Base.Double.{Double}
use tapioca_money.Redis.Action.{ok, Result-cases}
use tapioca_money.Agent.Oracle.{
  Feeds, RoundData, Texts, is_sequencer_up, get_usdc_price, judge_price, check_feeds,
  is_rebalance_safe, number_of_int, depeg_threshold,
}

module _ {N : Type 0} ⦃d : Double N⦄ (texts : Texts N) (now : ℕ) (feeds : Feeds) where
  -- both feeds have answered: the sequencer has been up for an hour, the price is at most a day old,
  -- and it is not known to be more than half a cent from a dollar
  abbrev pub IsHealthy : Type 0
  IsHealthy =
      (up round : RoundData) × (decimals : ℕ) × (feeds.sequencer ≡ ok up)
      × (feeds.usdc ≡ ok round)
      × (feeds.usdc_decimals ≡ ok decimals)
      × (up.answer ≡ pos 0)
      × (up.started_at + 3600 ≤ now)
      × (now ≤ round.updated_at + 86_400)
      × (d.lt depeg_threshold (
            d.abs (
              d.sub (d.div (number_of_int round.answer) (d.decimal (10 ^ decimals) 0))
                (d.decimal 1 0)))
          ≡ false)

  -- A rebalance is safe exactly if both feeds have answered and are healthy; a read that throws makes
  -- it unsafe.
  pub is_rebalance_safe-IsHealthy : ((is_rebalance_safe texts now feeds).good ≡ true) ↔ IsHealthy
  unfolding is_rebalance_safe check_feeds judge_price get_usdc_price is_sequencer_up
  is_rebalance_safe-IsHealthy = (
    λ safe. elim (Result-cases feeds.sequencer) [
      | inr (e, threw) ↦ absurd (ground arith)
      | inl (up, a) ↦ elim (Result-cases feeds.usdc) [
        | inr (e, threw) ↦ absurd (ground arith)
        | inl (round, b) ↦ elim (Result-cases feeds.usdc_decimals) [
          | inr (e, threw) ↦ absurd (ground arith)
          | inl (decimals, c) ↦
              (up, round, decimals, a, b, c, ground arith, ground arith, ground arith, ground arith)
        ]
      ]
    ],
    λ (up, round, decimals, a, b, c, zero, long, fresh, pegged). ground arith,
  )
