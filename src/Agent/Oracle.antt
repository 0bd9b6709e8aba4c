-- ===== src/Agent/Oracle.antt =====
-- lib/oracles/chainlink.ts. What the two feeds answer is an argument; times are in seconds, `now` is
-- `Math.floor(Date.now() / 1000)`. The texts of numbers and dates are parameters.
pub mod Safety
use tapioca_money.Base.{
  ℕ, zero, suc, ◌+◌, ◌-◌, ◌*◌, ◌^◌, String, ◌+++◌, Bool, true, false, Option, none, some, ltb, leb,
  to_string, if◌then◌else◌,
}
use tapioca_money.Base.Int.{ℤ, pos, negsuc}
use tapioca_money.Base.Double.{Double}
use tapioca_money.Redis.Action.{Result, ok, err, and_then}

-- `latestRoundData`, without the round in which it was answered
pub record RoundData : Type 0 where
  pub round_id : ℕ
  pub answer : ℤ
  pub started_at : ℕ
  pub updated_at : ℕ

-- what the reads of the contracts give
pub record Feeds : Type 0 where
  pub sequencer : Result RoundData
  pub usdc : Result RoundData
  pub usdc_decimals : Result ℕ

pub record PriceFeedResult (N : Type 0) : Type 0 where
  pub price : N
  pub updated_at : ℕ
  pub is_stale : Bool
  pub is_depegged : Bool
  pub round_id : ℕ

-- `{ up, reason }` and `{ safe, reason }`
pub record Status : Type 0 where
  pub good : Bool
  pub reason : Option String

-- `toISOString` of a date, and `toFixed`
pub record Texts (N : Type 0) : Type 0 where
  pub to_iso_string : ℕ → String
  pub to_fixed : N → ℕ → String

-- `STALENESS_THRESHOLD`
abbrev pub staleness_threshold : ℕ
staleness_threshold = 86_400

-- `SEQUENCER_GRACE_PERIOD`
abbrev pub sequencer_grace_period : ℕ
sequencer_grace_period = 3600

-- the text of `now - past`
abbrev pub show_difference : ℕ → ℕ → String
show_difference now past =
    if leb past now then to_string (now - past) else "-" +++ to_string (past - now)

unfoldable pub is_sequencer_up : ℕ → Feeds → Result Status
is_sequencer_up now feeds = and_then feeds.sequencer λ round. elim round.answer [
  | pos zero ↦
      if ltb now (round.started_at + sequencer_grace_period)
      then ok (record {
        good = false;
        reason = some (
            "Base L2 sequencer recently restarted ("
            +++ show_difference now round.started_at
            +++ "s ago, grace period: 3600s)");
      })
      else ok (record { good = true; reason = none })
  | _ ↦ ok (record { good = false; reason = some "Base L2 sequencer is down" })
]

abbrev pub unsafe : String → Status
unsafe reason = record { good = false; reason = some reason }

module _ {N : Type 0} ⦃d : Double N⦄ where
  -- `DEPEG_THRESHOLD`
  abbrev pub depeg_threshold : N
  depeg_threshold = d.decimal 5 3

  -- `Number(answer)`
  abbrev pub number_of_int : ℤ → N
  number_of_int (pos n) = d.decimal n 0
  number_of_int (negsuc n) = d.sub (d.decimal 0 0) (d.decimal (suc n) 0)

  unfoldable pub get_usdc_price : ℕ → Feeds → Result (PriceFeedResult N)
  get_usdc_price now feeds = and_then feeds.usdc λ round. and_then feeds.usdc_decimals λ decimals.
      let price = d.div (number_of_int round.answer) (d.decimal (10 ^ decimals) 0) in
      ok (record {
        price = price;
        updated_at = round.updated_at;
        is_stale = ltb (round.updated_at + staleness_threshold) now;
        is_depegged = d.lt depeg_threshold (d.abs (d.sub price (d.decimal 1 0)));
        round_id = round.round_id;
      })

  -- the price, once the sequencer is up
  unfoldable pub judge_price : Texts N → PriceFeedResult N → Status
  judge_price texts data_of =
      if data_of.is_stale
      then unsafe (
          "Chainlink USDC/USD data stale (last update: "
          +++ texts.to_iso_string (data_of.updated_at * 1000)
          +++ ")")
      else if data_of.is_depegged
      then unsafe (
          "USDC depegged: $"
          +++ texts.to_fixed data_of.price 4
          +++ " ("
          +++ texts.to_fixed (d.mul (d.sub data_of.price (d.decimal 1 0)) (d.decimal 100 0)) 2
          +++ "% deviation)")
      else record { good = true; reason = none }

  -- the body of the `try`
  unfoldable pub check_feeds : Texts N → ℕ → Feeds → Result Status
  check_feeds texts now feeds = and_then (is_sequencer_up now feeds) λ status. elim status.good [
    | false ↦ ok (record { good = false; reason = status.reason })
    | true ↦ and_then (get_usdc_price now feeds) λ data_of. ok (judge_price texts data_of)
  ]

  unfoldable pub is_rebalance_safe : Texts N → ℕ → Feeds → Status
  is_rebalance_safe texts now feeds = elim (check_feeds texts now feeds) [
    | ok status ↦ status
    | err message ↦ unsafe ("Chainlink oracle error: " +++ message)
  ]
