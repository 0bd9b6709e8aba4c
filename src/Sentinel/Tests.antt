-- ===== src/Sentinel/Tests.antt =====
-- The sentinel at concrete inputs: the rules, in fixed-point numbers.
use tapioca_money.Base.{
  ◌≤◌, length, String, ◌≡◌, refl, ◌↔◌, true, false, Option, some, none, [], ◌∷◌, All, arith,
  to_lower, ◌+++◌,
}
use tapioca_money.Base.Int.{ℤ, pos}
use tapioca_money.Base.Double.{fixed}
use tapioca_money.Base.Dict
use tapioca_money.Base.Dict.{Dict}
use tapioca_money.Sentinel.Types.{
  SignalType, SignalSource, Signal, number, VaultConfig, Protocol, Action, ActionReason, exit,
  ActiveIncident,
}
use tapioca_money.Sentinel.Config.{tvl_drop_exit_pct}
use tapioca_money.Sentinel.History.{SignalHistory, values_in_range, append}
use tapioca_money.Sentinel.Confirm.{signal_key, Buffer, is_underlying_toxic, confirm_consecutive}
use tapioca_money.Sentinel.Rules.{
  evaluate_from, evaluate_one, evaluate_signal, append_window, Engine, key_of, exit_of,
  evaluate_price, evaluate_vault_flow, evaluate, flow_drop,
}
use tapioca_money.Sentinel.Rules.Price.{
  IsOffPeg, IsPending, evaluate_price-exit_iff, evaluate_price-consecutive,
}
use tapioca_money.Sentinel.Rules.Drops.{
  FlowDrop, flow_polls, evaluate_vault_flow-exit_iff, flow_exit_after_quiet,
}
use tapioca_money.Sentinel.Rules.Dedup.{incident_key, evaluate-IsFree}
use tapioca_money.Sentinel.Rules.Windows.{WindowsBounded, evaluate-WindowsBounded}

abbrev pub vault : VaultConfig
vault = record {
  address = "0xc1256Ae5FF1cf2719D4937adb3bbCCab2E00A2Ca";
  exposure = record {
    protocol = Protocol.morpho;
    underlying = "USDC";
    underlying_decimals = 6;
    chainlink_feed = none;
    dex_pools = [];
  };
}

abbrev pub signal : SignalType → Option String → ℤ → Signal ℤ
signal type asset value = record {
  type = type;
  vault = vault;
  asset = asset;
  value = number value;
  timestamp = some 5_000_000;
  source = SignalSource.ponder;
}

-- USDT at 0.95
abbrev pub usdt_low : Signal ℤ
usdt_low = signal SignalType.dex_price (some "USDT") (pos 950_000)

-- USDC, the vault's own asset, at 0.95
abbrev usdc_low : Signal ℤ
usdc_low = signal SignalType.dex_price (some "USDC") (pos 950_000)

abbrev pub counted_once : Signal ℤ → Buffer
counted_once s = (key_of ⦃d = fixed⦄ s, record { count = 1; first_seen = 4_000_000 }) ∷ []

abbrev off_peg : IsOffPeg ⦃d = fixed⦄ usdt_low
off_peg = (pos 950_000, refl, refl)

abbrev flow : Signal ℤ
flow = signal SignalType.vault_flow none (pos 0)

abbrev share : Signal ℤ
share = signal SignalType.share_price none (pos 0)

-- a fall from 100 to `last`
abbrev fall_to : Signal ℤ → ℤ → Dict (SignalHistory ℤ)
fall_to s last =
    (
      key_of ⦃d = fixed⦄ s,
      record {
        entries =
            record { value = pos 100_000_000; timestamp = 4_900_000 }
            ∷ record { value = last; timestamp = 4_950_000 }
            ∷ [];
        max_entries = 120;
      },
    )
    ∷ []

-- The first poll off the peg counts, the second orders the exit.
two_polls :
    (evaluate_price ⦃d = fixed⦄ 5_000_000
      (evaluate_price ⦃d = fixed⦄ 4_990_000 [] usdt_low).1
      usdt_low).0
    ≡ some (exit_of ⦃d = fixed⦄ usdt_low ActionReason.depeg (number (pos 50_000)))
unfolding evaluate_price confirm_consecutive is_underlying_toxic Dict.get Dict.set signal_key
    to_lower ◌+++◌
two_polls = refl

evaluate_price-exit_iff_example :
    ((a : Action ℤ) × ((evaluate_price ⦃d = fixed⦄ 5_000_000 (counted_once usdt_low) usdt_low).0
        ≡ some a)
      × (a.type ≡ exit))
    ↔ (IsOffPeg ⦃d = fixed⦄ usdt_low
        × IsPending ⦃d = fixed⦄ (counted_once usdt_low) usdt_low
        × (is_underlying_toxic usdt_low.vault.address usdt_low.asset ≡ false))
evaluate_price-exit_iff_example =
    evaluate_price-exit_iff ⦃d = fixed⦄ 5_000_000 (counted_once usdt_low) usdt_low

evaluate_price-consecutive_example : IsOffPeg ⦃d = fixed⦄ usdt_low
unfolding evaluate_price confirm_consecutive is_underlying_toxic Dict.get Dict.set signal_key
    to_lower ◌+++◌
evaluate_price-consecutive_example =
    evaluate_price-consecutive ⦃d = fixed⦄ 4_990_000 5_000_000 [] usdt_low usdt_low (pos 950_000)
      (exit_of ⦃d = fixed⦄ usdt_low ActionReason.depeg (number (pos 50_000))) refl refl refl refl

evaluate_vault_flow-exit_iff_example :
    ((a : Action ℤ) × ((evaluate_vault_flow ⦃d = fixed⦄ 5_000_000
          (counted_once flow)
          (fall_to flow (pos 80_000_000))
          flow).0
        ≡ some a)
      × (a.type ≡ exit))
    ↔ (((x : ℤ) × FlowDrop ⦃d = fixed⦄ 5_000_000 (fall_to flow (pos 80_000_000)) flow x
          × (fixed.lt (tvl_drop_exit_pct ⦃d = fixed⦄) x ≡ true))
        × IsPending ⦃d = fixed⦄ (counted_once flow) flow)
evaluate_vault_flow-exit_iff_example =
    evaluate_vault_flow-exit_iff ⦃d = fixed⦄ 5_000_000 (counted_once flow)
      (fall_to flow (pos 80_000_000)) flow

-- one drop was counted; then a poll with a fall of 1%; then one with a fall of 20%
flow_exit_after_quiet_example :
    (evaluate_vault_flow ⦃d = fixed⦄ 5_000_000
      (flow_polls ⦃d = fixed⦄
        (counted_once flow)
        flow
        ((4_980_000, fall_to flow (pos 99_000_000)) ∷ []))
      (fall_to flow (pos 80_000_000))
      flow).0
    ≡ some (exit_of ⦃d = fixed⦄ flow ActionReason.bank_run (number (pos 200_000)))
unfolding Dict.get flow_drop values_in_range signal_key to_lower ◌+++◌
flow_exit_after_quiet_example =
    flow_exit_after_quiet ⦃d = fixed⦄ (counted_once flow) flow
      ((4_980_000, fall_to flow (pos 99_000_000)) ∷ []) 5_000_000 (fall_to flow (pos 80_000_000))
      (pos 200_000) (record { count = 1; first_seen = 4_000_000 }, refl, omega arith)
      ((pos 10_000, (_, _, (_, [], refl, refl), refl, refl), refl), tt)
      (_, _, (_, [], refl, refl), refl, refl) refl

abbrev pub fresh_engine : Engine ℤ
fresh_engine = record { buffer = counted_once usdt_low; windows = [] }

-- an active incident for the key of `usdt_low`
abbrev incidents : Dict ActiveIncident
incidents =
    (
      key_of ⦃d = fixed⦄ usdt_low,
      record {
        vault_address = vault.address;
        signal_type = SignalType.dex_price;
        reason = ActionReason.depeg;
        created_at = 4_000_000;
        results = none;
      },
    )
    ∷ []

evaluate-IsFree_example :
    All
      (λ a. Dict.has (incident_key ⦃d = fixed⦄ a) incidents ≡ false)
      (evaluate ⦃d = fixed⦄ 5_000_000 fresh_engine (usdt_low ∷ flow ∷ []) incidents).1
evaluate-IsFree_example =
    evaluate-IsFree ⦃d = fixed⦄ 5_000_000 fresh_engine (usdt_low ∷ flow ∷ []) incidents

no_windows : WindowsBounded ⦃d = fixed⦄ []
unfolding Dict.get signal_key to_lower ◌+++◌
no_windows k w found = ground arith

-- the window that the poll opens
abbrev opened : SignalHistory ℤ
opened = record {
  entries = record { value = pos 950_000; timestamp = 5_000_000 } ∷ [];
  max_entries = 120;
}

evaluate-WindowsBounded_example : (length opened.entries ≤ 120) × (opened.max_entries ≡ 120)
unfolding evaluate evaluate_from evaluate_one evaluate_signal append_window append evaluate_price
    confirm_consecutive is_underlying_toxic Dict.has Dict.get Dict.set signal_key to_lower ◌+++◌
evaluate-WindowsBounded_example =
    evaluate-WindowsBounded ⦃d = fixed⦄ 5_000_000 fresh_engine (usdt_low ∷ []) [] no_windows
      (key_of ⦃d = fixed⦄ usdt_low) opened refl
