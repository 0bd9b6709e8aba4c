-- ===== src/Sentinel/Worker/Tests.antt =====
-- A poll at concrete inputs: one signal, whose exit runs or throws.
use tapioca_money.Base.{ℕ, ◌≡◌, ◌≢◌, refl, ◌∷◌, [], arith, All, to_lower, ◌+++◌}
use tapioca_money.Base.Int.{ℤ, pos}
use tapioca_money.Base.Double.{fixed}
use tapioca_money.Base.Dict
use tapioca_money.Redis.Action.{err, pure, throw}
use tapioca_money.Sentinel.Types.{number, ActionReason, Action}
use tapioca_money.Sentinel.Confirm.{signal_key, confirm_consecutive, is_underlying_toxic}
use tapioca_money.Sentinel.History.{append}
use tapioca_money.Sentinel.Rules.{
  exit_of, evaluate, evaluate_from, evaluate_one, evaluate_signal, evaluate_price, append_window,
}
use tapioca_money.Sentinel.Rules.Dedup.{incident_key}
use tapioca_money.Sentinel.Worker.{
  Worker, Services, poll_cycle, process_action, process_actions, update_statuses,
}
use tapioca_money.Sentinel.Worker.Incidents.{AllOpened, poll_cycle-AllOpened, failed_exit-silenced}
use tapioca_money.Sentinel.Tests.{usdt_low, vault, fresh_engine}

abbrev services : Services ℤ ℕ
services = record {
  gather_signals = pure (usdt_low ∷ []);
  execute = λ _. pure [];
  send_alert = λ _ _. pure tt;
  insert_alert = λ _. pure tt;
  upsert = λ _. pure tt;
}

abbrev failing : Services ℤ ℕ
failing = record services { execute = λ _. throw "no database" }

abbrev worker : Worker ℤ ℕ
worker = record { engine = fresh_engine; incidents = []; consecutive_failures = 1; outside = 0 }

abbrev ordered : Action ℤ
ordered = exit_of ⦃d = fixed⦄ usdt_low ActionReason.depeg (number (pos 50_000))

poll_cycle-AllOpened_example :
    AllOpened ⦃d = fixed⦄ services 5_000_100
      (evaluate ⦃d = fixed⦄ 5_000_000 fresh_engine (usdt_low ∷ []) []).1
      (poll_cycle ⦃d = fixed⦄ services 5_000_000 5_000_100 5_000_200
        (vault ∷ [])
        worker).1.incidents
unfolding poll_cycle process_action process_actions update_statuses evaluate evaluate_from
    evaluate_one evaluate_signal evaluate_price append_window append confirm_consecutive
    is_underlying_toxic Dict.has Dict.get Dict.set signal_key to_lower ◌+++◌
poll_cycle-AllOpened_example =
    poll_cycle-AllOpened ⦃d = fixed⦄ services 5_000_000 5_000_100 5_000_200 (vault ∷ []) worker
      (usdt_low ∷ []) refl refl (omega arith)

failed_exit-silenced_example :
    ((process_action ⦃d = fixed⦄ failing 5_000_100 ordered worker).0 ≡ err "no database")
    × All
        (λ a. incident_key ⦃d = fixed⦄ a ≢ incident_key ⦃d = fixed⦄ ordered)
        (evaluate ⦃d = fixed⦄ 5_030_000 fresh_engine
          (usdt_low ∷ [])
          (process_action ⦃d = fixed⦄ failing 5_000_100 ordered worker).1.incidents).1
failed_exit-silenced_example =
    failed_exit-silenced ⦃d = fixed⦄ failing 5_000_100 ordered worker "no database" refl refl
      5_030_000 fresh_engine (usdt_low ∷ [])
