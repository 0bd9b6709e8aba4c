-- ===== src/Sentinel/Rules.antt =====
-- sentinel/rules-engine.ts, `class RulesEngine`. `now` is the reading of the clock for one call of
-- `evaluate`, which does not wait. The clock is past the windows, so that `-` does not stop at 0.
pub mod Price
pub mod Drops
pub mod Dedup
pub mod Windows
use tapioca_money.Base.{
  ℕ, zero, ◌-◌, String, Bool, true, false, ◌&&◌, Option, some, none, List, [], ◌∷◌, ◌++◌, nat_eq,
  ◌==◌, if◌then◌else◌, any,
}
use tapioca_money.Base.Dict
use tapioca_money.Base.Dict.{Dict}
use tapioca_money.Base.Double.{Double}
use tapioca_money.Sentinel.Types.{
  SignalType, Value, number, bigint, boolean, Signal, ActionType, exit, alert, ActionReason, Action,
  ActiveIncident,
}
use tapioca_money.Sentinel.Config.{
  depeg_exit_pct, depeg_warn_pct, tvl_drop_exit_pct, share_price_drop_pct,
  consecutive_polls_required, tvl_window_ms, share_price_window_ms,
}
use tapioca_money.Sentinel.History.{Entry, SignalHistory, new_history, append, values_in_range}
use tapioca_money.Sentinel.Confirm.{
  Buffer, confirm_consecutive, clear_confirmation, is_underlying_toxic, signal_key, last_from,
}

-- `this.confirmationBuffer`, and the windows that `evaluate` fills
pub record Engine (N : Type 0) : Type 0 where
  pub buffer : Buffer
  pub windows : Dict (SignalHistory N)

abbrev is_vault_paused : SignalType → Bool
is_vault_paused SignalType.vault_paused = true
is_vault_paused _ = false

-- `signal.timestamp || Date.now()`
abbrev time_of : ℕ → Option ℕ → ℕ
time_of now none = now
time_of now (some t) = if nat_eq t 0 then now else t

module _ {N : Type 0} ⦃d : Double N⦄ where
  abbrev pub key_of : Signal N → String
  key_of s = signal_key s.vault.address s.type

  abbrev is_true : Value N → Bool
  is_true (boolean b) = b
  is_true _ = false

  -- `value === 0 || value === 0n`
  abbrev pub is_zero : Value N → Bool
  is_zero (number v) = d.eq v (d.decimal 0 0)
  is_zero (bigint n) = nat_eq n 0
  is_zero (boolean _) = false

  -- `Math.abs(1.0 - value)`
  abbrev pub peg_delta : N → N
  peg_delta v = d.abs (d.sub (d.decimal 1 0) v)

  abbrev pub alert_of : Signal N → ActionReason → Value N → Action N
  alert_of s reason value = record {
    type = alert;
    reason = reason;
    vault_address = s.vault.address;
    protocol = none;
    signal_type = s.type;
    value = value;
  }

  abbrev pub exit_of : Signal N → ActionReason → Value N → Action N
  exit_of s reason value = record {
    type = exit;
    reason = reason;
    vault_address = s.vault.address;
    protocol = some s.vault.exposure.protocol;
    signal_type = s.type;
    value = value;
  }

  -- the action for a confirmed depeg
  abbrev depeg_action : Signal N → N → Action N
  depeg_action s delta =
      if is_underlying_toxic s.vault.address s.asset
      then alert_of s ActionReason.toxic_underlying_depeg (number delta)
      else exit_of s ActionReason.depeg (number delta)

  -- the action once `confirmConsecutive` confirms it, which clears the confirmation again
  abbrev when_confirmed : ℕ → Buffer → Signal N → Action N → Option (Action N) × Buffer
  when_confirmed now buffer s action =
      let (confirmed, counted) =
        confirm_consecutive (key_of s) consecutive_polls_required now buffer in
      if confirmed then (some action, clear_confirmation (key_of s) counted) else (none, counted)

  unfoldable pub evaluate_price : ℕ → Buffer → Signal N → Option (Action N) × Buffer
  evaluate_price now buffer s = elim s.value [
    | number v ↦
        if d.lt depeg_exit_pct (peg_delta v)
        then when_confirmed now buffer s (depeg_action s (peg_delta v))
        else if d.lt depeg_warn_pct (peg_delta v)
        then (
          some (alert_of s ActionReason.depeg_warning (number (peg_delta v))),
          clear_confirmation (key_of s) buffer,
        )
        else (none, clear_confirmation (key_of s) buffer)
    | _ ↦ (none, buffer)
  ]

  -- the first and the last of at least two entries
  abbrev pub ends : List (Entry N) → Option (N × N)
  ends [] = none
  ends (x ∷ []) = none
  ends (x ∷ y ∷ ys) = some (x.value, (last_from y ys).value)

  -- `dropPct` of `evaluateVaultFlow`; `none` where it returns early
  unfoldable pub flow_drop : List (Entry N) → Option N
  flow_drop entries = elim (ends entries) [
    | none ↦ none
    | some (earliest, last) ↦
        if d.lt (d.abs earliest) (d.decimal 1 0)
        then none
        else some (d.div (d.sub earliest last) (d.abs earliest))
  ]

  -- `dropPct` of `evaluateSharePrice`
  unfoldable pub share_drop : List (Entry N) → Option N
  share_drop entries = elim (ends entries) [
    | none ↦ none
    | some (earliest, last) ↦
        if d.le earliest (d.decimal 0 0) then none else some (d.div (d.sub earliest last) earliest)
  ]

  -- the end of both: an exit if the drop is above the threshold and confirmed
  abbrev on_drop : ℕ → Buffer → Signal N → ActionReason → N → Option N → Option (Action N) × Buffer
  on_drop now buffer s reason threshold none = (none, buffer)
  on_drop now buffer s reason threshold (some drop_pct) =
      if d.lt threshold drop_pct
      then when_confirmed now buffer s (exit_of s reason (number drop_pct))
      else (none, buffer)

  unfoldable pub evaluate_vault_flow :
      ℕ → Buffer → Dict (SignalHistory N) → Signal N → Option (Action N) × Buffer
  evaluate_vault_flow now buffer windows s = elim (Dict.get (key_of s) windows) [
    | none ↦ (none, buffer)
    | some window ↦
        on_drop now buffer s ActionReason.bank_run tvl_drop_exit_pct
          (flow_drop (values_in_range (now - tvl_window_ms) now window))
  ]

  unfoldable pub evaluate_share_price :
      ℕ → Buffer → Dict (SignalHistory N) → Signal N → Option (Action N) × Buffer
  evaluate_share_price now buffer windows s = elim (Dict.get (key_of s) windows) [
    | none ↦ (none, buffer)
    | some window ↦
        on_drop now buffer s ActionReason.share_price_drop share_price_drop_pct
          (share_drop (values_in_range (now - share_price_window_ms) now window))
  ]

  -- the `find` of a paused signal for the vault
  abbrev pub is_paused_for : String → Signal N → Bool
  is_paused_for address s =
      is_vault_paused s.type && (s.vault.address == address) && is_true s.value

  unfoldable pub evaluate_max_redeem : Signal N → List (Signal N) → Option (Action N)
  evaluate_max_redeem s all_signals =
      if is_zero s.value
      then if any (is_paused_for s.vault.address) all_signals
        then none
        else some (exit_of s ActionReason.max_redeem_zero (number (d.decimal 0 0)))
      else none

  unfoldable pub evaluate_vault_paused : Signal N → Option (Action N)
  evaluate_vault_paused s =
      if is_true s.value then some (alert_of s ActionReason.vault_paused (boolean true)) else none

  unfoldable pub evaluate_signal :
      ℕ → Engine N → List (Signal N) → Signal N → Option (Action N) × Buffer
  evaluate_signal now e all_signals s = elim s.type [
    | SignalType.dex_price ↦ evaluate_price now e.buffer s
    | SignalType.oracle_price ↦ evaluate_price now e.buffer s
    | SignalType.vault_flow ↦ evaluate_vault_flow now e.buffer e.windows s
    | SignalType.max_redeem ↦ (evaluate_max_redeem s all_signals, e.buffer)
    | SignalType.vault_paused ↦ (evaluate_vault_paused s, e.buffer)
    | SignalType.share_price ↦ evaluate_share_price now e.buffer e.windows s
  ]

  abbrev window_of : String → Dict (SignalHistory N) → SignalHistory N
  window_of key windows = elim (Dict.get key windows) [ none ↦ new_history | some w ↦ w ]

  -- only numbers are appended to the rolling window
  unfoldable pub append_window : ℕ → Signal N → Dict (SignalHistory N) → Dict (SignalHistory N)
  append_window now s windows = elim s.value [
    | number v ↦
        Dict.set (key_of s) (append v (time_of now s.timestamp) (window_of (key_of s) windows))
          windows
    | _ ↦ windows
  ]

  abbrev pub push_action : Option (Action N) → List (Action N) → List (Action N)
  push_action none actions = actions
  push_action (some a) actions = actions ++ a ∷ []

  -- one round of the loop of `evaluate`
  unfoldable pub evaluate_one :
      ℕ
      → Dict ActiveIncident
      → List (Signal N)
      → Engine N × List (Action N)
      → Signal N
      → Engine N × List (Action N)
  evaluate_one now incidents all_signals (e, actions) s =
      if Dict.has (key_of s) incidents
      then (e, actions)
      else let filled = record e { windows = append_window now s e.windows } in
        let (action, buffer) = evaluate_signal now filled all_signals s in
        (record filled { buffer = buffer }, push_action action actions)

  unfoldable pub evaluate_from :
      ℕ
      → Dict ActiveIncident
      → List (Signal N)
      → Engine N × List (Action N)
      → List (Signal N)
      → Engine N × List (Action N)
  evaluate_from now incidents all_signals acc [] = acc
  evaluate_from now incidents all_signals acc (s ∷ signals) =
      evaluate_from now incidents all_signals (evaluate_one now incidents all_signals acc s) signals

  unfoldable pub evaluate :
      ℕ → Engine N → List (Signal N) → Dict ActiveIncident → Engine N × List (Action N)
  unfolding evaluate_from
  evaluate now e signals incidents = evaluate_from now incidents signals (e, []) signals
