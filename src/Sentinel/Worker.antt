-- ===== src/Sentinel/Worker.antt =====
-- sentinel/worker.ts: the incidents and the poll cycle. The signals of a poll, the exits, the alerts
-- and the tables are parameters; the active incidents and the rules engine are the worker's state, and
-- stay as they are when a later step throws. `now` is the clock while the actions are processed.
pub mod Incidents
mod Tests
use tapioca_money.Base.{
  ℕ, ◌-◌, ◌*◌, String, ◌==◌, Bool, true, false, ◌||◌, Option, none, some, List, [], ◌∷◌, any,
  filter, find?, length, ltb, nat_eq, if◌then◌else◌,
}
use tapioca_money.Base.Double.{Double}
use tapioca_money.Base.Dict
use tapioca_money.Base.Dict.{Dict}
use tapioca_money.Redis.Action.{Result, ok, err, pure, catch, ◌>>=◌, ◌>>◌}
use tapioca_money.Redis.Action as Async
use tapioca_money.Sentinel.Types.{
  Action, ActionType, ActiveIncident, ExitResult, Protocol, Signal, SignalType, Value, number,
  VaultConfig, exit, alert,
}
use tapioca_money.Sentinel.Config.{depeg_exit_pct, depeg_warn_pct, incident_ttl_seconds}
use tapioca_money.Sentinel.Exit.{number_of}
use tapioca_money.Sentinel.Rules.{Engine, evaluate, peg_delta, is_zero}
use tapioca_money.Sentinel.Rules.Dedup.{incident_key}

-- a row of `sentinel_vault_status`
pub record VaultStatus (N : Type 0) : Type 0 where
  pub vault_address : String
  pub protocol : Protocol
  pub status : String
  pub share_price : Option N
  pub depeg_delta : Option N
  pub max_redeem_zero : Bool

-- the worker's own state, beside the `S` of what it calls
pub record Worker (N S : Type 0) : Type 0 where
  pub engine : Engine N
  pub incidents : Dict ActiveIncident
  pub consecutive_failures : ℕ
  pub outside : S

-- what the worker calls
pub record Services (N S : Type 0) : Type 0 where
  pub gather_signals : Async.Action S (List (Signal N))
  pub execute : Action N → Async.Action S (List ExitResult)
  pub send_alert : Action N → Option (List ExitResult) → Async.Action S (Unit {0})
  pub insert_alert : Action N → Async.Action S (Unit {0})
  pub upsert : VaultStatus N → Async.Action S (Unit {0})

-- a call of a service leaves the worker's own state
abbrev pub call : {N S A : Type 0} → Async.Action S A → Async.Action (Worker N S) A
call m w = let (r, s) = m w.outside in (r, record w { outside = s })

abbrev pub is_stale : ℕ → String × ActiveIncident → Bool
is_stale now (_, incident) = ltb (incident_ttl_seconds * 1000) (now - incident.created_at)

unfoldable pub cleanup_stale_incidents : ℕ → Dict ActiveIncident → Dict ActiveIncident
cleanup_stale_incidents now [] = []
cleanup_stale_incidents now (entry ∷ incidents) =
    let rest = cleanup_stale_incidents now incidents in
    if is_stale now entry then rest else entry ∷ rest

abbrev pub is_price : SignalType → Bool
is_price SignalType.dex_price = true
is_price SignalType.oracle_price = true
is_price _ = false

abbrev pub is_max_redeem : SignalType → Bool
is_max_redeem SignalType.max_redeem = true
is_max_redeem _ = false

abbrev pub is_share_price : SignalType → Bool
is_share_price SignalType.share_price = true
is_share_price _ = false

module _ {N : Type 0} ⦃d : Double N⦄ where
  -- the number of the first signal of a kind, if it is one
  abbrev pub first_number : (SignalType → Bool) → List (Signal N) → Option N
  first_number kind signals = elim (find? (λ (s : Signal N). kind s.type) signals) [
    | none ↦ none
    | some s ↦ number_of s.value
  ]

  -- `maxRedeemSignal?.value` is 0 or 0n
  abbrev pub has_zero_redeem : List (Signal N) → Bool
  has_zero_redeem signals = elim (find? (λ (s : Signal N). is_max_redeem s.type) signals) [
    | none ↦ false
    | some s ↦ is_zero s.value
  ]

  -- `depegDelta && depegDelta > threshold`; a delta of 0 is above none
  abbrev pub is_above : N → Option N → Bool
  is_above threshold none = false
  is_above threshold (some delta) = d.lt threshold delta

  abbrev pub depeg_delta_of : List (Signal N) → Option N
  depeg_delta_of signals = elim (first_number is_price signals) [
    | none ↦ none
    | some v ↦ some (peg_delta v)
  ]

  unfoldable pub derive_status : Bool → Bool → Option N → String
  derive_status has_active_incident max_redeem_zero depeg_delta =
      if has_active_incident
      then "exiting"
      else if max_redeem_zero
      then "danger"
      else if is_above depeg_exit_pct depeg_delta
      then "danger"
      else if is_above depeg_warn_pct depeg_delta
      then "warning"
      else "safe"

  -- what `upsertVaultStatus` writes
  unfoldable pub vault_status : VaultConfig → List (Signal N) → Bool → VaultStatus N
  vault_status vault signals has_active_incident =
      let of_vault = filter (λ (s : Signal N). s.vault.address == vault.address) signals in
      let delta = depeg_delta_of of_vault in
      record {
        vault_address = vault.address;
        protocol = vault.exposure.protocol;
        status = derive_status has_active_incident (has_zero_redeem of_vault) delta;
        share_price = first_number is_share_price of_vault;
        depeg_delta = delta;
        max_redeem_zero = has_zero_redeem of_vault;
      }

module _ {N S : Type 0} ⦃d : Double N⦄ (services : Services N S) where
  -- the incident that is set before the exits run
  abbrev pub open_incident : ℕ → Action N → Worker N S → Worker N S
  open_incident now action w = record w {
    incidents =
        Dict.set (incident_key action)
          (record {
            vault_address = action.vault_address;
            signal_type = action.signal_type;
            reason = action.reason;
            created_at = now;
            results = none;
          })
          w.incidents;
  }

  -- `if (incident) incident.results = results`
  abbrev pub record_results : Action N → List ExitResult → Worker N S → Worker N S
  record_results action results w = elim (Dict.get (incident_key action) w.incidents) [
    | none ↦ w
    | some incident ↦ record w {
      incidents =
          Dict.set (incident_key action) (record incident { results = some results }) w.incidents;
    }
  ]

  -- an alert goes out only if a user was affected
  abbrev pub notify : Action N → List ExitResult → Async.Action (Worker N S) (Unit {0})
  notify action [] = pure tt
  notify action (r ∷ results) = call (services.send_alert action (some (r ∷ results)))

  unfoldable pub process_action : ℕ → Action N → Async.Action (Worker N S) (Unit {0})
  process_action now action w = elim action.type [
    | exit ↦
        let (r, w') = call (services.execute action) (open_incident now action w) in
        elim r [
          | err e ↦ (err e, w')
          | ok results ↦ notify action results (record_results action results w')
        ]
    | alert ↦
        (catch (call (services.insert_alert action)) (λ _. pure tt)
            >> call (services.send_alert action none))
          w
  ]

  unfoldable pub process_actions : ℕ → List (Action N) → Async.Action (Worker N S) (Unit {0})
  process_actions now [] w = pure tt w
  process_actions now (action ∷ actions) w =
      let (r, w') = process_action now action w in
      elim r [ err e ↦ (err e, w') | ok _ ↦ process_actions now actions w' ]

  -- step 5; a failing upsert is swallowed
  unfoldable pub update_statuses : List VaultConfig → List (Signal N) → Worker N S → Worker N S
  update_statuses [] signals w = w
  update_statuses (vault ∷ vaults) signals w =
      let active = any (λ e. e.1.vault_address == vault.address) w.incidents in
      update_statuses vaults signals
        (call (services.upsert (vault_status vault signals active)) w).1

  -- `evaluated` is the clock of the rules, `now` that of the actions, `done` that of the clean-up
  unfoldable pub poll_cycle : ℕ → ℕ → ℕ → List VaultConfig → Async.Action (Worker N S) (Unit {0})
  poll_cycle evaluated now done vaults w =
      let (r, w1) = call services.gather_signals w in
      elim r [
        | err e ↦ (err e, w1)
        | ok signals ↦
            let (engine, actions) = evaluate evaluated w1.engine signals w1.incidents in
            let (q, w2) = process_actions now actions (record w1 { engine = engine }) in
            elim q [
              | err e ↦ (err e, w2)
              | ok _ ↦
                  let w3 = update_statuses vaults signals w2 in
                  (
                    ok tt,
                    record w3 {
                      incidents = cleanup_stale_incidents done w3.incidents;
                      consecutive_failures = 0;
                    },
                  )
            ]
      ]
