-- ===== src/Sentinel/Worker/Incidents.antt =====
-- The incidents of the poll cycle: an EXIT opens one before its exits run, it stays through the poll,
-- and it silences its key, even where the exits have thrown.
use tapioca_money.Base.{
  ℕ, ◌+◌, ◌*◌, ◌≤◌, String, ◌==◌, ◌≡◌, ◌≢◌, refl, ap, sym, inl, inr, Bool, true, false, some, List,
  [], ◌∷◌, arith, subst, ◌⊎◌, All, All-imp, All-filter_cons, filter, Bool-cases,
}
use tapioca_money.Base.Double.{Double}
use tapioca_money.Base.Dict
use tapioca_money.Base.Dict.{Dict, get-set, get-set_self}
use tapioca_money.Redis.Action.{ok, err, Result-cases}
use tapioca_money.Sentinel.Types.{
  Action, ActionType, ActiveIncident, ExitResult, Signal, VaultConfig, exit, alert,
}
use tapioca_money.Sentinel.Rules.{Engine, evaluate}
use tapioca_money.Sentinel.Rules.Dedup.{incident_key, evaluate-IsFree}
use tapioca_money.Sentinel.Worker.{
  Worker, Services, call, cleanup_stale_incidents, open_incident, record_results, notify,
  process_action, process_actions, update_statuses, poll_cycle,
}

-- an incident that was opened at `now` stands under the key
abbrev pub IsOpened : String → ℕ → Dict ActiveIncident → Type 0
IsOpened k now incidents =
    (i : ActiveIncident) × (Dict.get k incidents ≡ some i) × (i.created_at ≡ now)

set-IsOpened :
    (k j : String) (now : ℕ) (i : ActiveIncident) (incidents : Dict ActiveIncident)
    → i.created_at ≡ now
    → IsOpened k now incidents
    → IsOpened k now (Dict.set j i incidents)
set-IsOpened k j now i incidents fresh (old, found, same) = elim (Bool-cases (j == k)) [
  | inl here ↦ (i, ground (arith, get-set j k i incidents), fresh)
  | inr apart ↦ (old, ground (arith, get-set j k i incidents), same)
]

-- A clean-up within the time to live leaves it.
cleanup-keeps :
    (k : String) (now done : ℕ) (i : ActiveIncident) (incidents : Dict ActiveIncident)
    → done ≤ now + 3600 * 1000
    → Dict.get k incidents ≡ some i
    → i.created_at ≡ now
    → Dict.get k (cleanup_stale_incidents done incidents) ≡ some i
unfolding cleanup_stale_incidents Dict.get
cleanup-keeps k now done i [] soon found fresh = absurd (ground arith)
cleanup-keeps k now done i ((j, x) ∷ incidents) soon found fresh =
    ground (arith, cleanup-keeps k now done i incidents soon)

abbrev pub is_exit : ActionType → Bool
is_exit exit = true
is_exit alert = false

has_free :
    (k j : String) (i : ActiveIncident) (incidents : Dict ActiveIncident)
    → Dict.get j incidents ≡ some i
    → Dict.has k incidents ≡ false
    → k ≢ j
unfolding Dict.has
has_free k j i incidents found free same =
    absurd (ground (arith, found, ap (λ x. Dict.get x incidents) same))

module _ {N S : Type 0} ⦃d : Double N⦄ (services : Services N S) where
  record_results-IsOpened :
      (k : String) (now : ℕ) (action : Action N) (results : List ExitResult) (w : Worker N S)
      → IsOpened (incident_key action) now w.incidents
      → IsOpened k now w.incidents
      → IsOpened k now (record_results services action results w).incidents
  record_results-IsOpened k now action results w (i, found, fresh) opened =
      let updated : ActiveIncident = record i { results = some results } in
      rw (found, record_results)
        (set-IsOpened k (incident_key action) now updated w.incidents fresh opened)

  notify-incidents :
      (action : Action N) (results : List ExitResult) (w : Worker N S)
      → (notify services action results w).1.incidents ≡ w.incidents
  notify-incidents action [] w = refl
  notify-incidents action (r ∷ results) w = refl

  -- once the incident of an EXIT is open, what follows leaves it open
  exit-IsOpened :
      (k : String) (now : ℕ) (action : Action N) (w : Worker N S)
      → action.type ≡ exit
      → IsOpened (incident_key action) now (open_incident services now action w).incidents
      → IsOpened k now (open_incident services now action w).incidents
      → IsOpened k now (process_action services now action w).1.incidents
  unfolding process_action
  exit-IsOpened k now action w is mine opened =
      let opened_w = open_incident services now action w in
      let after : Worker N S = (call (services.execute action) opened_w).1 in
      elim (Result-cases (call (services.execute action) opened_w).0) [
        | inr (e, threw) ↦
            let same : (process_action services now action w).1.incidents ≡ opened_w.incidents =
              ground arith in
            subst (λ x. IsOpened k now x) (sym same) opened
        | inl (results, made) ↦
            let told =
              notify-incidents action results (record_results services action results after) in
            let same : (process_action services now action w).1.incidents
                ≡ (record_results services action results after).incidents =
              ground (arith, told) in
            subst (λ x. IsOpened k now x) (sym same)
              (record_results-IsOpened k now action results after mine opened)
      ]

  alert-incidents :
      (now : ℕ) (action : Action N) (w : Worker N S)
      → action.type ≡ alert
      → (process_action services now action w).1.incidents ≡ w.incidents
  unfolding process_action
  alert-incidents now action w is = ground arith

  opens :
      (now : ℕ) (action : Action N) (w : Worker N S)
      → IsOpened (incident_key action) now (open_incident services now action w).incidents
  opens now action w = (_, get-set_self (incident_key action) _ w.incidents, refl)

  ActionType-cases : (t : ActionType) → (t ≡ exit) ⊎ (t ≡ alert)
  ActionType-cases exit = inl refl
  ActionType-cases alert = inr refl

  process_action-keeps :
      (k : String) (now : ℕ) (action : Action N) (w : Worker N S)
      → IsOpened k now w.incidents
      → IsOpened k now (process_action services now action w).1.incidents
  process_action-keeps k now action w opened = elim (ActionType-cases action.type) [
    | inl is ↦
        exit-IsOpened k now action w is (opens now action w)
          (set-IsOpened k (incident_key action) now _ w.incidents refl opened)
    | inr is ↦ subst (λ x. IsOpened k now x) (sym (alert-incidents now action w is)) opened
  ]

  process_actions-keeps :
      (k : String) (now : ℕ) (actions : List (Action N)) (w : Worker N S)
      → IsOpened k now w.incidents
      → IsOpened k now (process_actions services now actions w).1.incidents
  unfolding process_actions
  process_actions-keeps k now [] w opened = opened
  process_actions-keeps k now (action ∷ actions) w opened =
      let ran = process_action services now action w in
      let kept = process_action-keeps k now action w opened in
      elim (Result-cases ran.0) [
        | inr (e, threw) ↦ rw (threw, process_actions) kept
        | inl (_, made) ↦
            rw (made, process_actions) (process_actions-keeps k now actions ran.1 kept)
      ]

  -- every EXIT among the actions has its incident
  abbrev pub AllOpened : ℕ → List (Action N) → Dict ActiveIncident → Type 0
  AllOpened now actions incidents =
      All (λ a. IsOpened (incident_key a) now incidents)
        (filter (λ (a : Action N). is_exit a.type) actions)

  process_actions-AllOpened :
      (now : ℕ) (actions : List (Action N)) (w : Worker N S)
      → (process_actions services now actions w).0 ≡ ok tt
      → AllOpened now actions (process_actions services now actions w).1.incidents
  unfolding process_actions
  process_actions-AllOpened now [] w h = tt
  process_actions-AllOpened now (action ∷ actions) w h =
      let ran = process_action services now action w in
      elim (Result-cases ran.0) [
        | inr (e, threw) ↦ absurd (ground arith)
        | inl (_, made) ↦
            let rest : AllOpened now actions
                (process_actions services now actions ran.1).1.incidents =
              process_actions-AllOpened now actions ran.1 (ground arith) in
            let mine = opens now action w in
            rw (made, process_actions)
              (All-filter_cons
                (λ a.
                  IsOpened (incident_key a) now
                    (process_actions services now actions ran.1).1.incidents)
                (λ (a : Action N). is_exit a.type) action actions
                (λ is.
                  process_actions-keeps (incident_key action) now actions ran.1
                    (exit-IsOpened (incident_key action) now action w (ground arith) mine mine))
                rest)
      ]

  update_statuses-incidents :
      (vaults : List VaultConfig) (signals : List (Signal N)) (w : Worker N S)
      → (update_statuses services vaults signals w).incidents ≡ w.incidents
  unfolding update_statuses
  update_statuses-incidents [] signals w = refl
  update_statuses-incidents (vault ∷ vaults) signals w = update_statuses-incidents vaults signals _

  cleanup-IsOpened :
      (k : String) (now done : ℕ) (incidents : Dict ActiveIncident)
      → done ≤ now + 3600 * 1000
      → IsOpened k now incidents
      → IsOpened k now (cleanup_stale_incidents done incidents)
  cleanup-IsOpened k now done incidents soon (i, found, fresh) =
      (i, cleanup-keeps k now done i incidents soon found fresh, fresh)

  -- A poll that ends without an error, with its clean-up within an hour of its actions: every EXIT that
  -- the rules ordered in it has its incident, opened in this poll, among the incidents that it leaves.
  pub poll_cycle-AllOpened :
      (evaluated now done : ℕ) (vaults : List VaultConfig) (w : Worker N S)
      (signals : List (Signal N))
      → (services.gather_signals w.outside).0 ≡ ok signals
      → (poll_cycle services evaluated now done vaults w).0 ≡ ok tt
      → done ≤ now + 3600 * 1000
      → AllOpened now
          (evaluate evaluated w.engine signals w.incidents).1
          (poll_cycle services evaluated now done vaults w).1.incidents
  unfolding poll_cycle
  poll_cycle-AllOpened evaluated now done vaults w signals gathered ended soon =
      let w1 : Worker N S = (call services.gather_signals w).1 in
      let (engine, actions) = evaluate evaluated w.engine signals w.incidents in
      let started : Worker N S = record w1 { engine = engine } in
      let ran = process_actions services now actions started in
      elim (Result-cases ran.0) [
        | inr (e, threw) ↦ absurd (ground arith)
        | inl (tt, made) ↦
            let kept = update_statuses-incidents vaults signals ran.1 in
            let same : (poll_cycle services evaluated now done vaults w).1.incidents
                ≡ cleanup_stale_incidents done ran.1.incidents =
              ground (arith, kept) in
            subst (λ x. AllOpened now actions x) (sym same)
              (All-imp (filter (λ (a : Action N). is_exit a.type) actions)
                (λ a p. cleanup-IsOpened (incident_key a) now done ran.1.incidents soon p)
                (process_actions-AllOpened now actions started made))
      ]

  -- An EXIT whose exits have thrown, as when the users cannot be read: the poll's step throws, the
  -- incident stays, and while it stays no evaluation orders anything under its key.
  pub failed_exit-silenced :
      (now : ℕ) (action : Action N) (w : Worker N S) (e : String)
      → action.type ≡ exit
      → (services.execute action w.outside).0 ≡ err e
      → (later : ℕ) (engine : Engine N) (signals : List (Signal N))
      → let (r, w') = process_action services now action w in
        (r ≡ err e)
        × All
            (λ a. incident_key a ≢ incident_key action)
            (evaluate later engine signals w'.incidents).1
  unfolding process_action
  failed_exit-silenced now action w e is threw later engine signals =
      let w' : Worker N S = (process_action services now action w).1 in
      let (i, found, _) =
        exit-IsOpened (incident_key action) now action w is (opens now action w)
          (opens now action w) in
      (
        ground arith,
        All-imp (evaluate later engine signals w'.incidents).1
            (λ a free same.
              has_free (incident_key a) (incident_key action) i w'.incidents found free same)
            (evaluate-IsFree later engine signals w'.incidents),
      )
