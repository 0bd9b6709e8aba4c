-- ===== src/Sentinel/Rules/Dedup.antt =====
-- The loop of `evaluate`: an active incident silences its key, and the windows stay bounded.
use tapioca_money.Base.{
  ℕ, ◌≡◌, refl, ap, ◌∙◌, inl, inr, false, Option, some, none, List, [], ◌∷◌, arith, All, All-append,
  Bool-cases, String,
}
use tapioca_money.Base.Dict
use tapioca_money.Base.Dict.{Dict, get-set}
use tapioca_money.Base.Double.{Double}
use tapioca_money.Sentinel.Types.{Signal, Action, ActiveIncident}
use tapioca_money.Sentinel.Confirm.{signal_key}
use tapioca_money.Sentinel.Rules.{
  Engine, key_of, evaluate_price, evaluate_vault_flow, evaluate_share_price, evaluate_max_redeem,
  evaluate_vault_paused, evaluate_signal, push_action, evaluate_one, evaluate_from, evaluate,
}

module _ {N : Type 0} ⦃d : Double N⦄ where
  -- `incidentKey(action)` of the worker
  abbrev pub incident_key : Action N → String
  incident_key a = signal_key a.vault_address a.signal_type

  -- Whatever rule speaks, its action bears the key of its signal.
  action_key :
      (now : ℕ) (e : Engine N) (all : List (Signal N)) (s : Signal N) (a : Action N)
      → (evaluate_signal now e all s).0 ≡ some a
      → incident_key a ≡ key_of s
  unfolding evaluate_signal evaluate_price evaluate_vault_flow evaluate_share_price
      evaluate_max_redeem evaluate_vault_paused
  action_key now e all s a h = ground arith

  abbrev IsFree : Dict ActiveIncident → Action N → Type 0
  IsFree incidents a = Dict.has (incident_key a) incidents ≡ false

  push_action-All :
      (P : Action N → Type 0) (o : Option (Action N)) (actions : List (Action N))
      → All P actions
      → ((a : Action N) → o ≡ some a → P a)
      → All P (push_action o actions)
  push_action-All P none actions h k = h
  push_action-All P (some a) actions h k = All-append P actions (a ∷ []) h (k a refl, tt)

  evaluate_one-IsFree :
      (now : ℕ) (incidents : Dict ActiveIncident) (all : List (Signal N))
      (acc : Engine N × List (Action N)) (s : Signal N)
      → All (IsFree incidents) acc.1
      → All (IsFree incidents) (evaluate_one now incidents all acc s).1
  unfolding evaluate_one
  evaluate_one-IsFree now incidents all (e, actions) s h =
      elim (Bool-cases (Dict.has (key_of s) incidents)) [
        | inl active ↦ rw active h
        | inr free ↦ rw free (
            push_action-All (IsFree incidents) _ actions h
              (λ a made. ap (λ k. Dict.has k incidents) (action_key now _ all s a made) ∙ free))
      ]

  evaluate_from-IsFree :
      (now : ℕ) (incidents : Dict ActiveIncident) (all : List (Signal N))
      (acc : Engine N × List (Action N)) (signals : List (Signal N))
      → All (IsFree incidents) acc.1
      → All (IsFree incidents) (evaluate_from now incidents all acc signals).1
  unfolding evaluate_from
  evaluate_from-IsFree now incidents all acc [] h = h
  evaluate_from-IsFree now incidents all acc (s ∷ signals) h =
      evaluate_from-IsFree now incidents all (evaluate_one now incidents all acc s) signals
        (evaluate_one-IsFree now incidents all acc s h)

  -- No action that `evaluate` returns bears the key of an active incident.
  pub evaluate-IsFree :
      (now : ℕ) (e : Engine N) (signals : List (Signal N)) (incidents : Dict ActiveIncident)
      → All (λ a. Dict.has (incident_key a) incidents ≡ false) (evaluate now e signals incidents).1
  unfolding evaluate
  evaluate-IsFree now e signals incidents =
      evaluate_from-IsFree now incidents signals (e, []) signals tt
