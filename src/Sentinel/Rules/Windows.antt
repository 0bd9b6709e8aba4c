-- ===== src/Sentinel/Rules/Windows.antt =====
-- The rolling windows of the engine stay within 120 entries.
use tapioca_money.Base.{
  ℕ, ◌≤◌, ◌≡◌, refl, ◌∙◌, inl, inr, some, List, [], ◌∷◌, arith, length, Bool-cases, Option-cases,
  String, ◌==◌,
}
use tapioca_money.Base.Dict
use tapioca_money.Base.Dict.{Dict, get-set}
use tapioca_money.Base.Double.{Double}
use tapioca_money.Sentinel.Types.{number, bigint, boolean, Value, Signal, Action, ActiveIncident}
use tapioca_money.Sentinel.History.{SignalHistory, append, append-IsBounded, append-max_entries}
use tapioca_money.Sentinel.Rules.{
  Engine, key_of, time_of, window_of, append_window, evaluate_one, evaluate_from, evaluate,
}

module _ {N : Type 0} ⦃d : Double N⦄ where
  -- every window holds at most 120 entries, under the bound that `new SignalHistory()` sets
  abbrev pub WindowsBounded : Dict (SignalHistory N) → Type 0
  WindowsBounded windows =
      (k : String) (w : SignalHistory N)
      → Dict.get k windows ≡ some w
      → (length w.entries ≤ 120) × (w.max_entries ≡ 120)

  window_of-max_entries :
      (k : String) (windows : Dict (SignalHistory N))
      → WindowsBounded windows
      → (window_of k windows).max_entries ≡ 120
  window_of-max_entries k windows h = elim (Option-cases (Dict.get k windows)) [
    | inl missing ↦ ground arith
    | inr (w, found) ↦ ground (arith, h k w found)
  ]

  append-120 :
      (v : N) (t : ℕ) (w : SignalHistory N)
      → w.max_entries ≡ 120
      → (length (append v t w).entries ≤ 120) × ((append v t w).max_entries ≡ 120)
  append-120 v t w h =
      let bound = append-IsBounded v t w in
      let same = append-max_entries v t w in (omega (arith, bound, same), same ∙ h)

  -- the write of one window
  set_window-Bounded :
      (j : String) (v : N) (t : ℕ) (windows : Dict (SignalHistory N))
      → WindowsBounded windows
      → WindowsBounded (Dict.set j (append v t (window_of j windows)) windows)
  set_window-Bounded j v t windows h k w found = elim (Bool-cases (j == k)) [
    | inl same ↦
        let stored : some (append v t (window_of j windows)) ≡ some w =
          ground (arith, get-set j k (append v t (window_of j windows)) windows) in
        let bounds = append-120 v t (window_of j windows) (window_of-max_entries j windows h) in
        ground (arith, stored, bounds)
    | inr other ↦ h k w (ground (arith, get-set j k (append v t (window_of j windows)) windows))
  ]

  append_window-Bounded :
      (now : ℕ) (s : Signal N) (windows : Dict (SignalHistory N))
      → WindowsBounded windows
      → WindowsBounded (append_window now s windows)
  unfolding append_window
  append_window-Bounded now s windows h = go s.value refl
    where
      go : (value : Value N) → s.value ≡ value → WindowsBounded (append_window now s windows)
      go (number v) e =
          rw (e, append_window)
            (set_window-Bounded (key_of s) v (time_of now s.timestamp) windows h)
      go (bigint n) e = rw (e, append_window) h
      go (boolean b) e = rw (e, append_window) h

  evaluate_one-Bounded :
      (now : ℕ) (incidents : Dict ActiveIncident) (all : List (Signal N))
      (acc : Engine N × List (Action N)) (s : Signal N)
      → WindowsBounded acc.0.windows
      → WindowsBounded (evaluate_one now incidents all acc s).0.windows
  unfolding evaluate_one
  evaluate_one-Bounded now incidents all (e, actions) s h =
      elim (Bool-cases (Dict.has (key_of s) incidents)) [
        | inl active ↦ rw active h
        | inr free ↦ rw free (append_window-Bounded now s e.windows h)
      ]

  evaluate_from-Bounded :
      (now : ℕ) (incidents : Dict ActiveIncident) (all : List (Signal N))
      (acc : Engine N × List (Action N)) (signals : List (Signal N))
      → WindowsBounded acc.0.windows
      → WindowsBounded (evaluate_from now incidents all acc signals).0.windows
  unfolding evaluate_from
  evaluate_from-Bounded now incidents all acc [] h = h
  evaluate_from-Bounded now incidents all acc (s ∷ signals) h =
      evaluate_from-Bounded now incidents all (evaluate_one now incidents all acc s) signals
        (evaluate_one-Bounded now incidents all acc s h)

  -- `evaluate` keeps every rolling window within 120 entries, whatever the signals of the poll.
  pub evaluate-WindowsBounded :
      (now : ℕ) (e : Engine N) (signals : List (Signal N)) (incidents : Dict ActiveIncident)
      → WindowsBounded e.windows
      → WindowsBounded (evaluate now e signals incidents).0.windows
  unfolding evaluate
  evaluate-WindowsBounded now e signals incidents h =
      evaluate_from-Bounded now incidents signals (e, []) signals h
