-- ===== src/Sentinel/History.antt =====
-- sentinel/types.ts, `class SignalHistory`: a rolling window of numbers, bounded in length.
use tapioca_money.Base.{
  ℕ, ◌≤◌, ◌≡◌, Bool, ◌&&◌, true, Option, List, [], ◌∷◌, ◌++◌, arith, ltb, leb, if◌then◌else◌,
  length, take_last, filter, filter-All, get_last?, length-take_last, All,
}

pub record Entry (N : Type 0) : Type 0 where
  pub value : N
  pub timestamp : ℕ

pub record SignalHistory (N : Type 0) : Type 0 where
  pub entries : List (Entry N)
  pub max_entries : ℕ

module _ {N : Type 0} where
  -- `new SignalHistory()`, with the default of 120 entries
  abbrev pub new_history : SignalHistory N
  new_history = record { entries = []; max_entries = 120 }

  unfoldable pub append : N → ℕ → SignalHistory N → SignalHistory N
  append value timestamp h =
      let pushed = h.entries ++ record { value = value; timestamp = timestamp } ∷ [] in
      record h {
        entries =
            if ltb h.max_entries (length pushed) then take_last h.max_entries pushed else pushed;
      }

  abbrev pub in_range : ℕ → ℕ → Entry N → Bool
  in_range since until e = leb since e.timestamp && leb e.timestamp until

  unfoldable pub values_in_range : ℕ → ℕ → SignalHistory N → List (Entry N)
  values_in_range since until h = filter (in_range since until) h.entries

  unfoldable pub latest : SignalHistory N → Option (Entry N)
  latest h = get_last? h.entries

  -- The window never holds more than its bound.
  abbrev pub IsBounded : SignalHistory N → Type 0
  IsBounded h = length h.entries ≤ h.max_entries

  pub append-IsBounded : (v : N) (t : ℕ) (h : SignalHistory N) → IsBounded (append v t h)
  unfolding append
  append-IsBounded v t h = ground (
    arith,
    length-take_last h.max_entries (h.entries ++ record { value = v; timestamp = t } ∷ []),
  )

  pub append-max_entries :
      (v : N) (t : ℕ) (h : SignalHistory N) → (append v t h).max_entries ≡ h.max_entries
  unfolding append
  append-max_entries v t h = ground arith

  -- An entry is returned only if its time lies in the range.
  pub values_in_range-All :
      (since until : ℕ) (h : SignalHistory N)
      → All (λ e. in_range since until e ≡ true) (values_in_range since until h)
  unfolding values_in_range
  values_in_range-All since until h = filter-All (in_range since until) h.entries
