-- ===== src/Sentinel/Rules/Drops.antt =====
-- The two rules on drops within a window. Their confirmation is not cleared by a quiet poll.
use tapioca_money.Base.{
  ℕ, ◌-◌, leb, ◌&&◌, ◌++◌, filter, ◌≡◌, refl, ap, ◌∙◌, ◌↔◌, inl, inr, true, false, some, List, [],
  ◌∷◌, arith, All, Option-cases,
}
use tapioca_money.Base.Dict
use tapioca_money.Base.Dict.{Dict}
use tapioca_money.Base.Double.{Double}
use tapioca_money.Sentinel.Types.{Signal, number, exit, ActionReason, Action}
use tapioca_money.Sentinel.Config.{
  tvl_drop_exit_pct, share_price_drop_pct, tvl_window_ms, share_price_window_ms,
}
use tapioca_money.Sentinel.History.{Entry, SignalHistory, values_in_range}
use tapioca_money.Sentinel.Confirm.{Buffer, confirm_consecutive}
use tapioca_money.Sentinel.Rules.{
  key_of, exit_of, last_from, ends, flow_drop, share_drop, evaluate_vault_flow,
  evaluate_share_price,
}
use tapioca_money.Sentinel.Rules.Price.{IsPending}

module _ {N : Type 0} ⦃d : Double N⦄ where
  -- of the entries of the window with the signal's key that are from the last `span` milliseconds, at
  -- least two, `first` is the first and `final` the last
  abbrev pub HasEnds : ℕ → ℕ → Dict (SignalHistory N) → Signal N → Entry N → Entry N → Type 0
  HasEnds span now windows s first final =
      (w : SignalHistory N) × (middle : List (Entry N)) × (Dict.get (key_of s) windows ≡ some w)
      × (filter (λ (e : Entry N). leb (now - span) e.timestamp && leb e.timestamp now) w.entries
          ≡ first ∷ (middle ++ final ∷ []))

  -- the fall from the first value to the last, as a share of the first, whose size is at least 1
  abbrev pub FlowDrop : ℕ → Dict (SignalHistory N) → Signal N → N → Type 0
  FlowDrop now windows s drop_pct =
      (first : Entry N) × (final : Entry N) × HasEnds tvl_window_ms now windows s first final
      × (d.lt (d.abs first.value) (d.decimal 1 0) ≡ false)
      × (drop_pct ≡ d.div (d.sub first.value final.value) (d.abs first.value))

  -- the fall from the first value, which is positive, to the last, as a share of the first
  abbrev pub ShareDrop : ℕ → Dict (SignalHistory N) → Signal N → N → Type 0
  ShareDrop now windows s drop_pct =
      (first : Entry N) × (final : Entry N) × HasEnds share_price_window_ms now windows s first
        final
      × (d.le first.value (d.decimal 0 0) ≡ false)
      × (drop_pct ≡ d.div (d.sub first.value final.value) first.value)

  last_from-append : (x y : Entry N) (xs : List (Entry N)) → last_from x (xs ++ y ∷ []) ≡ y
  last_from-append x y [] = refl
  last_from-append x y (z ∷ zs) = last_from-append z y zs

  ends-append :
      (x y : Entry N) (xs : List (Entry N)) → ends (x ∷ (xs ++ y ∷ [])) ≡ some (x.value, y.value)
  ends-append x y [] = refl
  ends-append x y (z ∷ zs) = ap (λ (e : Entry N). some (x.value, e.value)) (last_from-append z y zs)

  -- a list is its elements but the last, and the last
  split_last :
      (y : Entry N) (ys : List (Entry N))
      → (middle : List (Entry N)) × (y ∷ ys ≡ middle ++ last_from y ys ∷ [])
  split_last y [] = ([], refl)
  split_last y (z ∷ zs) = let (middle, h) = split_last z zs in (y ∷ middle, ap (λ l. y ∷ l) h)

  ends-split :
      (xs : List (Entry N)) (a b : N)
      → ends xs ≡ some (a, b)
      → (first : Entry N) × (final : Entry N) × (middle : List (Entry N)) × (xs
          ≡ first ∷ (middle ++ final ∷ []))
        × (first.value ≡ a)
        × (final.value ≡ b)
  ends-split [] a b h = absurd (ground arith)
  ends-split (x ∷ []) a b h = absurd (ground arith)
  ends-split (x ∷ y ∷ ys) a b h =
      let (middle, split) = split_last y ys in
      (x, last_from y ys, middle, ap (λ l. x ∷ l) split, ground arith, ground arith)

  -- what the rules compute is the drop
  FlowDrop-flow_drop :
      (now : ℕ) (windows : Dict (SignalHistory N)) (s : Signal N) (x : N)
      → FlowDrop now windows s x
      → (w : SignalHistory N) × (Dict.get (key_of s) windows ≡ some w)
        × (flow_drop (values_in_range (now - tvl_window_ms) now w) ≡ some x)
  unfolding flow_drop values_in_range
  FlowDrop-flow_drop now windows s x (first, final, (w, middle, found, listed), big, same) =
      (w, found, rw listed (ground (arith, ends-append first final middle, big, same)))

  flow_drop-FlowDrop :
      (now : ℕ) (windows : Dict (SignalHistory N)) (s : Signal N) (x : N) (w : SignalHistory N)
      → Dict.get (key_of s) windows ≡ some w
      → flow_drop (values_in_range (now - tvl_window_ms) now w) ≡ some x
      → FlowDrop now windows s x
  unfolding flow_drop values_in_range
  flow_drop-FlowDrop now windows s x w found measured =
      elim (Option-cases (ends (values_in_range (now - tvl_window_ms) now w))) [
        | inl few ↦ absurd (ground arith)
        | inr ((a, b), many) ↦
            let (first, final, middle, listed, p, q) =
              ends-split (values_in_range (now - tvl_window_ms) now w) a b many in
            (first, final, (w, middle, found, listed), ground arith, ground arith)
      ]

  ShareDrop-share_drop :
      (now : ℕ) (windows : Dict (SignalHistory N)) (s : Signal N) (x : N)
      → ShareDrop now windows s x
      → (w : SignalHistory N) × (Dict.get (key_of s) windows ≡ some w)
        × (share_drop (values_in_range (now - share_price_window_ms) now w) ≡ some x)
  unfolding share_drop values_in_range
  ShareDrop-share_drop now windows s x (first, final, (w, middle, found, listed), big, same) =
      (w, found, rw listed (ground (arith, ends-append first final middle, big, same)))

  share_drop-ShareDrop :
      (now : ℕ) (windows : Dict (SignalHistory N)) (s : Signal N) (x : N) (w : SignalHistory N)
      → Dict.get (key_of s) windows ≡ some w
      → share_drop (values_in_range (now - share_price_window_ms) now w) ≡ some x
      → ShareDrop now windows s x
  unfolding share_drop values_in_range
  share_drop-ShareDrop now windows s x w found measured =
      elim (Option-cases (ends (values_in_range (now - share_price_window_ms) now w))) [
        | inl few ↦ absurd (ground arith)
        | inr ((a, b), many) ↦
            let (first, final, middle, listed, p, q) =
              ends-split (values_in_range (now - share_price_window_ms) now w) a b many in
            (first, final, (w, middle, found, listed), ground arith, ground arith)
      ]

  flow_exit_only :
      (now : ℕ) (buffer : Buffer) (windows : Dict (SignalHistory N)) (s : Signal N) (a : Action N)
      → (evaluate_vault_flow now buffer windows s).0 ≡ some a
      → ((x : N) × FlowDrop now windows s x × (d.lt tvl_drop_exit_pct x ≡ true))
        × IsPending buffer s
  unfolding evaluate_vault_flow confirm_consecutive
  flow_exit_only now buffer windows s a e = elim (Option-cases (Dict.get (key_of s) windows)) [
    | inl missing ↦ absurd (ground arith)
    | inr (w, found) ↦
        elim (Option-cases (flow_drop (values_in_range (now - tvl_window_ms) now w))) [
          | inl early ↦ absurd (ground arith)
          | inr (x, measured) ↦
              ((x, flow_drop-FlowDrop now windows s x w found measured, ground arith), ground arith)
        ]
  ]

  flow_exit_if :
      (now : ℕ) (buffer : Buffer) (windows : Dict (SignalHistory N)) (s : Signal N) (x : N)
      → FlowDrop now windows s x
      → d.lt tvl_drop_exit_pct x ≡ true
      → IsPending buffer s
      → (evaluate_vault_flow now buffer windows s).0
        ≡ some (exit_of s ActionReason.bank_run (number x))
  unfolding evaluate_vault_flow confirm_consecutive
  flow_exit_if now buffer windows s x drop deep (c, p, m) =
      let (w, found, measured) = FlowDrop-flow_drop now windows s x drop in ground arith

  -- `evaluateVaultFlow` orders an exit exactly when the drop over its window is above the
  -- threshold and an earlier drop is counted under the same key.
  pub evaluate_vault_flow-exit_iff :
      (now : ℕ) (buffer : Buffer) (windows : Dict (SignalHistory N)) (s : Signal N)
      → ((a : Action N) × ((evaluate_vault_flow now buffer windows s).0 ≡ some a) × (a.type ≡ exit))
        ↔ (((x : N) × FlowDrop now windows s x × (d.lt tvl_drop_exit_pct x ≡ true))
            × IsPending buffer s)
  evaluate_vault_flow-exit_iff now buffer windows s = (
    λ h. flow_exit_only now buffer windows s h.0 h.1,
    λ h. (
      exit_of s ActionReason.bank_run (number h.0.0),
      flow_exit_if now buffer windows s h.0.0 h.0.1 h.0.2 h.1,
      refl,
    ),
  )

  share_exit_only :
      (now : ℕ) (buffer : Buffer) (windows : Dict (SignalHistory N)) (s : Signal N) (a : Action N)
      → (evaluate_share_price now buffer windows s).0 ≡ some a
      → ((x : N) × ShareDrop now windows s x × (d.lt share_price_drop_pct x ≡ true))
        × IsPending buffer s
  unfolding evaluate_share_price confirm_consecutive
  share_exit_only now buffer windows s a e = elim (Option-cases (Dict.get (key_of s) windows)) [
    | inl missing ↦ absurd (ground arith)
    | inr (w, found) ↦
        elim (Option-cases (share_drop (values_in_range (now - share_price_window_ms) now w))) [
          | inl early ↦ absurd (ground arith)
          | inr (x, measured) ↦ (
            (x, share_drop-ShareDrop now windows s x w found measured, ground arith),
            ground arith,
          )
        ]
  ]

  share_exit_if :
      (now : ℕ) (buffer : Buffer) (windows : Dict (SignalHistory N)) (s : Signal N) (x : N)
      → ShareDrop now windows s x
      → d.lt share_price_drop_pct x ≡ true
      → IsPending buffer s
      → (evaluate_share_price now buffer windows s).0
        ≡ some (exit_of s ActionReason.share_price_drop (number x))
  unfolding evaluate_share_price confirm_consecutive
  share_exit_if now buffer windows s x drop deep (c, p, m) =
      let (w, found, measured) = ShareDrop-share_drop now windows s x drop in ground arith

  -- `evaluateSharePrice` orders an exit exactly when the drop over its window is above the
  -- threshold and an earlier drop is counted under the same key.
  pub evaluate_share_price-exit_iff :
      (now : ℕ) (buffer : Buffer) (windows : Dict (SignalHistory N)) (s : Signal N)
      → ((a : Action N) × ((evaluate_share_price now buffer windows s).0 ≡ some a)
          × (a.type ≡ exit))
        ↔ (((x : N) × ShareDrop now windows s x × (d.lt share_price_drop_pct x ≡ true))
            × IsPending buffer s)
  evaluate_share_price-exit_iff now buffer windows s = (
    λ h. share_exit_only now buffer windows s h.0 h.1,
    λ h. (
      exit_of s ActionReason.share_price_drop (number h.0.0),
      share_exit_if now buffer windows s h.0.0 h.0.1 h.0.2 h.1,
      refl,
    ),
  )

  -- A poll of the flow rule that sees a drop within the threshold.
  abbrev pub IsQuiet : Signal N → ℕ × Dict (SignalHistory N) → Type 0
  IsQuiet s (now, windows) = (x : N) × FlowDrop now windows s x × (d.lt tvl_drop_exit_pct x ≡ false)

  flow_quiet :
      (buffer : Buffer) (s : Signal N) (poll : ℕ × Dict (SignalHistory N))
      → IsQuiet s poll
      → (evaluate_vault_flow poll.0 buffer poll.1 s).1 ≡ buffer
  unfolding evaluate_vault_flow
  flow_quiet buffer s (now, windows) (x, drop, small) =
      let (w, found, measured) = FlowDrop-flow_drop now windows s x drop in ground arith

  -- the buffer after a row of polls
  pub flow_polls : Buffer → Signal N → List (ℕ × Dict (SignalHistory N)) → Buffer
  flow_polls buffer s [] = buffer
  flow_polls buffer s (poll ∷ polls) =
      flow_polls (evaluate_vault_flow poll.0 buffer poll.1 s).1 s polls

  flow_polls-quiet :
      (buffer : Buffer) (s : Signal N) (polls : List (ℕ × Dict (SignalHistory N)))
      → All (IsQuiet s) polls
      → flow_polls buffer s polls ≡ buffer
  unfolding flow_polls
  flow_polls-quiet buffer s [] h = refl
  flow_polls-quiet buffer s (poll ∷ polls) (q, h) =
      ap (λ b. flow_polls b s polls) (flow_quiet buffer s poll q)
      ∙ flow_polls-quiet buffer s polls h

  -- The flow rule does not ask for consecutive polls: once a drop is counted, then after any number
  -- of polls whose drop is within the threshold, a single poll above it orders the exit.
  pub flow_exit_after_quiet :
      (buffer : Buffer) (s : Signal N) (quiet : List (ℕ × Dict (SignalHistory N))) (now : ℕ)
      (windows : Dict (SignalHistory N)) (x : N)
      → IsPending buffer s
      → All (IsQuiet s) quiet
      → FlowDrop now windows s x
      → d.lt tvl_drop_exit_pct x ≡ true
      → (evaluate_vault_flow now (flow_polls buffer s quiet) windows s).0
        ≡ some (exit_of s ActionReason.bank_run (number x))
  flow_exit_after_quiet buffer s quiet now windows x pending calm drop deep =
      rw (flow_polls-quiet buffer s quiet calm)
        (flow_exit_if now buffer windows s x drop deep pending)
