-- ===== src/Sentinel/Rules/Price.antt =====
-- What `evaluatePrice` decides: the confirmation over consecutive polls, and the toxic underlying.
use tapioca_money.Base.{
  ℕ, ◌≤◌, ◌≡◌, refl, ap, ◌↔◌, inl, inr, true, false, some, none, arith, Bool-cases,
}
use tapioca_money.Base.Dict
use tapioca_money.Base.Dict.{
  get-set, get-set_self, get-delete, get-delete_self, get-delete_ne, get-set_ne,
}
use tapioca_money.Base.Double.{Double}
use tapioca_money.Sentinel.Types.{number, Signal, exit, ActionReason, Action}
use tapioca_money.Sentinel.Config.{depeg_exit_pct}
use tapioca_money.Sentinel.Confirm.{
  ConfirmationEntry, Buffer, confirm_consecutive, clear_confirmation, is_underlying_toxic,
}
use tapioca_money.Sentinel.Rules.{key_of, peg_delta, exit_of, alert_of, evaluate_price}

module _ {N : Type 0} ⦃d : Double N⦄ where
  -- the price is off its peg by more than the exit threshold
  abbrev pub IsOffPeg : Signal N → Type 0
  IsOffPeg s = (v : N) × (s.value ≡ number v) × (d.lt depeg_exit_pct (peg_delta v) ≡ true)

  -- an earlier poll stands confirmed under the key
  abbrev pub IsPending : Buffer → Signal N → Type 0
  IsPending buffer s =
      (e : ConfirmationEntry) × (Dict.get (key_of s) buffer ≡ some e) × (1 ≤ e.count)

  price_exit_only :
      (now : ℕ) (buffer : Buffer) (s : Signal N) (a : Action N)
      → (evaluate_price now buffer s).0 ≡ some a
      → a.type ≡ exit
      → IsOffPeg s × IsPending buffer s × (is_underlying_toxic s.vault.address s.asset ≡ false)
  unfolding evaluate_price confirm_consecutive
  price_exit_only now buffer s a e x = ground arith

  price_exit_if :
      (now : ℕ) (buffer : Buffer) (s : Signal N)
      → (off : IsOffPeg s) → IsPending buffer s
      → is_underlying_toxic s.vault.address s.asset ≡ false
      → (evaluate_price now buffer s).0
        ≡ some (exit_of s ActionReason.depeg (number (peg_delta off.0)))
  unfolding evaluate_price confirm_consecutive
  price_exit_if now buffer s (v, e, off) (c, p, m) t = ground arith

  -- `evaluatePrice` orders an exit exactly when the price is off its peg, an earlier poll is counted
  -- under the same key, and the vault's underlying is not the depegging asset.
  pub evaluate_price-exit_iff :
      (now : ℕ) (buffer : Buffer) (s : Signal N)
      → ((a : Action N) × ((evaluate_price now buffer s).0 ≡ some a) × (a.type ≡ exit))
        ↔ (IsOffPeg s × IsPending buffer s × (is_underlying_toxic s.vault.address s.asset ≡ false))
  evaluate_price-exit_iff now buffer s = (
    λ h. price_exit_only now buffer s h.0 h.1 h.2,
    λ h. (
      exit_of s ActionReason.depeg (number (peg_delta h.0.0)),
      price_exit_if now buffer s h.0 h.1 h.2,
      refl,
    ),
  )

  -- After a poll whose price is a number within the exit threshold nothing is counted under its key.
  price_resets :
      (now : ℕ) (buffer : Buffer) (s : Signal N) (v : N)
      → s.value ≡ number v
      → d.lt depeg_exit_pct (peg_delta v) ≡ false
      → Dict.get (key_of s) (evaluate_price now buffer s).1 ≡ none
  unfolding evaluate_price clear_confirmation
  price_resets now buffer s v e near = ground (arith, get-delete_self (key_of s) buffer)

  -- Of two polls under one key, whatever was counted before: if the second orders an exit, and the
  -- first gave a number, then the first was off the peg too.
  pub evaluate_price-consecutive :
      (t u : ℕ) (buffer : Buffer) (first second : Signal N) (v : N) (a : Action N)
      → first.value ≡ number v
      → key_of second ≡ key_of first
      → (evaluate_price u (evaluate_price t buffer first).1 second).0 ≡ some a
      → a.type ≡ exit
      → IsOffPeg first
  evaluate_price-consecutive t u buffer first second v a e same ordered x =
      elim (Bool-cases (d.lt depeg_exit_pct (peg_delta v))) [
        | inl far ↦ (v, e, far)
        | inr near ↦
            let (_, pending, _) =
              price_exit_only u (evaluate_price t buffer first).1 second a ordered x in
            let (c, found, _) = pending in
            let lost = price_resets t buffer first v e near in
            absurd (
              ground
                (arith, found, lost, ap (λ k. Dict.get k (evaluate_price t buffer first).1) same))
      ]

  -- A confirmed depeg of the vault's own underlying is an alert: the exit would pay the bad asset out.
  pub evaluate_price-toxic :
      (now : ℕ) (buffer : Buffer) (s : Signal N) (off : IsOffPeg s)
      → IsPending buffer s
      → is_underlying_toxic s.vault.address s.asset ≡ true
      → (evaluate_price now buffer s).0
        ≡ some (alert_of s ActionReason.toxic_underlying_depeg (number (peg_delta off.0)))
  unfolding evaluate_price confirm_consecutive
  evaluate_price-toxic now buffer s (v, e, off) (c, p, m) toxic = ground arith
