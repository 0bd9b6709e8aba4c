-- ===== src/Sentinel/Exit/Attempts.antt =====
-- The loop of redeems: it ends without an error, calls the executor at most once per attempt, and
-- gives a hash only after a redeem that returned it.
use tapioca_money.Base.{
  ℕ, zero, suc, ◌+◌, ◌≤◌, String, ◌≡◌, ◌⊎◌, subst, refl, inl, inr, true, false, Option, some, none,
  arith, Bool-cases,
}
use tapioca_money.Base.Double.{Double}
use tapioca_money.Redis.Action.{Result, ok, err, Result-cases}
use tapioca_money.Sentinel.Types.{Action}
use tapioca_money.Sentinel.Exit.{
  World, UserPosition, TxResult, attempt_redeem, protocol_of, or_default,
}

module _ {S N Auth Ctx : Type 0} ⦃d : Double N⦄ (w : World S N Auth Ctx)
    (position : UserPosition Auth) (action : Action N) (ctx : Ctx) where
  -- a redeem from the store `s`
  abbrev redeemed : S → Result TxResult × S
  redeemed s = w.redeem (protocol_of w action) ctx action.vault_address position.shares s

  -- a redeem from the store `s` that threw or returned a failure
  abbrev pub HasFailed : S → Type 0
  HasFailed s =
      ((e : String) × ((redeemed s).0 ≡ err e))
      ⊎ ((tx : TxResult) × ((redeemed s).0 ≡ ok tx) × (tx.success ≡ false))

  -- of at most `n` redeems, each from the store that the one before has left, the last succeeds with the
  -- hash and leaves `after`, and those before it fail
  abbrev pub HasRedeemed : ℕ → S → String → S → Type 0
  HasRedeemed zero s hash after = ⊥
  HasRedeemed (suc n) s hash after =
      ((tx : TxResult) × ((redeemed s).0 ≡ ok tx)
        × (tx.success ≡ true)
        × (tx.tx_hash ≡ some hash)
        × ((redeemed s).1 ≡ after))
      ⊎ (HasFailed s × HasRedeemed n (redeemed s).1 hash after)

  pub attempt_redeem-ok :
      (n : ℕ) (last : Option String) (s : S)
      → (p : Option String × Option String) × ((attempt_redeem w position action ctx n last s).0
          ≡ ok p)
  unfolding attempt_redeem
  attempt_redeem-ok zero last s = ((none, last), refl)
  attempt_redeem-ok (suc n) last s =
      let after = (redeemed s).1 in
      elim (Result-cases (redeemed s).0) [
        | inr (e, failed) ↦
            let (p, h) = attempt_redeem-ok n (some e) after in (p, ground (arith, h))
        | inl (tx, returned) ↦ elim (Bool-cases tx.success) [
          | inl good ↦ ((tx.tx_hash, last), ground arith)
          | inr bad ↦
              let (p, h) =
                attempt_redeem-ok n (some (or_default tx.error "Redeem returned failure")) after in
              (p, ground (arith, h))
        ]
      ]

  pub attempt_redeem-HasRedeemed :
      (n : ℕ) (last : Option String) (s : S) (hash : String) (e : Option String)
      → (attempt_redeem w position action ctx n last s).0 ≡ ok (some hash, e)
      → HasRedeemed n s hash (attempt_redeem w position action ctx n last s).1
  unfolding attempt_redeem
  attempt_redeem-HasRedeemed zero last s hash e h = absurd (ground arith)
  attempt_redeem-HasRedeemed (suc n) last s hash e h =
      let after = (redeemed s).1 in
      elim (Result-cases (redeemed s).0) [
        | inr (x, failed) ↦
            let rest = attempt_redeem-HasRedeemed n (some x) after hash e (ground arith) in
            inr (inl (x, failed), subst (λ t. HasRedeemed n after hash t) (ground arith) rest)
        | inl (tx, returned) ↦ elim (Bool-cases tx.success) [
          | inl good ↦ inl (tx, returned, good, ground arith, ground arith)
          | inr bad ↦
              let last' : Option String = some (or_default tx.error "Redeem returned failure") in
              let rest = attempt_redeem-HasRedeemed n last' after hash e (ground arith) in
              inr (
                inr (tx, returned, bad),
                subst (λ t. HasRedeemed n after hash t) (ground arith) rest,
              )
        ]
      ]

  pub attempt_redeem-calls :
      (calls : S → ℕ)
      → ((s : S) → calls (redeemed s).1 ≤ calls s + 1)
      → (n : ℕ) (last : Option String) (s : S)
      → calls (attempt_redeem w position action ctx n last s).1 ≤ calls s + n
  unfolding attempt_redeem
  attempt_redeem-calls calls once zero last s = ground arith
  attempt_redeem-calls calls once (suc n) last s =
      let after = (redeemed s).1 in
      elim (Result-cases (redeemed s).0) [
        | inr (e, failed) ↦ ground (arith, once s, attempt_redeem-calls calls once n (some e) after)
        | inl (tx, returned) ↦ elim (Bool-cases tx.success) [
          | inl good ↦ ground (arith, once s)
          | inr bad ↦ ground (
            arith,
            once s,
            attempt_redeem-calls calls once n (some (or_default tx.error "Redeem returned failure"))
                after,
          )
        ]
      ]
