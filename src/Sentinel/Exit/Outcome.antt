-- ===== src/Sentinel/Exit/Outcome.antt =====
-- One user's exit: when it succeeds, that it does not throw, and how often it redeems.
use tapioca_money.Base.{
  ℕ, suc, String, ◌≡◌, refl, inl, inr, Bool, true, false, Option, some, none, arith, Bool-cases,
}
use tapioca_money.Base.Double.{Double}
use tapioca_money.Redis.Action.{ok, Result-cases}
use tapioca_money.Redis.Lock.{LockResult, acquire_user_lock}
use tapioca_money.Sentinel.Types.{Action, ExitResult, ExitStatus}
use tapioca_money.Sentinel.Exit.{
  World, UserPosition, attempt_redeem, log_incident, report, exit_under_lock, acquire, failed,
  skipped, release, exit_with, exit_lock_ttl, execute_user_exit, max_retries,
}
use tapioca_money.Sentinel.Exit.Attempts.{
  HasRedeemed, attempt_redeem-ok, attempt_redeem-HasRedeemed,
}

module _ {S N Auth Ctx : Type 0} ⦃d : Double N⦄ (w : World S N Auth Ctx)
    (position : UserPosition Auth) (action : Action N) where
  release-ok :
      (done : ℕ) (user : String) (lock : LockResult) (s : S)
      → (release w done user lock s).0 ≡ ok tt
  unfolding release
  release-ok done user lock s = ground arith

  acquire-ok :
      (now : ℕ) (lock_id user : String) (s : S)
      → (lock : LockResult) × ((acquire w now lock_id user s).0 ≡ ok lock)
  unfolding acquire
  acquire-ok now lock_id user s =
      elim (Result-cases (acquire_user_lock w.cache now lock_id user exit_lock_ttl s).0) [
        | inl (lock, held) ↦ (lock, ground arith)
        | inr (e, threw) ↦ (record { acquired = true; lock_id = none }, ground arith)
      ]

  report-success :
      (p : Option String × Option String) (s : S) (r : ExitResult)
      → (report w position action p s).0 ≡ ok r
      → r.status ≡ ExitStatus.success
      → (hash : String) × (p.0 ≡ some hash)
        × (r.tx_hash ≡ some hash)
        × ((report w position action p s).1
            ≡ (log_incident w position action "exit" (some hash) s).1)
  unfolding report log_incident
  report-success (none, last) s r h good = absurd (ground arith)
  report-success (some hash, last) s r h good = (hash, refl, ground arith, ground arith)

  -- what has happened from the store `s`, under the lock, to a result with a hash: the user's own
  -- authorization was decrypted for their own address, and one of at most two redeems succeeded with the
  -- hash; then the exit was logged, which left `final`
  abbrev pub HasExited : S → ExitResult → S → Type 0
  HasExited s r final =
      let opened = w.decrypted position.user.authorization_7702 position.agent_address s in
      (ctx : Ctx) × (hash : String) × (after : S) × (opened.0 ≡ ok ctx)
      × HasRedeemed w position action ctx 2 opened.1 hash after
      × (r.tx_hash ≡ some hash)
      × ((log_incident w position action "exit" (some hash) after).1 ≡ final)

  exit_under_lock-HasExited :
      (s : S) (r : ExitResult)
      → (exit_under_lock w position action s).0 ≡ ok r
      → r.status ≡ ExitStatus.success
      → HasExited s r (exit_under_lock w position action s).1
  unfolding exit_under_lock
  exit_under_lock-HasExited s r h good =
      let opened = w.decrypted position.user.authorization_7702 position.agent_address s in
      elim (Result-cases opened.0) [
        | inr (e, threw) ↦ absurd (ground arith)
        | inl (ctx, decrypted) ↦
            let looped = attempt_redeem w position action ctx (suc max_retries) none opened.1 in
            let (p, done) =
              attempt_redeem-ok w position action ctx (suc max_retries) none opened.1 in
            let (hash, first, same, logged) = report-success p looped.1 r (ground arith) good in
            (
              ctx,
              hash,
              looped.1,
              decrypted,
              attempt_redeem-HasRedeemed w position action ctx (suc max_retries) none opened.1 hash
                  p.1 (ground arith),
              same,
              ground arith,
            )
      ]

  exit_with-ok :
      (done : ℕ) (lock : LockResult) (s : S)
      → (r : ExitResult) × ((exit_with w done position action lock s).0 ≡ ok r)
  unfolding exit_with
  exit_with-ok done lock s = elim (Bool-cases lock.acquired) [
    | inr busy ↦ (skipped position.user.wallet_address "LOCKED", ground arith)
    | inl held ↦
        let ended =
          release-ok done position.user.wallet_address lock
            (exit_under_lock w position action s).1 in
        elim (Result-cases (exit_under_lock w position action s).0) [
          | inl (r, made) ↦ (r, ground (arith, ended))
          | inr (e, threw) ↦ (failed position.user.wallet_address e, ground (arith, ended))
        ]
  ]

  exit_with-success :
      (done : ℕ) (lock : LockResult) (s : S) (r : ExitResult)
      → (exit_with w done position action lock s).0 ≡ ok r
      → r.status ≡ ExitStatus.success
      → (lock.acquired ≡ true)
        × ((exit_under_lock w position action s).0 ≡ ok r)
        × ((exit_with w done position action lock s).1
            ≡ (release w done position.user.wallet_address lock
                (exit_under_lock w position action s).1).1)
  unfolding exit_with
  exit_with-success done lock s r h good = elim (Bool-cases lock.acquired) [
    | inr busy ↦ absurd (ground arith)
    | inl held ↦
        let ended =
          release-ok done position.user.wallet_address lock
            (exit_under_lock w position action s).1 in
        elim (Result-cases (exit_under_lock w position action s).0) [
          | inl (r', made) ↦ (held, ground (arith, ended), ground (arith, ended))
          | inr (e, threw) ↦ absurd (ground (arith, ended))
        ]
  ]

  -- A result SUCCESS, from `executeUserExit` with its lock, its retries and its log: the table had no
  -- recent exit of this user from this vault; then the lock was asked for and given; then the user's
  -- own authorization was decrypted for their own address, and one of at most two redeems with it, each
  -- from the store that the one before has left, succeeded with the very hash that the result has; and
  -- the store at the end is what that redeem, the log of the exit and the release of the lock have left.
  pub execute_user_exit-HasExited :
      (now done : ℕ) (lock_id : String) (s : S) (r : ExitResult)
      → (execute_user_exit w now done lock_id position action s).0 ≡ ok r
      → r.status ≡ ExitStatus.success
      → let user = position.user.wallet_address in
        let looked = w.recent_exit user action.vault_address s in
        let asked = acquire w now lock_id user looked.1 in
        (looked.0 ≡ ok false)
        × ((lock : LockResult) × (final : S) × (asked.0 ≡ ok lock)
            × (lock.acquired ≡ true)
            × HasExited asked.1 r final
            × ((execute_user_exit w now done lock_id position action s).1
                ≡ (release w done user lock final).1))
  unfolding execute_user_exit
  execute_user_exit-HasExited now done lock_id s r h good =
      let user = position.user.wallet_address in
      let looked = w.recent_exit user action.vault_address s in
      elim (Result-cases looked.0) [
        | inr (e, threw) ↦ absurd (ground arith)
        | inl (true, found) ↦ absurd (ground arith)
        | inl (false, found) ↦
            let (lock, asked) = acquire-ok now lock_id user looked.1 in
            let before = (acquire w now lock_id user looked.1).1 in
            let (held, made, left) =
              exit_with-success done lock before r (ground (arith, asked)) good in
            (
              found,
              (
                lock,
                (exit_under_lock w position action before).1,
                asked,
                held,
                exit_under_lock-HasExited before r made good,
                ground (arith, asked, left),
              ),
            )
      ]

  -- Only the first query can make an exit throw: once it has answered, every failure of the locks, the
  -- decryption, the executor and the table ends in a result.
  pub execute_user_exit-ok :
      (now done : ℕ) (lock_id : String) (s : S) (recent : Bool)
      → (w.recent_exit position.user.wallet_address action.vault_address s).0 ≡ ok recent
      → (r : ExitResult) × ((execute_user_exit w now done lock_id position action s).0 ≡ ok r)
  unfolding execute_user_exit
  execute_user_exit-ok now done lock_id s true found =
      (skipped position.user.wallet_address "IDEMPOTENT", ground arith)
  execute_user_exit-ok now done lock_id s false found =
      let user = position.user.wallet_address in
      let looked = w.recent_exit user action.vault_address s in
      let (lock, asked) = acquire-ok now lock_id user looked.1 in
      let (r, made) = exit_with-ok done lock (acquire w now lock_id user looked.1).1 in
      (r, ground (arith, asked, made))
