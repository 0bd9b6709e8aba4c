-- ===== src/Sentinel/Exit.antt =====
-- sentinel/exit-orchestrator.ts. The users, the `sentinel_incidents` table, the balances, the decryption
-- of a session and the executors are operations of `World`, which may throw; the locks are those of
-- lib/redis over a cache. A batch runs its exits in the order of the list, one after the other.
mod Types
pub mod Attempts
pub mod Outcome
pub mod Calls
mod Tests
pub mod Batches
use tapioca_money.Base.{
  ℕ, zero, suc, ◌+◌, String, ◌==◌, Bool, true, false, ◌&&◌, not, Option, none, some, List, [], ◌∷◌,
  ◌++◌, filter, drop, take, is_empty, is_some, ltb, if◌then◌else◌,
}
use tapioca_money.Base.Double.{Double}
use tapioca_money.Redis.Action.{Result, ok, err, pure, throw, catch, finally, ◌>>=◌, ◌>>◌}
use tapioca_money.Redis.Action as Async
use tapioca_money.Redis.Cache.{Cache}
use tapioca_money.Redis.Lock.{LockResult, acquire_user_lock, release_user_lock}
use tapioca_money.Sentinel.Config.{depeg_exit_pct, tvl_drop_exit_pct, share_price_drop_pct}
use tapioca_money.Sentinel.Types.{
  Action, ActionReason, ExitResult, ExitStatus, Protocol, SignalType, Value, number,
}
unfoldable pub use Types.*

-- `MAX_CONCURRENT_EXITS`
abbrev pub max_concurrent_exits : ℕ
max_concurrent_exits = 10

-- `MAX_RETRIES`
abbrev pub max_retries : ℕ
max_retries = 1

-- the lock's time to live, in seconds
abbrev pub exit_lock_ttl : ℕ
exit_lock_ttl = 120

-- `s` unless it is undefined or empty
abbrev pub truthy : Option String → Option String
truthy none = none
truthy (some s) = if is_empty s then none else some s

-- `s || d`
abbrev pub or_default : Option String → String → String
or_default s d = elim (truthy s) [ none ↦ d | some t ↦ t ]

abbrev pub succeeded : String → String → ℕ → ExitResult
succeeded user hash shares = record {
  user_address = user;
  status = ExitStatus.success;
  tx_hash = some hash;
  shares = some shares;
  reason = none;
  error = none;
}

abbrev pub skipped : String → String → ExitResult
skipped user reason = record {
  user_address = user;
  status = ExitStatus.skipped;
  tx_hash = none;
  shares = none;
  reason = some reason;
  error = none;
}

abbrev pub failed : String → String → ExitResult
failed user error = record {
  user_address = user;
  status = ExitStatus.failed;
  tx_hash = none;
  shares = none;
  reason = none;
  error = some error;
}

-- the `WHERE` of the query
abbrev pub is_active : {A : Type 0} → UserRow A → Bool
is_active u = u.auto_optimize_enabled && u.agent_registered && is_some u.authorization_7702

unfoldable pub resolve_agent_address : {A : Type 0} → UserRow A → String
resolve_agent_address user =
    if user.session_type == "zerodev-erc4337-session"
    then or_default user.smart_wallet_address user.wallet_address
    else user.wallet_address

abbrev pub number_of : {N : Type 0} → Value N → Option N
number_of (number n) = some n
number_of _ = none

module _ {N : Type 0} ⦃d : Double N⦄ where
  unfoldable pub get_threshold : ActionReason → Option N
  get_threshold reason = elim reason [
    | ActionReason.depeg ↦ some depeg_exit_pct
    | ActionReason.bank_run ↦ some tvl_drop_exit_pct
    | ActionReason.share_price_drop ↦ some share_price_drop_pct
    | ActionReason.max_redeem_zero ↦ some (d.decimal 0 0)
    | _ ↦ none
  ]

  -- the row that the `INSERT` makes
  abbrev pub incident_row :
      {Auth : Type 0} → UserPosition Auth → Action N → String → Option String → IncidentRecord N
  incident_row position action action_taken tx_hash = record {
    user_address = position.user.wallet_address;
    vault_address = action.vault_address;
    protocol = action.protocol;
    signal_type = action.signal_type;
    signal_value = number_of action.value;
    threshold = get_threshold action.reason;
    action_taken = action_taken;
    tx_hash = tx_hash;
    amount_redeemed = some position.shares;
    session_type = position.user.session_type;
  }

module _ {S N Auth Ctx : Type 0} ⦃d : Double N⦄ (w : World S N Auth Ctx) where
  -- The table's failure is swallowed.
  unfoldable pub log_incident :
      UserPosition Auth → Action N → String → Option String → Async.Action S (Unit {0})
  log_incident position action action_taken tx_hash =
      catch (w.insert_incident (incident_row position action action_taken tx_hash)) (λ _. pure tt)

  abbrev pub protocol_of : Action N → Protocol
  protocol_of action = elim action.protocol [ none ↦ Protocol.morpho | some p ↦ p ]

  -- the loop: the attempts left and the last error, to the hash, if any, and the last error
  unfoldable pub attempt_redeem :
      UserPosition Auth
      → Action N
      → Ctx
      → ℕ
      → Option String
      → Async.Action S (Option String × Option String)
  attempt_redeem position action ctx zero last s = pure (none, last) s
  attempt_redeem position action ctx (suc n) last s =
      let (r, s') = w.redeem (protocol_of action) ctx action.vault_address position.shares s in
      elim r [
        | err e ↦ attempt_redeem position action ctx n (some e) s'
        | ok result ↦ elim result.success [
          | true ↦ pure (result.tx_hash, last) s'
          | false ↦
              attempt_redeem position action ctx n
                (some (or_default result.error "Redeem returned failure")) s'
        ]
      ]

  -- after the loop
  unfoldable pub report :
      UserPosition Auth → Action N → Option String × Option String → Async.Action S ExitResult
  report position action (tx_hash, last) = elim (truthy tx_hash) [
    | none ↦
        log_incident position action "exit_failed" none
        >> pure (failed position.user.wallet_address (or_default last "Max retries exhausted"))
    | some hash ↦
        log_incident position action "exit" (some hash)
        >> pure (succeeded position.user.wallet_address hash position.shares)
  ]

  -- the body of the `try` under the lock
  unfoldable pub exit_under_lock : UserPosition Auth → Action N → Async.Action S ExitResult
  unfolding report
  exit_under_lock position action =
      w.decrypted position.user.authorization_7702 position.agent_address >>= λ ctx.
      attempt_redeem position action ctx (suc max_retries) none >>= report position action

  -- the `finally`: the lock goes if it has an id, and failing to let it go is not an error
  unfoldable pub release : ℕ → String → LockResult → Async.Action S (Unit {0})
  release done user lock = elim (truthy lock.lock_id) [
    | none ↦ pure tt
    | some id ↦ catch (release_user_lock w.cache done user id) (λ _. pure tt)
  ]

  -- Without Redis an exit goes on with no lock.
  unfoldable pub acquire : ℕ → String → String → Async.Action S LockResult
  acquire now lock_id user =
      catch (acquire_user_lock w.cache now lock_id user exit_lock_ttl)
        (λ _. pure (record { acquired = true; lock_id = none }))

  -- after the lock has been asked for
  unfoldable pub exit_with :
      ℕ → UserPosition Auth → Action N → LockResult → Async.Action S ExitResult
  exit_with done position action lock = elim lock.acquired [
    | false ↦ pure (skipped position.user.wallet_address "LOCKED")
    | true ↦
        finally
          (catch (exit_under_lock position action)
            (λ e. pure (failed position.user.wallet_address e)))
          (release done position.user.wallet_address lock)
  ]

  unfoldable pub execute_user_exit :
      ℕ → ℕ → String → UserPosition Auth → Action N → Async.Action S ExitResult
  execute_user_exit now done lock_id position action =
      w.recent_exit position.user.wallet_address action.vault_address >>= λ recent. elim recent [
        | true ↦ pure (skipped position.user.wallet_address "IDEMPOTENT")
        | false ↦
            acquire now lock_id position.user.wallet_address >>= exit_with done position action
      ]

  -- the users with shares, where the balance could be read
  unfoldable pub fetch_user_positions :
      List (UserRow Auth) → String → S → List (UserPosition Auth) × S
  fetch_user_positions [] vault s = ([], s)
  fetch_user_positions (user ∷ users) vault s =
      let (r, s') = w.balance_of vault (resolve_agent_address user) s in
      let (rest, s'') = fetch_user_positions users vault s' in
      elim r [
        | err _ ↦ (rest, s'')
        | ok shares ↦
            if ltb 0 shares
            then (
              record { user = user; agent_address = resolve_agent_address user; shares = shares }
                  ∷ rest,
              s'',
            )
            else (rest, s'')
      ]

  -- what a settled promise adds to the results
  abbrev pub settled : Result ExitResult → ExitResult
  settled (ok r) = r
  settled (err e) = failed "unknown" (or_default (some e) "Unknown batch error")

  -- a batch, in the order of its list
  unfoldable pub settle_all :
      ℕ → ℕ → String → Action N → List (UserPosition Auth) → S → List ExitResult × S
  settle_all now done lock_id action [] s = ([], s)
  settle_all now done lock_id action (position ∷ positions) s =
      let (r, s') = execute_user_exit now done lock_id position action s in
      let (rest, s'') = settle_all now done lock_id action positions s' in (settled r ∷ rest, s'')

  -- the loop over the batches, on fuel
  unfoldable pub run_batches :
      ℕ → ℕ → ℕ → String → Action N → List (UserPosition Auth) → S → List ExitResult × S
  run_batches zero now done lock_id action positions s = ([], s)
  run_batches (suc fuel) now done lock_id action [] s = ([], s)
  run_batches (suc fuel) now done lock_id action (p ∷ ps) s =
      let (results, s') =
        settle_all now done lock_id action (take max_concurrent_exits (p ∷ ps)) s in
      let (rest, s'') =
        run_batches fuel now done lock_id action (drop max_concurrent_exits (p ∷ ps)) s' in
      (results ++ rest, s'')

  unfoldable pub execute : ℕ → ℕ → ℕ → String → Action N → Async.Action S (List ExitResult)
  execute fuel now done lock_id action = do
    rows ← w.users
    λ s.
        let (positions, s') = fetch_user_positions (filter is_active rows) action.vault_address s in
        let (results, s'') = run_batches fuel now done lock_id action (w.sort positions) s' in
        (ok results, s'')
