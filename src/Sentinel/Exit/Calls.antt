-- ===== src/Sentinel/Exit/Calls.antt =====
-- How often one user's exit calls the executor.
use tapioca_money.Base.{
  ℕ, suc, ◌+◌, ◌≤◌, String, ◌≡◌, ◌⊎◌, inl, inr, true, false, Option, some, none, List, [], ◌∷◌,
  arith, Bool-cases, Option-cases,
}
use tapioca_money.Base.Double.{Double}
use tapioca_money.Redis.Action.{Result, ok, err, pure, catch, finally, ◌>>=◌, ◌>>◌, Result-cases}
use tapioca_money.Redis.Action as Async
use tapioca_money.Redis.Cache.{Script, release_lock_script}
use tapioca_money.Redis.Lock.{
  LockResult, acquire_user_lock, release_user_lock, delete_own, lock_key,
}
use tapioca_money.Sentinel.Types.{Action, Protocol}
use tapioca_money.Sentinel.Exit.{
  World, UserPosition, truthy, exit_lock_ttl, protocol_of, incident_row, IncidentRecord,
  attempt_redeem, log_incident, report, exit_under_lock, acquire, release, exit_with,
  execute_user_exit, max_retries,
}
use tapioca_money.Sentinel.Exit.Attempts.{attempt_redeem-ok, attempt_redeem-calls}

-- `m` adds at most `n` to `calls`
abbrev pub Costs : {S A : Type 0} → (S → ℕ) → ℕ → Async.Action S A → Type 0
Costs calls n m = (s : _) → calls (m s).1 ≤ calls s + n

-- `calls` counts the redeems: a redeem adds at most one, and nothing else adds to it.
pub record Counts {S N Auth Ctx : Type 0} (w : World S N Auth Ctx) (calls : S → ℕ) : Type 0 where
  pub at_redeem :
      (p : Protocol) (ctx : Ctx) (vault : String) (shares : ℕ)
      → Costs calls 1 (w.redeem p ctx vault shares)
  pub at_recent_exit : (u v : String) → Costs calls 0 (w.recent_exit u v)
  pub at_insert : (row : IncidentRecord N) → Costs calls 0 (w.insert_incident row)
  pub at_decrypted : (a : Option Auth) (u : String) → Costs calls 0 (w.decrypted a u)
  pub at_connect : Costs calls 0 w.cache.connect
  pub at_set_nx : (now : ℕ) (k v : String) (ttl : ℕ) → Costs calls 0 (w.cache.set_nx now k v ttl)
  pub at_get : (now : ℕ) (k : String) → Costs calls 0 (w.cache.get now k)
  pub at_del : (now : ℕ) (k : String) → Costs calls 0 (w.cache.del now k)
  pub at_eval :
      (now : ℕ) (script : Script) (keys args : List String)
      → Costs calls 0 (w.cache.eval now script keys args)

module _ {S N Auth Ctx : Type 0} ⦃d : Double N⦄ (w : World S N Auth Ctx)
    (position : UserPosition Auth) (action : Action N) (calls : S → ℕ)
    (counts : Counts w calls) where
  acquire-calls :
      (now : ℕ) (lock_id user : String) (s : S) → calls (acquire w now lock_id user s).1 ≤ calls s
  unfolding acquire acquire_user_lock
  acquire-calls now lock_id user s = ground (
    arith,
    counts.at_connect s,
    counts.at_set_nx now (lock_key user) lock_id exit_lock_ttl (w.cache.connect s).1,
  )

  release_user_lock-calls :
      (done : ℕ) (user id : String) (s : S)
      → calls (release_user_lock w.cache done user id s).1 ≤ calls s
  unfolding release_user_lock delete_own
  release_user_lock-calls done user id s =
      let s1 = (w.cache.connect s).1 in
      let s2 = (w.cache.eval done release_lock_script (lock_key user ∷ []) (id ∷ []) s1).1 in
      let s3 = (w.cache.get done (lock_key user) s2).1 in
      ground (
        arith,
        counts.at_connect s,
        counts.at_eval done release_lock_script (lock_key user ∷ []) (id ∷ []) s1,
        counts.at_get done (lock_key user) s2,
        counts.at_del done (lock_key user) s3,
      )

  release-calls :
      (done : ℕ) (user : String) (lock : LockResult) (s : S)
      → calls (release w done user lock s).1 ≤ calls s
  unfolding release
  release-calls done user lock s = elim (Option-cases (truthy lock.lock_id)) [
    | inl no_id ↦ ground arith
    | inr (id, held) ↦ ground (arith, release_user_lock-calls done user id s)
  ]

  log_incident-calls :
      (taken : String) (hash : Option String) (s : S)
      → calls (log_incident w position action taken hash s).1 ≤ calls s
  unfolding log_incident
  log_incident-calls taken hash s =
      ground (arith, counts.at_insert (incident_row position action taken hash) s)

  report-calls :
      (p : Option String × Option String) (s : S) → calls (report w position action p s).1 ≤ calls s
  unfolding report
  report-calls p s = elim (Option-cases (truthy p.0)) [
    | inl no_hash ↦ ground (arith, log_incident-calls "exit_failed" none s)
    | inr (hash, got) ↦ ground (arith, log_incident-calls "exit" (some hash) s)
  ]

  exit_under_lock-calls : (s : S) → calls (exit_under_lock w position action s).1 ≤ calls s + 2
  unfolding exit_under_lock
  exit_under_lock-calls s =
      let opened = w.decrypted position.user.authorization_7702 position.agent_address s in
      let cost = counts.at_decrypted position.user.authorization_7702 position.agent_address s in
      elim (Result-cases opened.0) [
        | inr (e, threw) ↦ ground (arith, cost)
        | inl (ctx, decrypted) ↦
            let looped = attempt_redeem w position action ctx (suc max_retries) none opened.1 in
            let (p, ended) =
              attempt_redeem-ok w position action ctx (suc max_retries) none opened.1 in
            ground (
              arith,
              cost,
              ended,
              attempt_redeem-calls w position action ctx calls
                  (counts.at_redeem (protocol_of w action) ctx action.vault_address position.shares)
                  (suc max_retries) none opened.1,
              report-calls p looped.1,
            )
      ]

  exit_with-calls :
      (done : ℕ) (lock : LockResult) (s : S)
      → calls (exit_with w done position action lock s).1 ≤ calls s + 2
  unfolding exit_with
  exit_with-calls done lock s =
      let under = exit_under_lock w position action s in
      elim (Bool-cases lock.acquired) [
        | inr busy ↦ ground arith
        | inl held ↦ elim (Result-cases under.0) [
          | inl (r, made) ↦ ground (
            arith,
            exit_under_lock-calls s,
            release-calls done position.user.wallet_address lock under.1,
          )
          | inr (e, threw) ↦ ground (
            arith,
            exit_under_lock-calls s,
            release-calls done position.user.wallet_address lock under.1,
          )
        ]
      ]

  -- Where `calls` counts the redeems, one user's exit adds at most two on every path: the first attempt
  -- and one retry. It adds none unless the table says that there was no recent exit of this user from
  -- this vault.
  pub execute_user_exit-calls :
      (now done : ℕ) (lock_id : String) (s : S)
      → let after = calls (execute_user_exit w now done lock_id position action s).1 in
        (after ≤ calls s + 2)
        × ((after ≤ calls s)
            ⊎ ((w.recent_exit position.user.wallet_address action.vault_address s).0 ≡ ok false))
  unfolding execute_user_exit
  execute_user_exit-calls now done lock_id s =
      let user = position.user.wallet_address in
      let looked = w.recent_exit user action.vault_address s in
      let cost = counts.at_recent_exit user action.vault_address s in
      elim (Result-cases looked.0) [
        | inr (e, threw) ↦ (ground (arith, cost), inl (ground (arith, cost)))
        | inl (true, found) ↦ (ground (arith, cost), inl (ground (arith, cost)))
        | inl (false, found) ↦
            let asked = acquire w now lock_id user looked.1 in
            let bound = acquire-calls now lock_id user looked.1 in
            elim (Result-cases asked.0) [
              | inr (e, threw) ↦ (ground (arith, cost, bound), inr found)
              | inl (lock, made) ↦
                  (ground (arith, cost, bound, exit_with-calls done lock asked.1), inr found)
            ]
      ]
