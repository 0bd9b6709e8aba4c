-- ===== src/Agent/Cron/Accounting.antt =====
-- The rebalance phase counts every user once.
use tapioca_money.Base.{
  ℕ, suc, ◌+◌, String, ◌≡◌, ◌⊎◌, inl, inr, true, false, Option, none, some, List, [], ◌∷◌, length,
  length-append, arith, Bool-cases,
}
use tapioca_money.Base.Double.{Double}
use tapioca_money.Redis.Action.{Result, ok, err, Result-cases}
use tapioca_money.Redis.Budget.{get_user_op_count, increment_user_op_count}
use tapioca_money.Security.Authorization.{Authorization, decrypt_authorization}
use tapioca_money.Security.Revocation.{is_session_revoked}
use tapioca_money.Agent.Session.{is_session_valid}
use tapioca_money.Agent.Decision.{RebalanceDecision}
use tapioca_money.Agent.Cron.Types.{World, User, CronSummary, Detail, PrefetchedVaults}
use tapioca_money.Agent.Cron.Rebalance.{
  execute_rebalance_transaction, execute_and_count, rebalance_authorized, rebalance_decided,
  process_user_rebalance, log_simulated_action, decide,
}

-- the users that a summary has counted, in the rebalance phase
abbrev pub counted : {N : Type 0} → CronSummary N → ℕ
counted summary = summary.rebalanced + summary.skipped + summary.errors

-- one more user, with one more detail
abbrev pub CountsOne : {N : Type 0} → CronSummary N → CronSummary N → Type 0
CountsOne before after =
    (counted after ≡ suc (counted before))
    × (length after.details ≡ suc (length before.details))
    × (after.processed ≡ before.processed)
    × (after.claimed ≡ before.claimed)

-- nothing is counted before a step throws
abbrev pub Counts : {N : Type 0} → Result (Unit {0}) → CronSummary N → CronSummary N → Type 0
Counts r before after =
    ((r ≡ ok tt) × CountsOne before after) ⊎ ((e : String) × (r ≡ err e) × (after ≡ before))

module _ {S N Raw : Type 0} ⦃d : Double N⦄ (w : World S N Raw) (user : User) where
  increment_user_op_count-ok :
      (now : ℕ) (wallet : String) (s : S) → (increment_user_op_count w.cache now wallet s).0 ≡ ok tt
  unfolding increment_user_op_count
  increment_user_op_count-ok now wallet s = ground arith

  execute_and_count-Counts :
      (auth : Authorization) (decision : RebalanceDecision N) (summary : CronSummary N) (s : S)
      → Counts
          (execute_and_count w user auth decision (summary, s)).0
          summary
          (execute_and_count w user auth decision (summary, s)).1.0
  unfolding execute_and_count
  execute_and_count-Counts auth decision summary s =
      let ran = execute_rebalance_transaction w user.id user.wallet_address auth decision s in
      let grown = λ (x : Detail N). length-append summary.details (x ∷ []) in
      elim (Result-cases ran.0) [
        | inr (e, threw) ↦ inr (e, ground (arith, threw), ground (arith, threw))
        | inl (ok task, done) ↦
            grind (arith, grown, increment_user_op_count-ok (w.now ran.1) user.wallet_address ran.1)
        | inl (err e, failed) ↦ grind (arith, grown)
      ]

  get_user_op_count-ok :
      (now : ℕ) (wallet : String) (s : S)
      → (n : ℕ) × ((get_user_op_count w.cache now wallet s).0 ≡ ok n)
  unfolding get_user_op_count
  get_user_op_count-ok now wallet s =
      elim (Result-cases (get_user_op_count w.cache now wallet s).0) [
        | inl (n, e) ↦ (n, e)
        | inr (e, threw) ↦ absurd (ground arith)
      ]

  rebalance_authorized-Counts :
      (auth : Authorization) (decision : RebalanceDecision N) (summary : CronSummary N) (s : S)
      → Counts
          (rebalance_authorized w user auth decision (summary, s)).0
          summary
          (rebalance_authorized w user auth decision (summary, s)).1.0
  unfolding rebalance_authorized
  rebalance_authorized-Counts auth decision summary s =
      let grown = λ (x : Detail N). length-append summary.details (x ∷ []) in
      elim (Bool-cases w.simulation_mode) [
        | inl simulated ↦ elim (Result-cases (log_simulated_action w user.id decision s).0) [
          | inr (e, threw) ↦ inr (e, ground arith, ground arith)
          | inl (_, logged) ↦ grind (arith, grown)
        ]
        | inr real ↦
            let asked = get_user_op_count w.cache (w.now s) user.wallet_address s in
            let (n, e) = get_user_op_count-ok (w.now s) user.wallet_address s in
            grind (arith, grown, e, execute_and_count-Counts auth decision summary asked.1)
      ]

  rebalance_decided-Counts :
      (decision : RebalanceDecision N) (summary : CronSummary N) (s : S)
      → Counts
          (rebalance_decided w user decision (summary, s)).0
          summary
          (rebalance_decided w user decision (summary, s)).1.0
  unfolding rebalance_decided
  rebalance_decided-Counts decision summary s =
      let grown = λ (x : Detail N). length-append summary.details (x ∷ []) in
      let stored = w.authorization_of user.id s in
      elim (Result-cases stored.0) [
        | inr (e, threw) ↦ inr (e, ground arith, ground arith)
        | inl (none, found) ↦ grind (arith, grown)
        | inl (some encrypted, found) ↦
            let opened = decrypt_authorization w.decrypt encrypted stored.1 in
            elim (Result-cases opened.0) [
              | inr (e, threw) ↦ inr (e, ground arith, ground arith)
              | inl (auth, ran) ↦
                  elim (Bool-cases (is_session_valid (w.now opened.1) auth.expiry)) [
                    | inr expired ↦ grind (arith, grown)
                    | inl valid ↦
                        let asked =
                          is_session_revoked w.cache (w.now opened.1) auth.session_key_address
                            opened.1 in
                        elim (Result-cases asked.0) [
                          | inr (e, threw) ↦ inr (e, ground arith, ground arith)
                          | inl (true, revoked) ↦ grind (arith, grown)
                          | inl (false, usable) ↦
                              grind
                                (arith, rebalance_authorized-Counts auth decision summary asked.1)
                        ]
                  ]
            ]
      ]

  -- one user of the rebalance phase is counted once, or not at all if the processing throws
  pub process_user_rebalance-Counts :
      (targeted : Option (List String)) (vaults : PrefetchedVaults N) (summary : CronSummary N)
      (s : S)
      → Counts
          (process_user_rebalance w targeted vaults user (summary, s)).0
          summary
          (process_user_rebalance w targeted vaults user (summary, s)).1.0
  unfolding process_user_rebalance
  process_user_rebalance-Counts targeted vaults summary s =
      let grown = λ (x : Detail N). length-append summary.details (x ∷ []) in
      let (fetched, s') = w.fetched user.wallet_address s in
      grind (arith, grown, rebalance_decided-Counts (decide w vaults targeted fetched) summary s')
