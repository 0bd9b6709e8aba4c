-- ===== src/Agent/Cron/Gates.antt =====
-- What must hold before a user is rebalanced or rewards are claimed.
use tapioca_money.Base.{
  ℕ, suc, ◌<◌, leb, String, ◌≡◌, inl, inr, true, false, Option, none, some, List, arith, Bool-cases,
}
use tapioca_money.Base.Double.{Double}
use tapioca_money.Redis.Action.{ok, Result-cases}
use tapioca_money.Redis.Budget.{get_user_op_count}
use tapioca_money.Security.Authorization.{Authorization, decrypt_authorization}
use tapioca_money.Security.Revocation.{is_session_revoked}
use tapioca_money.Agent.Session.{is_session_valid}
use tapioca_money.Agent.Decision.{RebalanceDecision}
use tapioca_money.Agent.Cron.Types.{
  World, User, CronSummary, PrefetchedVaults, ExecutionArguments, ExecutionResult,
}
use tapioca_money.Agent.Cron.Rebalance.{
  prepare, smart_account_address, execute_and_log, execute_rebalance_transaction, execute_and_count,
  rebalance_authorized, rebalance_decided, process_user_rebalance, log_simulated_action,
  has_valid_type, log_rebalance_action, decide,
}

module _ {S N Raw : Type 0} ⦃d : Double N⦄ (w : World S N Raw) (user : User) where
  -- in state `t`, the call that was prepared from the decision succeeds
  abbrev pub HasExecuted : Authorization → RebalanceDecision N → S → Type 0
  HasExecuted auth decision t =
      (arguments : ExecutionArguments) × (result : ExecutionResult) × (prepare w user.wallet_address
          auth decision
        ≡ ok arguments)
      × ((w.execute_rebalance (smart_account_address auth) arguments t).0 ≡ ok result)
      × (result.success ≡ true)

  -- in state `t`, no simulation and fewer than 87 operations today, and then an execution
  abbrev pub HasBudget : Authorization → RebalanceDecision N → S → Type 0
  HasBudget auth decision t =
      (w.simulation_mode ≡ false)
      × ((n : ℕ) × ((get_user_op_count w.cache (w.now t) user.wallet_address t).0 ≡ ok n)
          × (n < 87))
      × HasExecuted auth decision (get_user_op_count w.cache (w.now t) user.wallet_address t).1

  -- in state `t`, the decrypted authorization has neither expired nor been revoked, and then the budget
  -- and the execution
  abbrev pub HasSession : Authorization → RebalanceDecision N → S → Type 0
  HasSession auth decision t =
      (is_session_valid (w.now t) auth.expiry ≡ true)
      × ((is_session_revoked w.cache (w.now t) auth.session_key_address t).0 ≡ ok false)
      × HasBudget auth decision (is_session_revoked w.cache (w.now t) auth.session_key_address t).1

  -- from state `t`: the authorization of the user is read and decrypted, and then the session's checks
  abbrev pub HasRebalanced : RebalanceDecision N → S → Type 0
  HasRebalanced decision t =
      (encrypted auth : Authorization) × ((w.authorization_of user.id t).0 ≡ ok (some encrypted))
      × ((decrypt_authorization w.decrypt encrypted (w.authorization_of user.id t).1).0 ≡ ok auth)
      × HasSession auth decision
          (decrypt_authorization w.decrypt encrypted (w.authorization_of user.id t).1).1

  execute_and_log-HasExecuted :
      (auth : Authorization) (decision : RebalanceDecision N) (s : S) (task : String)
      → (execute_and_log w user.id user.wallet_address auth decision s).0 ≡ ok task
      → HasExecuted auth decision s
  unfolding execute_and_log
  execute_and_log-HasExecuted auth decision s task h =
      elim (Result-cases (prepare w user.wallet_address auth decision)) [
        | inr (e, threw) ↦ absurd (ground arith)
        | inl (arguments, ready) ↦
            let ran = w.execute_rebalance (smart_account_address auth) arguments s in
            elim (Result-cases ran.0) [
              | inr (e, threw) ↦ absurd (ground arith)
              | inl (result, done) ↦ (
                arguments,
                result,
                ready,
                done,
                elim (Bool-cases result.success) [
                  | inl good ↦ good
                  | inr bad ↦ absurd (ground arith)
                ],
              )
            ]
      ]

  execute_and_count-HasExecuted :
      (auth : Authorization) (decision : RebalanceDecision N) (summary : CronSummary N) (s : S)
      → (execute_and_count w user auth decision (summary, s)).1.0.rebalanced
        ≡ suc summary.rebalanced
      → HasExecuted auth decision s
  unfolding execute_and_count execute_rebalance_transaction
  execute_and_count-HasExecuted auth decision summary s h =
      let ran = execute_and_log w user.id user.wallet_address auth decision s in
      elim (Result-cases ran.0) [
        | inl (task, done) ↦ execute_and_log-HasExecuted auth decision s task done
        | inr (e, threw) ↦
            let logged = log_rebalance_action w user.id decision none "failed" (some e) ran.1 in
            elim (Result-cases logged.0) [
              | inl (_, wrote) ↦ absurd (ground arith)
              | inr (x, failed) ↦ absurd (ground arith)
            ]
      ]

  rebalance_authorized-HasBudget :
      (auth : Authorization) (decision : RebalanceDecision N) (summary : CronSummary N) (s : S)
      → (rebalance_authorized w user auth decision (summary, s)).1.0.rebalanced
        ≡ suc summary.rebalanced
      → HasBudget auth decision s
  unfolding rebalance_authorized
  rebalance_authorized-HasBudget auth decision summary s h =
      let asked = get_user_op_count w.cache (w.now s) user.wallet_address s in
      elim (Bool-cases w.simulation_mode) [
        | inl simulated ↦ elim (Result-cases (log_simulated_action w user.id decision s).0) [
          | inl (_, wrote) ↦ absurd (ground arith)
          | inr (e, threw) ↦ absurd (ground arith)
        ]
        | inr real ↦ elim (Result-cases asked.0) [
          | inr (e, threw) ↦ absurd (ground arith)
          | inl (n, found) ↦ elim (Bool-cases (leb 87 n)) [
            | inl low ↦ absurd (ground arith)
            | inr fine ↦ (
              real,
              (n, found, ground arith),
              execute_and_count-HasExecuted auth decision summary asked.1 (ground arith),
            )
          ]
        ]
      ]

  rebalance_decided-HasRebalanced :
      (decision : RebalanceDecision N) (summary : CronSummary N) (s : S)
      → (rebalance_decided w user decision (summary, s)).1.0.rebalanced ≡ suc summary.rebalanced
      → HasRebalanced decision s
  unfolding rebalance_decided
  rebalance_decided-HasRebalanced decision summary s h =
      let stored = w.authorization_of user.id s in
      elim (Result-cases stored.0) [
        | inr (e, threw) ↦ absurd (ground arith)
        | inl (none, found) ↦ absurd (ground arith)
        | inl (some encrypted, found) ↦
            let opened = decrypt_authorization w.decrypt encrypted stored.1 in
            elim (Result-cases opened.0) [
              | inr (e, threw) ↦ absurd (ground arith)
              | inl (auth, ran) ↦
                  elim (Bool-cases (is_session_valid (w.now opened.1) auth.expiry)) [
                    | inr expired ↦ absurd (ground arith)
                    | inl valid ↦
                        let asked =
                          is_session_revoked w.cache (w.now opened.1) auth.session_key_address
                            opened.1 in
                        elim (Result-cases asked.0) [
                          | inr (e, threw) ↦ absurd (ground arith)
                          | inl (true, revoked) ↦ absurd (ground arith)
                          | inl (false, usable) ↦
                              let budget =
                                rebalance_authorized-HasBudget auth decision summary asked.1
                                  (ground arith) in
                              (encrypted, auth, found, ran, (valid, usable, budget))
                        ]
                  ]
            ]
      ]

  -- A user that processUserRebalance counts as rebalanced: the session type is valid, the decision was to
  -- rebalance, the user's authorization was then decrypted and had neither expired nor been revoked, the
  -- run was no simulation and fewer than 87 operations were counted for the day, and thereupon the
  -- execution that was prepared from the decision has succeeded.
  pub process_user_rebalance-gates :
      (targeted : Option (List String)) (vaults : PrefetchedVaults N) (summary : CronSummary N)
      (s : S)
      → (process_user_rebalance w targeted vaults user (summary, s)).1.0.rebalanced
        ≡ suc summary.rebalanced
      → (has_valid_type user.session_type ≡ true)
        × ((decide w vaults targeted (w.fetched user.wallet_address s).0).should_rebalance ≡ true)
        × HasRebalanced
            (decide w vaults targeted (w.fetched user.wallet_address s).0)
            (w.fetched user.wallet_address s).1
  unfolding process_user_rebalance
  process_user_rebalance-gates targeted vaults summary s h =
      let fetched = w.fetched user.wallet_address s in
      let decision = decide w vaults targeted fetched.0 in
      elim (Bool-cases (has_valid_type user.session_type)) [
        | inr bad ↦ absurd (ground arith)
        | inl good ↦ elim (Bool-cases decision.should_rebalance) [
          | inr stays ↦ absurd (ground arith)
          | inl moves ↦ (
            good,
            moves,
            rebalance_decided-HasRebalanced decision summary fetched.1 (ground arith),
          )
        ]
      ]
