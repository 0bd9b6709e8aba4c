-- ===== src/Agent/Rebalance/Execution/Sent.antt =====
-- What has happened when the execution of a rebalance succeeds.
use tapioca_money.Base.{
  String, ◌≡◌, refl, inl, inr, true, false, Option, List, ◌+++◌, or_else, arith, Bool-cases, ◌⊎◌,
}
use tapioca_money.Redis.Action.{ok, Result-cases}
use tapioca_money.Agent.Rebalance.{RebalanceParams, RebalanceCall, build_rebalance_calls}
use tapioca_money.Agent.Rebalance.Execution.{
  Chain, SessionKey, RebalanceResult, Receipt, DelegationStatus, is_mismatched, send_failed,
  create_client, confirm, submit, execute_active, execute_checked, execute_rebalance, failed,
}

module _ {S Client : Type 0} (chain : Chain S Client) (tokens : List String) (account : String)
    (params : RebalanceParams) (session : SessionKey) (serialized_account : Option String) where
  -- in state `s`, the calls of the rebalance are sent by `client`, and their receipt, with the hash
  -- `task_id`, is a success
  abbrev pub HasSent : Client → S → String → Type 0
  HasSent client s task_id =
      (calls : List RebalanceCall) × (hash : String) × (receipt : Receipt) × (build_rebalance_calls
          (chain.reads s) params
        ≡ ok calls)
      × ((chain.send_user_operation client (chain.with_builder_code calls) s).0 ≡ ok hash)
      × ((chain.wait_for_receipt client hash
            (chain.send_user_operation client (chain.with_builder_code calls) s).1).0
          ≡ ok receipt)
      × (receipt.success ≡ true)
      × (receipt.transaction_hash ≡ task_id)

  -- from state `s`: the account is active and delegates to nothing but the expected implementation, and
  -- then the calls are sent
  abbrev pub HasExecuted : S → String → Type 0
  HasExecuted s task_id =
      (status : DelegationStatus) × (client : Client) × ((chain.check_active account s).0
        ≡ ok status)
      × (status.active ≡ true)
      × (is_mismatched chain.expected_implementation status ≡ false)
      × ((create_client chain tokens account session serialized_account
            (chain.check_active account s).1).0
          ≡ ok client)
      × HasSent client
          (create_client chain tokens account session serialized_account
            (chain.check_active account s).1).1
          task_id

  send_failed-success :
      (message : String) (s : S) (r : RebalanceResult)
      → (send_failed message s).0 ≡ ok r
      → r.success ≡ false
  unfolding send_failed
  send_failed-success message s r h = ground arith

  submit-success :
      (client : Client) (calls : List RebalanceCall) (s : S) (r : RebalanceResult)
      → build_rebalance_calls (chain.reads s) params ≡ ok calls
      → (submit chain tokens account client calls s).0 ≡ ok r
      → r.success ≡ true
      → HasSent client s r.task_id
  unfolding submit confirm
  submit-success client calls s r built h good =
      let sent = chain.send_user_operation client (chain.with_builder_code calls) s in
      elim (Result-cases sent.0) [
        | inr (e, threw) ↦ absurd (ground (arith, send_failed-success e sent.1 r))
        | inl (hash, went) ↦
            let waited = chain.wait_for_receipt client hash sent.1 in
            elim (Result-cases waited.0) [
              | inr (e, threw) ↦ absurd (ground arith)
              | inl (receipt, came) ↦ elim (Bool-cases receipt.success) [
                | inr reverted ↦ absurd (ground arith)
                | inl fine ↦
                    elim (Result-cases
                      (chain.verify_delegation account receipt.transaction_hash waited.1).0) [
                        | inr (e, threw) ↦ absurd (ground arith)
                        | inl (_, verified) ↦
                            (calls, hash, receipt, built, went, came, fine, ground arith)
                      ]
              ]
            ]
      ]

  execute_active-success :
      (s : S) (r : RebalanceResult)
      → (execute_active chain tokens account params session serialized_account s).0 ≡ ok r
      → r.success ≡ true
      → (client : Client) × ((create_client chain tokens account session serialized_account s).0
          ≡ ok client)
        × HasSent client
            (create_client chain tokens account session serialized_account s).1
            r.task_id
  unfolding execute_active
  execute_active-success s r h good =
      let made = create_client chain tokens account session serialized_account s in
      elim (Result-cases made.0) [
        | inr (e, threw) ↦ absurd (ground arith)
        | inl (client, ready) ↦
            elim (Result-cases (build_rebalance_calls (chain.reads made.1) params)) [
              | inr (e, threw) ↦ absurd (ground arith)
              | inl (calls, built) ↦
                  (client, ready, submit-success client calls made.1 r built (ground arith) good)
            ]
      ]

  -- executeRebalance always returns a result. If it is a success, the account was active and delegated to
  -- nothing but the expected implementation, the calls of buildRebalanceCalls in the state after the client
  -- was made were sent, with the builder's code, and their receipt is a success, whose hash it returns.
  pub execute_rebalance-HasExecuted :
      (s : S)
      → (r : RebalanceResult) × ((execute_rebalance chain tokens account params session
            serialized_account s).0
          ≡ ok r)
        × ((r.success ≡ false) ⊎ HasExecuted s r.task_id)
  unfolding execute_rebalance execute_checked
  execute_rebalance-HasExecuted s =
      let checked = chain.check_active account s in
      elim (Result-cases checked.0) [
        | inr (e, threw) ↦ (failed "" e, ground arith, inl refl)
        | inl (status, asked) ↦ elim (Bool-cases status.active) [
          | inr asleep ↦ (
            failed "" "EIP-7702 delegation not active on-chain. User must re-register.",
            ground arith,
            inl refl,
          )
          | inl active ↦ elim (Bool-cases (is_mismatched chain.expected_implementation status)) [
            | inl other ↦ (
              failed "" (
                  "EIP-7702 delegated to wrong implementation: "
                  +++ or_else status.implementation_address "undefined"),
              ground arith,
              inl refl,
            )
            | inr expected ↦
                let ran =
                  execute_active chain tokens account params session serialized_account checked.1 in
                elim (Result-cases ran.0) [
                  | inr (e, threw) ↦ (failed "" e, ground arith, inl refl)
                  | inl (r, done) ↦ (
                    r,
                    ground arith,
                    elim (Bool-cases r.success) [
                      | inr bad ↦ inl bad
                      | inl good ↦
                          let (client, ready, sent) =
                            execute_active-success checked.1 r done good in
                          inr (status, client, asked, active, expected, ready, sent)
                    ],
                  )
                ]
          ]
        ]
      ]
