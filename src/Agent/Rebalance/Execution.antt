-- ===== src/Agent/Rebalance/Execution.antt =====
-- lib/agent/rebalance-executor.ts: `executeRebalance`, `simulateRebalance` and the scoped permissions. The
-- wallet's clients, the chain and the builder's code, which `withBuilderCode` adds to the calls, are
-- operations of `Chain`; what is read of the contracts depends on the state.
pub mod Sent
use tapioca_money.Base.{
  ℕ, zero, suc, ◌+◌, String, ◌==◌, ◌+++◌, Bool, true, false, ◌&&◌, not, Option, none, some, List,
  [], ◌∷◌, ◌++◌, includes, or_else, to_lower, to_string, if◌then◌else◌,
}
use tapioca_money.Redis.Action.{Result, ok, err, Action, pure, throw, catch, ◌>>=◌, ◌>>◌}
use tapioca_money.Sentinel.Exit.{truthy, or_default}
use tapioca_money.Security.Authorization.{Eip7702SignedAuth}
use tapioca_money.Agent.Rebalance.{RebalanceParams, RebalanceCall, Reads, build_rebalance_calls}

-- the functions that a permission may name
pub data Selector : Type 0 where
  redeem_selector deposit_selector withdraw_selector approve_selector transfer_selector : Selector

pub record Permission : Type 0 where
  pub target : String
  pub selector : Selector

pub record RebalanceResult : Type 0 where
  pub task_id : String
  pub success : Bool
  pub error : Option String

-- what `checkSmartAccountActive` returns
pub record DelegationStatus : Type 0 where
  pub active : Bool
  pub is_delegation : Bool
  pub implementation_address : Option String

-- the receipt of a user operation
pub record Receipt : Type 0 where
  pub success : Bool
  pub reason : Option String
  pub transaction_hash : String

-- a legacy session key
pub record SessionKey : Type 0 where
  pub session_private_key : Option String
  pub approved_vaults : Option (List String)
  pub eip7702_signed_auth : Option Eip7702SignedAuth

pub record Chain (S Client : Type 0) : Type 0 where
  pub reads : S → Reads
  pub check_active : String → Action S DelegationStatus
  pub expected_implementation : String
  pub deserialized_client : String → Action S Client
  pub session_client :
      String → Option String → List Permission → Option Eip7702SignedAuth → Action S Client
  pub with_builder_code : List RebalanceCall → List RebalanceCall
  pub send_user_operation : Client → List RebalanceCall → Action S String
  pub wait_for_receipt : Client → String → Action S Receipt
  pub verify_delegation : String → String → Action S Bool
  -- `eth_call`, which throws where the call reverts
  pub call : String → RebalanceCall → Action S (Unit {0})

abbrev pub permit : String → Selector → Permission
permit target selector = record { target = target; selector = selector }

abbrev pub vault_permissions : List String → List Permission
vault_permissions [] = []
vault_permissions (vault ∷ vaults) =
    permit vault redeem_selector
    ∷ permit vault deposit_selector
    ∷ permit vault withdraw_selector
    ∷ vault_permissions vaults

abbrev pub token_permissions : List String → List Permission
token_permissions [] = []
token_permissions (token ∷ tokens) =
    permit token approve_selector ∷ permit token transfer_selector ∷ token_permissions tokens

-- `tokens` are the addresses of SUPPORTED_TOKENS
unfoldable pub build_scoped_permissions : List String → List String → List Permission
build_scoped_permissions tokens approved_vaults =
    vault_permissions approved_vaults ++ token_permissions tokens

abbrev pub failed : String → String → RebalanceResult
failed task_id error = record { task_id = task_id; success = false; error = some error }

-- an account that delegates to another implementation than the expected one
unfoldable pub is_mismatched : String → DelegationStatus → Bool
is_mismatched expected status = status.is_delegation && elim status.implementation_address [
  | none ↦ true
  | some address ↦ not (to_lower address == to_lower expected)
]

-- the errors of the submission that have a result of their own
unfoldable pub send_failed : {S : Type 0} → String → Action S RebalanceResult
send_failed message =
    if includes message "paymaster"
    then pure (failed "" "Gas sponsorship failed. Paymaster may be out of funds.")
    else if includes message "nonce"
    then pure (failed "" "UserOp nonce error. Retry may be needed.")
    else throw message

abbrev pub step_name : ℕ → String
step_name zero = "redeem"
step_name (suc zero) = "approve"
step_name (suc (suc zero)) = "deposit"
step_name (suc (suc (suc _))) = "unknown"

module _ {S Client : Type 0} (chain : Chain S Client) (tokens : List String) where
  unfoldable pub create_client : String → SessionKey → Option String → Action S Client
  create_client account session serialized_account = elim (truthy serialized_account) [
    | some text ↦ chain.deserialized_client text
    | none ↦
        chain.session_client account session.session_private_key
          (elim (or_else session.approved_vaults []) [
            | [] ↦ []
            | vault ∷ vaults ↦ build_scoped_permissions tokens (vault ∷ vaults)
          ])
          session.eip7702_signed_auth
  ]

  -- after the submission
  unfoldable pub confirm : String → Client → String → Action S RebalanceResult
  confirm account client hash = chain.wait_for_receipt client hash >>= λ receipt.
      elim receipt.success [
        | false ↦ pure (
            failed receipt.transaction_hash
              ("UserOp reverted on-chain: " +++ or_default receipt.reason "unknown reason"))
        | true ↦
            chain.verify_delegation account receipt.transaction_hash
            >> pure (record { task_id = receipt.transaction_hash; success = true; error = none })
      ]

  unfoldable pub submit : String → Client → List RebalanceCall → Action S RebalanceResult
  submit account client calls s =
      let (sent, t) = chain.send_user_operation client (chain.with_builder_code calls) s in
      elim sent [ ok hash ↦ confirm account client hash t | err message ↦ send_failed message t ]

  -- an account that may be used
  unfoldable pub execute_active :
      String → RebalanceParams → SessionKey → Option String → Action S RebalanceResult
  execute_active account params session serialized_account =
      create_client account session serialized_account >>= λ client. λ s.
        elim (build_rebalance_calls (chain.reads s) params) [
          | err e ↦ throw e s
          | ok calls ↦ submit account client calls s
        ]

  -- the body of the `try`
  unfoldable pub execute_checked :
      String → RebalanceParams → SessionKey → Option String → Action S RebalanceResult
  execute_checked account params session serialized_account =
      chain.check_active account >>= λ status. elim status.active [
        | false ↦ pure (failed "" "EIP-7702 delegation not active on-chain. User must re-register.")
        | true ↦ elim (is_mismatched chain.expected_implementation status) [
          | true ↦ pure (
              failed "" (
                "EIP-7702 delegated to wrong implementation: "
                +++ or_else status.implementation_address "undefined"))
          | false ↦ execute_active account params session serialized_account
        ]
      ]

  unfoldable pub execute_rebalance :
      String → RebalanceParams → SessionKey → Option String → Action S RebalanceResult
  execute_rebalance account params session serialized_account =
      catch (execute_checked account params session serialized_account) (λ e. pure (failed "" e))

  -- every call by itself, from the i-th on
  unfoldable pub simulate_from : String → ℕ → List RebalanceCall → Action S RebalanceResult
  simulate_from account i [] s = pure (record { task_id = ""; success = true; error = none }) s
  simulate_from account i (call ∷ calls) s =
      let (r, t) = chain.call account call s in
      let rest = simulate_from account (suc i) calls t in
      elim r [
        | ok _ ↦ rest
        | err message ↦ (
          ok (
              failed "" (
                "Simulation failed at step "
                +++ to_string (i + 1)
                +++ " ("
                +++ step_name i
                +++ "): "
                +++ message)),
          t,
        )
      ]

  unfoldable pub simulate_rebalance : String → RebalanceParams → Action S RebalanceResult
  simulate_rebalance account params s = elim (build_rebalance_calls (chain.reads s) params) [
    | err e ↦ pure (failed "" e) s
    | ok calls ↦ simulate_from account 0 calls s
  ]
