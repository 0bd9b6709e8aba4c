-- ===== src/Agent/VaultOperation.antt =====
-- lib/agent/vault-operation-service.ts with lib/agent/vault-executor.ts and the executors of both
-- protocols. The functions of lib/zerodev that the executors wrap and the database are operations of
-- `Service`; the executors keep no state, so that the cache of `getExecutor` is left out.
pub mod Outcome
use tapioca_money.Base.{
  ℕ, String, ◌==◌, Bool, true, false, ◌||◌, Option, none, some, List, [], ◌∷◌, find?, includes,
  to_lower, or_else, if◌then◌else◌,
}
use tapioca_money.Redis.Action.{Result, ok, err, Action, pure, catch, ◌>>=◌, ◌>>◌}
use tapioca_money.Redis.Cache.{Cache}
use tapioca_money.Redis.Budget.{increment_user_op_count}
use tapioca_money.Sentinel.Exit.{truthy, or_default}
use tapioca_money.Security.Authorization.{Authorization, Eip7702SignedAuth}

pub record ExecutorContext : Type 0 where
  pub smart_account_address : String
  pub serialized_account : String
  pub decrypted_auth : Authorization
  pub approved_vaults : List String

pub data RedeemStatus : Type 0 where
  instant queued : RedeemStatus

-- `DepositResult` and `RedeemResult`; a deposit has no status
pub record VaultResult : Type 0 where
  pub success : Bool
  pub tx_hash : Option String
  pub user_op_hash : Option String
  pub error : Option String
  pub redeem_status : Option RedeemStatus

-- what an operation gives, or the error that it throws
pub data Reply (A : Type 0) : Type 0 where
  replied : A → Reply A
  -- `DepositError`, with its code
  deposit_error : String → String → Reply A
  -- `VaultOperationError`
  operation_error : String → Reply A
  other_error : String → Reply A

-- `DepositRequest` and `RedeemRequest`; the quantity is an amount or a number of shares, as a text
pub record OperationRequest (Q : Type 0) : Type 0 where
  pub user_wallet_address : String
  pub vault_address : String
  pub quantity : Q
  pub protocol : String
  pub ctx : ExecutorContext

-- `DepositResponse` and `RedeemResponse`
pub record OperationResponse : Type 0 where
  pub tx_hash : Option String
  pub user_op_hash : Option String
  pub redeem_status : Option RedeemStatus

-- the legacy fields of a 7702 session
pub record LegacyFields : Type 0 where
  pub session_private_key : Option String
  pub eip7702_signed_auth : Option Eip7702SignedAuth

-- a vault of YO_VAULTS, with its underlying token on Base
pub record YoVaultConfig : Type 0 where
  pub address : String
  pub underlying_address : Option String
  pub underlying_decimals : ℕ

-- a row of `agent_actions`, with the wallet for the user's id
pub record OperationRow : Type 0 where
  pub wallet_address : String
  pub action_type : String
  pub status : String
  pub from_protocol : String
  pub to_protocol : String
  pub amount_usdc : String
  pub tx_hash : Option String
  pub error_message : Option String
  pub vault_address : String

pub record Service (S : Type 0) : Type 0 where
  pub cache : Cache S
  pub now : S → ℕ
  pub gasless_deposit :
      ExecutorContext → String → String → Option LegacyFields → Action S VaultResult
  pub vault_redeem :
      ExecutorContext → String → ℕ → String → Option LegacyFields → Action S VaultResult
  pub yo_deposit : ExecutorContext → String → String → String → ℕ → Action S VaultResult
  pub yo_redeem : ExecutorContext → String → ℕ → String → Action S VaultResult
  pub yo_vaults : List YoVaultConfig
  pub insert_action : OperationRow → Action S (Unit {0})
  pub show_shares : ℕ → String

unfoldable pub extract_legacy_7702_fields : Authorization → Option LegacyFields
extract_legacy_7702_fields auth = elim auth.type [
  | none ↦ none
  | some type ↦
      if type == "zerodev-7702-session"
      then some (record {
        session_private_key = auth.session_private_key;
        eip7702_signed_auth = auth.eip7702_signed_auth;
      })
      else none
]

unfoldable pub classify_redeem_error : Option String → String
classify_redeem_error error = elim (truthy error) [
  | none ↦ "Vault redeem failed"
  | some text ↦
      if includes text "0xace2a47e"
      then "This vault rejected the redeem (error 0xace2a47e). The vault may restrict access to agent-operated accounts. Please redeem directly from your wallet."
      else if includes text "operation limit" || includes text "0x3e4983f6"
      then "Agent daily operation limit reached. Please re-register your agent to reset the limit, or try again tomorrow."
      else if includes text "AA23" || includes text "validateUserOp"
      then "Session key validation failed. Please re-register your agent."
      else text
]

abbrev pub response_of : VaultResult → OperationResponse
response_of result = record {
  tx_hash = result.tx_hash;
  user_op_hash = result.user_op_hash;
  redeem_status = result.redeem_status;
}

module _ {S : Type 0} (service : Service S) where
  -- an error that is thrown with no code
  abbrev pub reply : Result VaultResult × S → Reply VaultResult × S
  reply (ok result, s) = (replied result, s)
  reply (err message, s) = (other_error message, s)

  unfoldable pub morpho_deposit : ExecutorContext → String → String → S → Reply VaultResult × S
  morpho_deposit ctx vault amount s =
      reply
        (service.gasless_deposit ctx vault amount (extract_legacy_7702_fields ctx.decrypted_auth) s)

  unfoldable pub yo_vault_deposit : ExecutorContext → String → String → S → Reply VaultResult × S
  yo_vault_deposit ctx vault amount s =
      elim (find? (λ (v : YoVaultConfig). to_lower v.address == to_lower vault) service.yo_vaults) [
        | none ↦ (deposit_error "UNKNOWN_VAULT" "Unknown YO vault address", s)
        | some config ↦ elim (truthy config.underlying_address) [
          | none ↦ (deposit_error "CHAIN_UNSUPPORTED" "YO vault not available on Base", s)
          | some underlying ↦
              reply (service.yo_deposit ctx vault amount underlying config.underlying_decimals s)
        ]
      ]

  -- `getExecutor(protocol).deposit` and `.redeem`: every protocol but YO is Morpho's
  unfoldable pub executor_deposit :
      String → ExecutorContext → String → String → S → Reply VaultResult × S
  executor_deposit protocol ctx vault amount =
      if to_lower protocol == "yo"
      then yo_vault_deposit ctx vault amount
      else morpho_deposit ctx vault amount

  unfoldable pub executor_redeem : String → ExecutorContext → String → ℕ → Action S VaultResult
  executor_redeem protocol ctx vault shares =
      if to_lower protocol == "yo"
      then service.yo_redeem ctx vault shares ctx.smart_account_address
      else service.vault_redeem ctx vault shares ctx.smart_account_address
          (extract_legacy_7702_fields ctx.decrypted_auth)

  -- The table's failure is swallowed.
  unfoldable pub log_deposit_action :
      OperationRequest String → Option String → String → Option String → Action S (Unit {0})
  log_deposit_action req tx_hash status error_message =
      catch
        (service.insert_action (record {
          wallet_address = to_lower req.user_wallet_address;
          action_type = "deposit";
          status = status;
          from_protocol = "wallet";
          to_protocol = req.protocol;
          amount_usdc = req.quantity;
          tx_hash = truthy tx_hash;
          error_message = truthy error_message;
          vault_address = req.vault_address;
        }))
        (λ _. pure tt)

  unfoldable pub log_redeem_action :
      OperationRequest ℕ → Option String → String → Option String → Action S (Unit {0})
  log_redeem_action req tx_hash status error_message =
      catch
        (service.insert_action (record {
          wallet_address = to_lower req.user_wallet_address;
          action_type = "redeem";
          status = status;
          from_protocol = req.protocol;
          to_protocol = "wallet";
          amount_usdc = service.show_shares req.quantity;
          tx_hash = truthy tx_hash;
          error_message = truthy error_message;
          vault_address = req.vault_address;
        }))
        (λ _. pure tt)

  -- the logs and the count never throw, so that only their state goes on
  unfoldable pub deposit : OperationRequest String → S → Reply OperationResponse × S
  deposit req s =
      let (r, t) = executor_deposit req.protocol req.ctx req.vault_address req.quantity s in
      elim r [
        | replied result ↦ elim result.success [
          | true ↦ (
            replied (response_of result),
            (log_deposit_action req result.tx_hash "success" none t).1,
          )
          | false ↦ (
            operation_error (or_default result.error "Vault deposit failed"),
            (log_deposit_action req none "failed" result.error t).1,
          )
        ]
        | deposit_error code message ↦
            (deposit_error code message, (log_deposit_action req none "failed" (some message) t).1)
        | operation_error message ↦ (operation_error message, t)
        | other_error message ↦ (other_error message, t)
      ]

  -- the log and the count of a redeem that went through
  abbrev pub after_redeem : OperationRequest ℕ → VaultResult → S → S
  after_redeem req result t =
      let t' = (log_redeem_action req result.tx_hash "success" none t).1 in
      (increment_user_op_count service.cache (service.now t') req.user_wallet_address t').1

  unfoldable pub redeem : OperationRequest ℕ → S → Reply OperationResponse × S
  redeem req s =
      let (r, t) = executor_redeem req.protocol req.ctx req.vault_address req.quantity s in
      elim r [
        | err message ↦ (other_error message, t)
        | ok result ↦ elim result.success [
          | true ↦ (replied (response_of result), after_redeem req result t)
          | false ↦ (
            operation_error (classify_redeem_error result.error),
            (log_redeem_action req none "failed" result.error t).1,
          )
        ]
      ]
