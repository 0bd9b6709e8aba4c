-- ===== src/Sentinel/Exit/Types.antt =====
-- sentinel/exit-orchestrator.ts: the users, the positions, and what the orchestrator calls.
use tapioca_money.Base.{ℕ, String, Bool, Option, List}
use tapioca_money.Redis.Action as Async
use tapioca_money.Redis.Cache.{Cache}
use tapioca_money.Sentinel.Types.{Protocol, SignalType}

-- a row of `users`; `Auth` is the type of `authorization_7702`
pub record UserRow (Auth : Type 0) : Type 0 where
  pub wallet_address : String
  pub session_type : String
  pub auto_optimize_enabled : Bool
  pub agent_registered : Bool
  pub authorization_7702 : Option Auth
  pub smart_wallet_address : Option String

-- `UserPosition`
pub record UserPosition (Auth : Type 0) : Type 0 where
  pub user : UserRow Auth
  pub agent_address : String
  pub shares : ℕ

-- `IncidentRecord`: what a row of `sentinel_incidents` is given
pub record IncidentRecord (N : Type 0) : Type 0 where
  pub user_address : String
  pub vault_address : String
  pub protocol : Option Protocol
  pub signal_type : SignalType
  pub signal_value : Option N
  pub threshold : Option N
  pub action_taken : String
  pub tx_hash : Option String
  pub amount_redeemed : Option ℕ
  pub session_type : String

-- what `executor.redeem` returns
pub record TxResult : Type 0 where
  pub success : Bool
  pub tx_hash : Option String
  pub error : Option String

-- What the orchestrator calls. `decrypted` is the context that `decryptAuthorization` gives; the
-- executor is that of a protocol.
pub record World (S N Auth Ctx : Type 0) : Type 0 where
  pub cache : Cache S
  pub users : Async.Action S (List (UserRow Auth))
  pub balance_of : String → String → Async.Action S ℕ
  pub recent_exit : String → String → Async.Action S Bool
  pub insert_incident : IncidentRecord N → Async.Action S (Unit {0})
  pub decrypted : Option Auth → String → Async.Action S Ctx
  pub redeem : Protocol → Ctx → String → ℕ → Async.Action S TxResult
  pub sort : List (UserPosition Auth) → List (UserPosition Auth)
