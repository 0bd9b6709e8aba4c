-- ===== src/Agent/VaultOperation/Outcome.antt =====
-- What the operations on a vault promise.
use tapioca_money.Base.{String, ◌≡◌, Option, arith}
use tapioca_money.Redis.Action.{ok}
use tapioca_money.Agent.VaultOperation.{Service, OperationRequest, log_deposit_action}

module _ {S : Type 0} (service : Service S) where
  -- the log of a deposit never throws, so that `deposit` may drop its result
  pub log_deposit_action-ok :
      (req : OperationRequest String) (tx_hash : Option String) (status : String)
      (error_message : Option String) (s : S)
      → (log_deposit_action service req tx_hash status error_message s).0 ≡ ok tt
  unfolding log_deposit_action
  log_deposit_action-ok req tx_hash status error_message s = ground arith
