-- ===== src/Sentinel/Types.antt =====
-- sentinel/types.ts: vaults, signals, actions, incidents and results. `N` is the type of the numbers.
use tapioca_money.Base.{ℕ, String, Bool, Option, List}

-- `DexPool`, whose `chain` is always "base"
pub record DexPool : Type 0 where
  pub address : String
  pub asset : String

pub data Protocol : Type 0 where
  morpho yo : Protocol

pub record VaultExposure : Type 0 where
  pub protocol : Protocol
  pub underlying : String
  pub underlying_decimals : ℕ
  pub chainlink_feed : Option String
  pub dex_pools : List DexPool

pub record VaultConfig : Type 0 where
  pub address : String
  pub exposure : VaultExposure

pub data SignalType : Type 0 where
  dex_price oracle_price vault_flow max_redeem vault_paused share_price : SignalType

-- the text of the string literal type
abbrev pub signal_type_name : SignalType → String
signal_type_name SignalType.dex_price = "DEX_PRICE"
signal_type_name SignalType.oracle_price = "ORACLE_PRICE"
signal_type_name SignalType.vault_flow = "VAULT_FLOW"
signal_type_name SignalType.max_redeem = "MAX_REDEEM"
signal_type_name SignalType.vault_paused = "VAULT_PAUSED"
signal_type_name SignalType.share_price = "SHARE_PRICE"

pub data SignalSource : Type 0 where
  ponder rpc defillama : SignalSource

-- `number | bigint | boolean`; the bigints are amounts of tokens
pub data Value (N : Type 0) : Type 0 where
  number : N → Value N
  bigint : ℕ → Value N
  boolean : Bool → Value N

pub record Signal (N : Type 0) : Type 0 where
  pub type : SignalType
  pub vault : VaultConfig
  pub asset : Option String
  pub value : Value N
  pub timestamp : Option ℕ
  pub source : SignalSource

pub data ActionType : Type 0 where
  exit alert : ActionType

pub data ActionReason : Type 0 where
  depeg depeg_warning bank_run max_redeem_zero vault_paused : ActionReason
  share_price_drop toxic_underlying_depeg : ActionReason

pub record Action (N : Type 0) : Type 0 where
  pub type : ActionType
  pub reason : ActionReason
  pub vault_address : String
  pub protocol : Option Protocol
  pub signal_type : SignalType
  pub value : Value N

pub data ExitStatus : Type 0 where
  success failed skipped alert_only : ExitStatus

pub record ExitResult : Type 0 where
  pub user_address : String
  pub status : ExitStatus
  pub tx_hash : Option String
  pub shares : Option ℕ
  pub reason : Option String
  pub error : Option String

pub record ActiveIncident : Type 0 where
  pub vault_address : String
  pub signal_type : SignalType
  pub reason : ActionReason
  pub created_at : ℕ
  pub results : Option (List ExitResult)
