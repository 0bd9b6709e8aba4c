-- ===== src/Agent/Cron/Types.antt =====
-- lib/agent/cron-orchestration-service.ts: the summary of a run, the rows it logs, and what it calls.
use tapioca_money.Base.{ℕ, suc, String, Bool, Option, none, List, [], ◌∷◌, ◌++◌}
use tapioca_money.Redis.Action.{Result, ok}
use tapioca_money.Redis.Action as Async
use tapioca_money.Redis.Cache.{Cache}
use tapioca_money.Security.Authorization.{Authorization, Eip7702SignedAuth}
use tapioca_money.Agent.Decision.{Fetched, MorphoVault, YoVault}
use tapioca_money.Agent.Rebalance.{RebalanceParams}
use tapioca_money.Agent.Oracle.{Feeds, Texts}

pub data DetailAction : Type 0 where
  rebalanced claimed skipped error : DetailAction

-- an entry of `details`
pub record Detail (N : Type 0) : Type 0 where
  pub address : String
  pub action : DetailAction
  pub reason : String
  pub apy_improvement : Option N
  pub task_id : Option String

pub record CronSummary (N : Type 0) : Type 0 where
  pub processed : ℕ
  pub rebalanced : ℕ
  pub claimed : ℕ
  pub skipped : ℕ
  pub errors : ℕ
  pub details : List (Detail N)

-- a row of the query for active users
pub record User : Type 0 where
  pub id : String
  pub wallet_address : String
  pub session_type : Option String

-- `PrefetchedVaults`
pub record PrefetchedVaults (N : Type 0) : Type 0 where
  pub morpho : List (MorphoVault N)
  pub yo : List (YoVault N)

-- the `metadata` of a logged rebalance
pub record RebalanceMetadata (N : Type 0) : Type 0 where
  pub from_vault : Option String
  pub to_vault : Option String
  pub from_apy : N
  pub to_apy : N
  pub apy_improvement : N
  pub estimated_annual_gain : N
  pub break_even_days : ℕ
  pub reason : String
  pub shares : Option String
  pub assets : Option String

pub data Metadata (N : Type 0) : Type 0 where
  rebalance_metadata : RebalanceMetadata N → Metadata N
  -- claimableAmount, userAddress
  claim_metadata : String → String → Metadata N

-- a row of `agent_actions`
pub record ActionRow (N : Type 0) : Type 0 where
  pub user_id : String
  pub action_type : String
  pub status : String
  pub from_protocol : Option String
  pub to_protocol : Option String
  pub amount_usdc : Option String
  pub tx_hash : Option String
  pub error_message : Option String
  pub metadata : Metadata N

-- what `executeRebalance` is given beside the account
pub record ExecutionArguments : Type 0 where
  pub params : RebalanceParams
  pub session_private_key : Option String
  pub approved_vaults : Option (List String)
  pub eip7702_signed_auth : Option Eip7702SignedAuth
  pub serialized_account : Option String

-- what `executeRebalance` and `executeYoRewardsClaim` return; the hash is the task's id
pub record ExecutionResult : Type 0 where
  pub success : Bool
  pub hash : Option String
  pub error : Option String

-- what `fetchClaimableRewards` returns; `raw` stands for the rewards on the chain
pub record Rewards (Raw : Type 0) : Type 0 where
  pub has_claimable : Bool
  pub total_claimable_formatted : String
  pub raw : Raw

-- What the run calls: the clock, in milliseconds, the texts that are fresh, the database, the chain, the
-- clients, and the settings. `S` is the state of all of them.
pub record World (S N Raw : Type 0) : Type 0 where
  pub cache : Cache S
  pub now : S → ℕ
  pub lock_id : S → String
  pub task_suffix : S → String
  pub feeds : S → Feeds
  pub active_users : Async.Action S (List User)
  pub authorization_of : String → Async.Action S (Option Authorization)
  pub last_claim : String → Async.Action S (Option ℕ)
  pub insert_action : ActionRow N → Async.Action S (Unit {0})
  pub decrypt : String → Async.Action S String
  -- what the clients give for a user, but for the vaults, which the run has fetched before
  pub fetched : String → S → Fetched N × S
  pub available_vaults : Async.Action S (PrefetchedVaults N)
  pub execute_rebalance : Option String → ExecutionArguments → Async.Action S ExecutionResult
  pub fetch_claimable_rewards : Option String → Async.Action S (Option (Rewards Raw))
  pub execute_claim : Option String → String → Raw → Async.Action S ExecutionResult
  pub invalidate_yo_rewards : Option String → Async.Action S (Unit {0})
  pub texts : Texts N
  -- `sanitizeErrorMessage`, `parseFloat`, `BigInt` and `formatUnits(_, 6)`
  pub sanitize : String → String
  pub parse_float : String → N
  pub to_bigint : String → Result ℕ
  pub format_units : ℕ → String
  pub yo_gateway_address : String
  pub simulation_mode : Bool
  pub claim_threshold_usd : N
  pub batch_size : ℕ
  pub concurrency : ℕ

abbrev pub create_empty_summary : {N : Type 0} → CronSummary N
create_empty_summary = record {
  processed = 0;
  rebalanced = 0;
  claimed = 0;
  skipped = 0;
  errors = 0;
  details = [];
}

-- a step of the run: the summary is an object that the steps share
abbrev pub Cron : Type 0 → Type 0 → Type 0 → Type 0
Cron S N A = Async.Action (CronSummary N × S) A

module _ {S N : Type 0} where
  -- a call that leaves the summary as it is
  abbrev pub outside : {A : Type 0} → Async.Action S A → Cron S N A
  outside m (summary, s) = let (r, s') = m s in (r, (summary, s'))

  abbrev pub update : (CronSummary N → CronSummary N) → Cron S N (Unit {0})
  update f (summary, s) = (ok tt, (f summary, s))

module _ {N : Type 0} where
  abbrev pub detail : String → DetailAction → String → Detail N
  detail address action reason = record {
    address = address;
    action = action;
    reason = reason;
    apy_improvement = none;
    task_id = none;
  }

  abbrev pub count_skipped : Detail N → CronSummary N → CronSummary N
  count_skipped entry summary = record summary {
    skipped = suc summary.skipped;
    details = summary.details ++ (entry ∷ []);
  }

  abbrev pub count_error : Detail N → CronSummary N → CronSummary N
  count_error entry summary = record summary {
    errors = suc summary.errors;
    details = summary.details ++ (entry ∷ []);
  }

  abbrev pub count_rebalanced : Detail N → CronSummary N → CronSummary N
  count_rebalanced entry summary = record summary {
    rebalanced = suc summary.rebalanced;
    details = summary.details ++ (entry ∷ []);
  }

  abbrev pub count_claimed : Detail N → CronSummary N → CronSummary N
  count_claimed entry summary = record summary {
    claimed = suc summary.claimed;
    details = summary.details ++ (entry ∷ []);
  }
