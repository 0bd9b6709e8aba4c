-- ===== src/Agent/Session.antt =====
-- lib/agent/agent-session.ts, with `isSessionValid` of lib/agent/cron-orchestration-service.ts, the other
-- test of a session's expiry. Data that is no object is none; times are in milliseconds.
pub mod Expiry
use tapioca_money.Base.{
  ℕ, ◌/◌, String, ◌==◌, Bool, true, false, not, ◌&&◌, Option, none, some, List, [], ◌∷◌, any, ltb,
  nat_eq, or_else, if◌then◌else◌,
}
use tapioca_money.Security.Authorization.{Authorization}

-- `VALID_SESSION_TYPES`
abbrev pub valid_session_types : List String
valid_session_types = "zerodev-7702-session" ∷ "zerodev-erc4337-session" ∷ []

-- `AgentSession`: its type is a string, which `fromRaw` has checked
pub record AgentSession : Type 0 where
  pub type : String
  pub auth : Authorization

unfoldable pub from_raw : Option Authorization → Option AgentSession
from_raw none = none
from_raw (some auth) = elim auth.type [
  | none ↦ none
  | some type ↦ some (record { type = type; auth = auth })
]

abbrev pub approved_vaults : Authorization → List String
approved_vaults auth = or_else auth.approved_vaults []

unfoldable pub is_valid_type : AgentSession → Bool
is_valid_type session = any (λ t. session.type == t) valid_session_types

-- `!this.auth.expiry` holds of 0 too
unfoldable pub is_expired : ℕ → AgentSession → Bool
is_expired now session = elim session.auth.expiry [
  | none ↦ false
  | some expiry ↦ not (nat_eq expiry 0) && ltb expiry (now / 1000)
]

unfoldable pub is_valid : ℕ → AgentSession → Bool
is_valid now session = is_valid_type session && not (is_expired now session)

unfoldable pub account_address : AgentSession → Option Authorization → Option String
account_address session decrypted_auth =
    if session.type == "zerodev-erc4337-session"
    then session.auth.smart_wallet_address
    else (or_else decrypted_auth session.auth).eoa_address

-- `isSessionValid`; no number is greater than undefined
unfoldable pub is_session_valid : ℕ → Option ℕ → Bool
is_session_valid now none = false
is_session_valid now (some expiry) = ltb (now / 1000) expiry
