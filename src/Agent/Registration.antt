-- ===== src/Agent/Registration.antt =====
-- lib/agent/resolve-registration.ts. The rows of `users` that the query gives are an argument.
pub mod Resolve
use tapioca_money.Base.{
  ℕ, String, ◌==◌, Bool, true, false, ◌&&◌, Option, none, some, List, [], ◌∷◌, map, any, find?,
  or_else, is_some, to_lower, if◌then◌else◌,
}
use tapioca_money.Redis.Action.{Action, pure, ◌>>=◌}
use tapioca_money.Sentinel.Exit.{truthy}
use tapioca_money.Security.Authorization.{Authorization, decrypt_authorization}
use tapioca_money.Agent.Session.{AgentSession, from_raw, is_valid_type, is_expired, account_address}

-- `MERKL_DISTRIBUTOR_ADDRESS_BASE`; the gateway's address is that of another package, a parameter
abbrev pub merkl_distributor_address : String
merkl_distributor_address = "0x3Ef3D8bA38EBe18DB133cEc108f4D14CE00Dd9Ae"

-- a row of `users`
pub record User : Type 0 where
  pub wallet_address : String
  pub authorization_7702 : Option Authorization
  pub agent_registered : Bool
  pub auto_optimize_enabled : Bool

pub data ResolveError : Type 0 where
  not_registered invalid_auth_type session_expired : ResolveError

-- `ResolveResult`; a success has the registered address and the data
pub data ResolveResult : Type 0 where
  resolved : String → Authorization → ResolveResult
  -- the error, the message, the status code
  refused : ResolveError → String → ℕ → ResolveResult

-- `ResolveAndDecryptResult`
pub data DecryptedResult : Type 0 where
  decrypted : String → Authorization → Authorization → Option String → DecryptedResult
  undecrypted : ResolveError → String → ℕ → DecryptedResult

abbrev pub not_found : ResolveResult
not_found =
    refused not_registered
      "Agent not registered. Please register your agent to enable vault operations." 400

pub data VaultApprovalResult : Type 0 where
  approved : VaultApprovalResult
  unapproved : String → VaultApprovalResult

unfoldable pub build_wallet_addresses : Option String → Option (List String) → Option (List String)
build_wallet_addresses wallet all_wallets = elim (or_else all_wallets []) [
  | address ∷ addresses ↦ some (map to_lower (address ∷ addresses))
  | [] ↦ elim (truthy wallet) [ none ↦ none | some address ↦ some (to_lower address ∷ []) ]
]

abbrev pub same_address : String → String → Bool
same_address a b = to_lower a == to_lower b

-- an open list, or one that has the address
abbrev pub allows : List String → String → Bool
allows [] address = true
allows (v ∷ vs) address = any (λ vault. same_address vault address) (v ∷ vs)

unfoldable pub verify_vault_approval : String → List String → String → String → VaultApprovalResult
verify_vault_approval yo_gateway_address approved_vaults vault_address protocol =
    if protocol == "merkl"
    then if allows approved_vaults merkl_distributor_address
      then approved
      else unapproved "Merkl Distributor not approved. Please re-register agent."
    else if protocol == "yo"
    then if allows approved_vaults yo_gateway_address
      then approved
      else unapproved "YO Gateway not approved. Please re-register agent."
    else if allows approved_vaults vault_address
    then approved
    else unapproved "Vault not approved. Please re-register agent with updated vault list."

-- the `UPDATE`
unfoldable pub reset_agent_registration : String → List User → List User
reset_agent_registration wallet_address users =
    map
      (λ (user : User).
        if user.wallet_address == wallet_address
        then record user {
          authorization_7702 = none;
          agent_registered = false;
          auto_optimize_enabled = false;
        }
        else user)
      users

-- the `WHERE` of the query
abbrev pub is_registered : List String → User → Bool
is_registered addresses user =
    any (λ address. user.wallet_address == address) addresses && is_some user.authorization_7702

-- the row that was found
unfoldable pub resolve_row : ℕ → String → Authorization → ResolveResult
resolve_row now registered_address data_of = elim (from_raw (some data_of)) [
  | none ↦ refused invalid_auth_type "Invalid authorization type. Please re-register agent." 400
  | some session ↦ elim (is_valid_type session) [
    | false ↦ refused invalid_auth_type "Invalid authorization type. Please re-register agent." 400
    | true ↦ elim (is_expired now session) [
      | true ↦ refused session_expired "Session key expired. Please re-register agent." 400
      | false ↦ resolved registered_address data_of
    ]
  ]
]

unfoldable pub resolve_agent_registration : ℕ → List User → List String → ResolveResult
resolve_agent_registration now users addresses = elim (find? (is_registered addresses) users) [
  | none ↦ not_found
  | some user ↦ elim user.authorization_7702 [
    | none ↦ not_found
    | some data_of ↦ resolve_row now user.wallet_address data_of
  ]
]

-- `new AgentSession(authorizationData)` has the type that was checked
abbrev pub account_of : Authorization → Authorization → Option String
account_of data_of decrypted_auth = elim (from_raw (some data_of)) [
  | none ↦ none
  | some session ↦ account_address session (some decrypted_auth)
]

module _ {S : Type 0} where
  unfoldable pub resolve_and_decrypt_registration :
      (String → Action S String) → ℕ → List User → List String → Action S DecryptedResult
  resolve_and_decrypt_registration decrypt now users addresses =
      elim (resolve_agent_registration now users addresses) [
        | refused error message status ↦ pure (undecrypted error message status)
        | resolved address data_of ↦ decrypt_authorization decrypt data_of >>= λ auth.
            pure (decrypted address data_of auth (account_of data_of auth))
      ]
