-- ===== src/Security/Authorization.antt =====
-- lib/security/session-encryption.ts. One record holds the fields of the three variants of an
-- authorization; a field that a variant or a stored document lacks is none. `encrypt` and `decrypt` are
-- those of lib/security/encryption.ts, which may throw.
use tapioca_money.Base.{ℕ, String, Bool, true, false, ◌||◌, Option, none, some, List, is_empty}
use tapioca_money.Redis.Action.{Action, pure, ◌>>=◌}
use tapioca_money.Security.Encryption.{is_encrypted}

-- `eip7702SignedAuth`
pub record Eip7702SignedAuth : Type 0 where
  pub r : String
  pub s : String
  pub y_parity : ℕ
  pub v : Option String
  pub address : String
  pub chain_id : ℕ
  pub nonce : ℕ

-- `policyConfig`: what gas is allowed, and the operations in an interval
pub record PolicyConfig : Type 0 where
  pub allowed : String
  pub count : ℕ
  pub interval : ℕ

pub record Authorization : Type 0 where
  pub type : Option String
  pub eoa_address : Option String
  pub smart_wallet_address : Option String
  pub session_key_address : String
  pub serialized_account : Option String
  pub approved_vaults : Option (List String)
  -- seconds since the epoch
  pub expiry : Option ℕ
  pub timestamp : Option ℕ
  pub session_private_key : Option String
  pub eip7702_signed_auth : Option Eip7702SignedAuth
  pub policy_config : Option PolicyConfig
  -- of a transfer session
  pub smart_account_address : Option String
  pub created_at : Option ℕ

-- `field in cloned && cloned[field] && !isEncrypted(cloned[field])`
abbrev pub encrypt_field :
    {S : Type 0} → (String → Action S String) → Option String → Action S (Option String)
encrypt_field encrypt none = pure none
encrypt_field encrypt (some text) = elim (is_empty text || is_encrypted text) [
  | true ↦ pure (some text)
  | false ↦ encrypt text >>= λ sealed. pure (some sealed)
]

-- `field in cloned && cloned[field]`
abbrev pub decrypt_field :
    {S : Type 0} → (String → Action S String) → Option String → Action S (Option String)
decrypt_field decrypt none = pure none
decrypt_field decrypt (some text) = elim (is_empty text) [
  | true ↦ pure (some text)
  | false ↦ decrypt text >>= λ plain. pure (some plain)
]

module _ {S : Type 0} where
  unfoldable pub encrypt_authorization :
      (String → Action S String) → Authorization → Action S Authorization
  encrypt_authorization encrypt auth = do
    account ← encrypt_field encrypt auth.serialized_account
    private ← encrypt_field encrypt auth.session_private_key
    pure (record auth { serialized_account = account; session_private_key = private })

  unfoldable pub decrypt_authorization :
      (String → Action S String) → Authorization → Action S Authorization
  decrypt_authorization decrypt auth = do
    account ← decrypt_field decrypt auth.serialized_account
    private ← decrypt_field decrypt auth.session_private_key
    pure (record auth { serialized_account = account; session_private_key = private })

abbrev pub is_field_encrypted : Option String → Bool
is_field_encrypted none = false
is_field_encrypted (some text) = is_encrypted text

unfoldable pub is_authorization_encrypted : Authorization → Bool
is_authorization_encrypted auth =
    is_field_encrypted auth.serialized_account || is_field_encrypted auth.session_private_key
