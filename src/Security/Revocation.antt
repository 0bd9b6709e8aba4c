-- ===== src/Security/Revocation.antt =====
-- lib/security/session-revocation.ts, over any cache.
use tapioca_money.Base.{ℕ, ◌*◌, String, Bool, some, is_some, to_lower, to_string, ◌+++◌}
use tapioca_money.Redis.Action.{Action, pure, ◌>>=◌, ◌>>◌}
use tapioca_money.Redis.Cache.{Cache}

-- `REVOCATION_TTL`
abbrev pub revocation_ttl : ℕ
revocation_ttl = 7 * 24 * 60 * 60

unfoldable pub revocation_key : String → String
revocation_key session_key_address = "session:revoked:" +++ to_lower session_key_address

module _ {S : Type 0} (c : Cache S) where
  unfoldable pub revoke_session : ℕ → String → Action S (Unit {0})
  revoke_session now session_key_address =
      c.connect
      >> c.set now (revocation_key session_key_address) (to_string now) (some revocation_ttl)

  unfoldable pub is_session_revoked : ℕ → String → Action S Bool
  is_session_revoked now session_key_address =
      c.connect
      >> (c.get now (revocation_key session_key_address) >>= λ value. pure (is_some value))
