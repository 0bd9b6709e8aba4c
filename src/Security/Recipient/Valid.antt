-- ===== src/Security/Recipient/Valid.antt =====
-- Which recipients are valid.
use tapioca_money.Base.{
  String, ◌==◌, ◌≡◌, ◌↔◌, Bool, true, false, Option, List, [], map, or_else, is_empty, to_lower,
  arith,
}
use tapioca_money.Security.Recipient.{zero_address, has, validate_transfer_recipient}

module _ (is_address : String → Bool) where
  -- A recipient is valid exactly if it is an address, not the zero address, not the sender, not blocked and
  -- none of the approved vaults, in whatever case they are written.
  pub validate_transfer_recipient_iff :
      (blocked : List String) (recipient sender : String) (vaults : Option (List String))
      → ((validate_transfer_recipient is_address blocked recipient sender vaults).valid ≡ true) ↔ (
          (is_empty recipient ≡ false)
          × (is_address recipient ≡ true)
          × ((to_lower recipient == to_lower zero_address) ≡ false)
          × ((to_lower recipient == to_lower sender) ≡ false)
          × (has blocked (to_lower recipient) ≡ false)
          × (has (map to_lower (or_else vaults [])) (to_lower recipient) ≡ false))
  unfolding validate_transfer_recipient
  validate_transfer_recipient_iff blocked recipient sender vaults = ground arith
