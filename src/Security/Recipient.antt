-- ===== src/Security/Recipient.antt =====
-- lib/zerodev/transfer-recipient-validator.ts. viem's `isAddress` is a parameter; the set of blocked
-- addresses is the state.
pub mod Valid
use tapioca_money.Base.{
  String, ◌==◌, Bool, true, false, Option, none, some, List, [], ◌∷◌, map, any, or_else, is_empty,
  not, ◌&&◌, to_lower, ◌+++◌, if◌then◌else◌,
}
use tapioca_money.Redis.Action.{Action, pure, throw}

abbrev pub zero_address : String
zero_address = "0x0000000000000000000000000000000000000000"

-- `BLOCKED_CONTRACT_ADDRESSES`, as it begins
abbrev pub blocked_contract_addresses : List String
blocked_contract_addresses = map to_lower (
    "0x833589fCD6eDb6E08f4c7C32D4f71b54bdA02913" ∷ "0x0000000071727De22E5E9d8BAf0edAc6f37da032"
    ∷ "0x3Ef3D8bA38EBe18DB133cEc108f4D14CE00Dd9Ae" ∷ [])

pub record RecipientValidationResult : Type 0 where
  pub valid : Bool
  pub reason : Option String

abbrev pub invalid : String → RecipientValidationResult
invalid reason = record { valid = false; reason = some reason }

-- `set.has(address)`
abbrev pub has : List String → String → Bool
has addresses address = any (λ a. a == address) addresses

module _ (is_address : String → Bool) where
  unfoldable pub validate_transfer_recipient :
      List String → String → String → Option (List String) → RecipientValidationResult
  validate_transfer_recipient blocked recipient sender_address approved_vaults =
      if not (is_empty recipient) && is_address recipient
      then if to_lower recipient == to_lower zero_address
        then invalid "Cannot transfer to the zero address"
        else if to_lower recipient == to_lower sender_address
        then invalid "Cannot transfer to your own address"
        else if has blocked (to_lower recipient)
        then invalid
            "Recipient is a known contract address — direct transfers would result in lost funds"
        else if has (map to_lower (or_else approved_vaults [])) (to_lower recipient)
        then invalid
            "Recipient is a vault contract — use deposit/withdraw instead of direct transfer"
        else record { valid = true; reason = none }
      else invalid "Invalid recipient address format"

  unfoldable pub add_blocked_address : String → Action (List String) (Unit {0})
  add_blocked_address address blocked =
      if is_address address
      then pure tt (to_lower address ∷ blocked)
      else throw ("Invalid address: " +++ address) blocked

  unfoldable pub is_address_blocked : List String → String → Bool
  is_address_blocked blocked address = is_address address && has blocked (to_lower address)
