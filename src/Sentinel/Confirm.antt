-- ===== src/Sentinel/Confirm.antt =====
-- sentinel/rules-engine.ts: the buffer of confirmations, the toxicity test, and the keys.
use tapioca_money.Base.{
  ℕ, ◌+◌, String, Bool, false, Option, some, none, List, [], ◌∷◌, leb, ◌==◌, if◌then◌else◌,
  is_empty, to_lower, ◌+++◌,
}
use tapioca_money.Base.Dict
use tapioca_money.Base.Dict.{Dict}
use tapioca_money.Sentinel.Types.{SignalType, signal_type_name}
use tapioca_money.Sentinel.Config.{vault_exposure_map}

pub record ConfirmationEntry : Type 0 where
  pub count : ℕ
  pub first_seen : ℕ

abbrev pub Buffer : Type 0
Buffer = Dict ConfirmationEntry

unfoldable pub confirm_consecutive : String → ℕ → ℕ → Buffer → Bool × Buffer
confirm_consecutive key required_count now buffer = elim (Dict.get key buffer) [
  | none ↦ (false, Dict.set key (record { count = 1; first_seen = now }) buffer)
  | some entry ↦ (
    leb required_count (entry.count + 1),
    Dict.set key (record entry { count = entry.count + 1 }) buffer,
  )
]

unfoldable pub clear_confirmation : String → Buffer → Buffer
clear_confirmation key buffer = Dict.delete key buffer

-- `depegAsset?`: absent and empty alike are no asset
unfoldable pub is_underlying_toxic : String → Option String → Bool
is_underlying_toxic vault_address none = false
is_underlying_toxic vault_address (some depeg_asset) =
    if is_empty depeg_asset then false else elim (Dict.get vault_address vault_exposure_map) [
      | none ↦ false
      | some exposure ↦ to_lower exposure.underlying == to_lower depeg_asset
    ]

-- `${vault.address}:${type}`, the key of incidents, windows and confirmations
unfoldable pub signal_key : String → SignalType → String
signal_key address type = address +++ ":" +++ signal_type_name type

-- the last of a list that has a first element
abbrev pub last_from {ℓ} : {A : Type ℓ} → A → List A → A
last_from x [] = x
last_from x (y ∷ ys) = last_from y ys
