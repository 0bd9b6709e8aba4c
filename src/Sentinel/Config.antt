-- ===== src/Sentinel/Config.antt =====
-- sentinel/config.ts: the exposure map and the thresholds.
use tapioca_money.Base.{ℕ, ◌*◌, none, [], ◌∷◌}
use tapioca_money.Base.Dict.{Dict}
use tapioca_money.Base.Double.{Double}
use tapioca_money.Sentinel.Types.{VaultExposure, morpho}

-- `VAULT_EXPOSURE_MAP`
abbrev pub vault_exposure_map : Dict VaultExposure
vault_exposure_map =
    (
      "0xc1256Ae5FF1cf2719D4937adb3bbCCab2E00A2Ca",
      record {
        protocol = morpho;
        underlying = "USDC";
        underlying_decimals = 6;
        chainlink_feed = none;
        dex_pools = [];
      },
    )
    ∷ (
      "0xbeeF010f9cb27031ad51e3333f9aF9C6B1228183",
      record {
        protocol = morpho;
        underlying = "USDC";
        underlying_decimals = 6;
        chainlink_feed = none;
        dex_pools = [];
      },
    )
    ∷ []

-- `THRESHOLDS`: the fractions
module _ {N : Type 0} ⦃d : Double N⦄ where
  abbrev pub depeg_exit_pct : N
  depeg_exit_pct = d.decimal 3 2

  abbrev pub depeg_warn_pct : N
  depeg_warn_pct = d.decimal 15 3

  abbrev pub tvl_drop_exit_pct : N
  tvl_drop_exit_pct = d.decimal 15 2

  abbrev pub share_price_drop_pct : N
  share_price_drop_pct = d.decimal 2 2

-- `THRESHOLDS`: the counts and times
abbrev pub consecutive_polls_required : ℕ
consecutive_polls_required = 2

abbrev pub tvl_window_ms : ℕ
tvl_window_ms = 30 * 60 * 1000

abbrev pub share_price_window_ms : ℕ
share_price_window_ms = 15 * 60 * 1000

abbrev pub ponder_stale_seconds : ℕ
ponder_stale_seconds = 60

abbrev pub incident_ttl_seconds : ℕ
incident_ttl_seconds = 3600
