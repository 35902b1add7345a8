-- ===== src/Store/Settings.antt =====
-- The tenant's `config_json` as the code reads it: each override is a field that may be absent.
use genesys_cx_demo_harness.Base.{ℕ, Bool, Text, Dict, ℤ, Option, List}

-- `config_json.network.coverage`
pub record CoverageOverride : Type 0 where
  pub edge_rssi_5ghz_dbm : Option ℤ
  pub edge_rssi_24ghz_dbm : Option ℤ
  pub min_cluster_size : Option ℤ
  pub single_worst_rssi_dbm : Option ℤ

-- `config_json.network`
pub record NetworkOverride : Type 0 where
  pub poor_rssi_dbm : Option ℤ
  pub steer_target_band : Option Text
  pub steer_rssi_gain_db : Option ℤ
  pub steer_rssi_ceiling_dbm : Option ℤ
  pub flapping_ap_statuses : Option (List Text)
  pub poor_backhaul_quality : Option ℤ
  pub healthy_backhaul_quality : Option ℤ
  pub wan_ok_statuses : Option (List Text)
  pub coverage : CoverageOverride
  pub fault_precedence : Option (List Text)
  pub recommended_actions : Dict Text

-- `config_json.masked_name` and `config_json.masked_email`
pub record MaskOverride : Type 0 where
  pub reveal_chars : Option ℤ
  pub mask_char : Option Text
  pub mask_length : Option ℤ

-- The right-hand side of an eligibility rule: `bool(value)`, `int(value)` or the texts of a list,
-- whichever its predicate asks for.
pub record RuleValue : Type 0 where
  pub truth : Bool
  pub number : ℤ
  pub texts : List Text

-- One entry of `config_json.offers.catalogue`. The price is in pence.
pub record OfferEntry : Type 0 where
  pub offer_id : Text
  pub name : Text
  pub price_gbp : ℕ
  pub reason : Option Text
  pub eta_text : Option Text
  pub eligibility : Dict RuleValue

-- `config_json.offers`
pub record OffersConfig : Type 0 where
  pub default_eta_text : Option Text
  pub catalogue : List OfferEntry

-- `config_json`
pub record ConfigJson : Type 0 where
  pub country : Option Text
  pub network : NetworkOverride
  pub masked_name : MaskOverride
  pub masked_email : MaskOverride
  pub offers : OffersConfig
