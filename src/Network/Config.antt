-- ===== src/Network/Config.antt =====
-- The module's defaults with the tenant's overrides on top (app/modules/network/config.py).
use genesys_cx_demo_harness.Base.{Text, lit, Dict, merge, ℤ, pos, negsuc, List, [], ◌∷◌, get_or}
use genesys_cx_demo_harness.Store.{Tenant, NetworkOverride, CoverageOverride}

pub record CoverageConfig : Type 0 where
  pub edge_rssi_5ghz_dbm : ℤ
  pub edge_rssi_24ghz_dbm : ℤ
  pub min_cluster_size : ℤ
  pub single_worst_rssi_dbm : ℤ

pub record NetworkConfig : Type 0 where
  pub poor_rssi_dbm : ℤ
  pub steer_target_band : Text
  pub steer_rssi_gain_db : ℤ
  pub steer_rssi_ceiling_dbm : ℤ
  pub flapping_ap_statuses : List Text
  pub poor_backhaul_quality : ℤ
  pub healthy_backhaul_quality : ℤ
  pub wan_ok_statuses : List Text
  pub coverage : CoverageConfig
  pub fault_precedence : List Text
  pub recommended_actions : Dict Text

-- `DEFAULTS`; `negsuc n` is -(n + 1).
abbrev pub defaults : NetworkConfig
defaults = record {
  poor_rssi_dbm = negsuc 69;
  steer_target_band = lit "5";
  steer_rssi_gain_db = pos 22;
  steer_rssi_ceiling_dbm = negsuc 44;
  flapping_ap_statuses = lit "flapping" ∷ lit "offline" ∷ [];
  poor_backhaul_quality = pos 40;
  healthy_backhaul_quality = pos 92;
  wan_ok_statuses = lit "online" ∷ [];
  coverage = record {
    edge_rssi_5ghz_dbm = negsuc 59;
    edge_rssi_24ghz_dbm = negsuc 67;
    min_cluster_size = pos 2;
    single_worst_rssi_dbm = negsuc 57;
  };
  fault_precedence = lit "wan_degraded" ∷ lit "device_band_stuck" ∷ lit "extender_flapping" ∷ [];
  recommended_actions =
      (lit "wan_degraded", lit "escalate")
      ∷ (lit "device_band_stuck", lit "band-steer")
      ∷ (lit "extender_flapping", lit "reboot-extender")
      ∷ (lit "none", lit "none")
      ∷ [];
}

-- `{**DEFAULTS["coverage"], **override}`
layer_coverage : CoverageConfig → CoverageOverride → CoverageConfig
layer_coverage d o = record {
  edge_rssi_5ghz_dbm = get_or o.edge_rssi_5ghz_dbm d.edge_rssi_5ghz_dbm;
  edge_rssi_24ghz_dbm = get_or o.edge_rssi_24ghz_dbm d.edge_rssi_24ghz_dbm;
  min_cluster_size = get_or o.min_cluster_size d.min_cluster_size;
  single_worst_rssi_dbm = get_or o.single_worst_rssi_dbm d.single_worst_rssi_dbm;
}

-- `{**DEFAULTS, **override}`, the nested mappings merged key by key.
layer : NetworkConfig → NetworkOverride → NetworkConfig
unfolding layer_coverage
layer d o = record {
  poor_rssi_dbm = get_or o.poor_rssi_dbm d.poor_rssi_dbm;
  steer_target_band = get_or o.steer_target_band d.steer_target_band;
  steer_rssi_gain_db = get_or o.steer_rssi_gain_db d.steer_rssi_gain_db;
  steer_rssi_ceiling_dbm = get_or o.steer_rssi_ceiling_dbm d.steer_rssi_ceiling_dbm;
  flapping_ap_statuses = get_or o.flapping_ap_statuses d.flapping_ap_statuses;
  poor_backhaul_quality = get_or o.poor_backhaul_quality d.poor_backhaul_quality;
  healthy_backhaul_quality = get_or o.healthy_backhaul_quality d.healthy_backhaul_quality;
  wan_ok_statuses = get_or o.wan_ok_statuses d.wan_ok_statuses;
  coverage = layer_coverage d.coverage o.coverage;
  fault_precedence = get_or o.fault_precedence d.fault_precedence;
  recommended_actions = merge d.recommended_actions o.recommended_actions;
}

unfoldable pub network_config : Tenant → NetworkConfig
unfolding layer
network_config tenant = layer defaults tenant.config_json.network
