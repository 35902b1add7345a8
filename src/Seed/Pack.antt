-- ===== src/Seed/Pack.antt =====
-- A tenant's pack as the seeders read it (the YAML files under app/seed/packs): the entries that the
-- code indexes are there, and an entry that it reads by `get` may be absent.
use genesys_cx_demo_harness.Base.{ℕ, Bool, Text, Dict, ℤ, Option, List}
use genesys_cx_demo_harness.Store.{ConfigJson}

pub record GatewayCfg : Type 0 where
  pub key : Option Text
  pub model : Text
  pub wan_status : Text
  pub uptime_s : ℤ

pub record ApCfg : Type 0 where
  pub key : Text
  pub label : Text
  pub kind : Text
  pub model : Option Text
  pub status : Text
  pub backhaul_quality : ℤ

pub record RadioCfg : Type 0 where
  pub ap : Text
  pub band : Text
  pub channel : ℤ
  pub utilization : ℤ

pub record DeviceCfg : Type 0 where
  pub key : Text
  pub ap : Text
  pub label : Text
  pub kind : Option Text
  pub band : Text
  pub rssi : ℤ
  pub steer_eligible : Bool

pub record HomeProfile : Type 0 where
  pub gateway : GatewayCfg
  pub access_points : List ApCfg
  pub radios : List RadioCfg
  pub devices : List DeviceCfg

-- `pack["seed"]["network"]`
pub record NetworkCfg : Type 0 where
  pub profiles : Dict HomeProfile
  pub assign : Dict (List ℕ)

-- `pack["tenant"]`
pub record TenantCfg : Type 0 where
  pub slug : Text
  pub display_name : Text
  pub industry : Text
  pub config_json : ConfigJson

-- `pack["seed"]`
pub record SeedCfg : Type 0 where
  pub party_count : ℕ
  pub party_type : Option Text
  pub tiers : List Text
  pub identities : List Text
  pub contact_channels : List Text
  pub factor_type : Text
  pub factor_pattern : Text
  pub phone_pattern : Text
  pub account_pattern : Text
  pub email_domain : Text
  pub faker_locale : Option Text
  pub faker_seed : ℕ
  pub network : Option NetworkCfg

pub record Pack : Type 0 where
  pub tenant : TenantCfg
  pub seed : SeedCfg
