-- ===== src/Store/Spine.antt =====
-- The customer spine (app/core/models.py).
use genesys_cx_demo_harness.Base.{ℕ, Bool, Text, Option}
use genesys_cx_demo_harness.Store.Settings.{ConfigJson}

pub record Tenant : Type 0 where
  pub tenant_id : ℕ
  pub slug : Text
  pub display_name : Text
  pub industry : Text
  pub config_json : ConfigJson

pub record Party : Type 0 where
  pub party_id : ℕ
  pub tenant_id : ℕ
  pub party_type : Text
  pub display_name : Text
  pub tier : Option Text

pub record Identity : Type 0 where
  pub identity_id : ℕ
  pub tenant_id : ℕ
  pub party_id : ℕ
  pub id_type : Text
  pub value : Text
  pub is_primary : Bool

pub record Verification : Type 0 where
  pub verification_id : ℕ
  pub party_id : ℕ
  pub factor_type : Text
  pub value_hash : Text

pub record ContactPoint : Type 0 where
  pub contact_point_id : ℕ
  pub party_id : ℕ
  pub channel : Text
  pub value : Text
  pub consent : Bool
