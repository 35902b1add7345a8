-- ===== src/Store/Home.antt =====
-- A subscriber's home network (app/modules/network/models.py).
use genesys_cx_demo_harness.Base.{ℕ, Bool, Text, ℤ}

pub record Gateway : Type 0 where
  pub gateway_id : ℕ
  pub tenant_id : ℕ
  pub party_id : ℕ
  pub seed_key : Text
  pub model : Text
  pub wan_status : Text
  pub uptime_s : ℤ

pub record AccessPoint : Type 0 where
  pub ap_id : ℕ
  pub tenant_id : ℕ
  pub party_id : ℕ
  pub seed_key : Text
  pub label : Text
  pub kind : Text
  pub model : Text
  pub status : Text
  pub backhaul_quality : ℤ

pub record Radio : Type 0 where
  pub radio_id : ℕ
  pub tenant_id : ℕ
  pub party_id : ℕ
  pub ap_id : ℕ
  pub seed_key : Text
  pub band : Text
  pub channel : ℤ
  pub utilization : ℤ

pub record ConnectedDevice : Type 0 where
  pub device_id : ℕ
  pub tenant_id : ℕ
  pub party_id : ℕ
  pub connected_ap_id : ℕ
  pub seed_key : Text
  pub label : Text
  pub kind : Text
  pub mac : Text
  pub band : Text
  pub rssi : ℤ
  pub steer_eligible : Bool
