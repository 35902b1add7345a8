-- ===== src/Gx/Schemas.antt =====
-- The flat request and response shapes (app/gx/schemas.py), with their defaults as constants.
use genesys_cx_demo_harness.Base.{ℕ, Bool, false, Text, lit, ℤ, pos, []}
use genesys_cx_demo_harness.Network.Actions
use genesys_cx_demo_harness.Network.Coverage.{Note, silent}
use genesys_cx_demo_harness.Network.Devices.{Phrase}
use genesys_cx_demo_harness.Orders.Actions as OrderActions

pub record CustomerContextOut : Type 0 where
  pub found : Bool
  pub party_id : Text
  pub display_name : Text
  pub tenant_slug : Text
  pub tier : Text
  pub verified : Bool
  pub last_channel : Text
  pub id_type_resolved : Text

pub record VerifyCustomerIn : Type 0 where
  pub identifier : Text
  pub factor_type : Text
  pub factor_value : Text

pub record VerifyCustomerOut : Type 0 where
  pub verified : Bool
  pub party_id : Text
  pub masked_name : Text

pub record NetDiagnosticsOut : Type 0 where
  pub found : Bool
  pub party_id : Text
  pub fault_type : Text
  pub primary_target : Text
  pub primary_target_kind : Text
  pub primary_target_label : Text
  pub recommended_action : Text
  pub wan_ok : Bool
  pub worst_device_band : Text
  pub worst_device_rssi : ℤ
  pub extender_status : Text

pub record NetStatusOut : Type 0 where
  pub found : Bool
  pub party_id : Text
  pub healthy : Bool
  pub fault_type : Text
  pub wan_ok : Bool
  pub wan_status : Text
  pub gateway_model : Text
  pub gateway_uptime_s : ℤ
  pub ap_total : ℕ
  pub ap_online : ℕ
  pub extender_status : Text
  pub device_total : ℕ
  pub devices_on_target_band : ℕ
  pub worst_device_label : Text
  pub worst_device_band : Text
  pub worst_device_rssi : ℤ
  pub coverage : Text
  pub coverage_note : Note
  pub coverage_device_count : ℕ
  pub coverage_worst_area : Text

pub record DeviceActionIn : Type 0 where
  pub identifier : Text
  pub action : Text
  pub target : Text
  pub params : Text

-- The texts that the two action routes report: their own, or a verb's.
pub data Message (S : Type 0) : Type 0 where
  no_message no_subscriber bad_params no_home_network : Message S
  from_verb : S → Message S

pub record DeviceActionOut : Type 0 where
  pub ok : Bool
  pub action : Text
  pub target : Text
  pub result_summary : Message Actions.Summary
  pub fault_cleared : Bool

pub record InteractionEventIn : Type 0 where
  pub identifier : Text
  pub channel : Text
  pub kind : Text

pub record InteractionEventOut : Type 0 where
  pub ok : Bool
  pub party_id : Text
  pub stored : Bool
  pub last_channel : Text

pub record CsatIn : Type 0 where
  pub identifier : Text
  pub score : ℤ
  pub comment : Text
  pub conversation_ref : Text

pub record CsatOut : Type 0 where
  pub ok : Bool
  pub party_id : Text
  pub stored : Bool

pub record DeviceOut : Type 0 where
  pub device_id : Text
  pub label : Text
  pub kind : Text
  pub band : Text
  pub rssi : ℤ
  pub ap_label : Text
  pub steer_eligible : Bool
  pub status_summary : Phrase

-- The reason is the coverage note, or where that is empty the pack's text.
pub data Reason : Type 0 where
  from_coverage : Note → Reason
  from_pack : Text → Reason

pub record OffersOut : Type 0 where
  pub found : Bool
  pub eligible : Bool
  pub offer_id : Text
  pub name : Text
  pub price_gbp : ℕ
  pub reason : Reason

pub record OrderActionIn : Type 0 where
  pub identifier : Text
  pub action : Text
  pub target : Text
  pub params : Text

pub record OrderActionOut : Type 0 where
  pub ok : Bool
  pub action : Text
  pub order_id : Text
  pub status : Text
  pub eta_text : Text
  pub sent_to_masked : Text
  pub message_ref : Text
  pub result_summary : Message OrderActions.Summary

-- `occurred_at` is the instant, not its ISO-8601 text.
pub record TelemetryOut : Type 0 where
  pub party_id : Text
  pub kind : Text
  pub fault_type : Text
  pub primary_target : Text
  pub primary_target_kind : Text
  pub primary_target_label : Text
  pub recommended_action : Text
  pub conversation_ref : Text
  pub occurred_at : ℕ

-- `CustomerContextOut(found=False, tenant_slug=..., id_type_resolved=...)`
abbrev pub context_not_found : Text → Text → CustomerContextOut
context_not_found slug id_type = record {
  found = false;
  party_id = [];
  display_name = [];
  tenant_slug = slug;
  tier = [];
  verified = false;
  last_channel = [];
  id_type_resolved = id_type;
}

-- `VerifyCustomerOut(verified=False)`
abbrev pub not_verified : VerifyCustomerOut
not_verified = record { verified = false; party_id = []; masked_name = [] }

-- `NetDiagnosticsOut(found=False, party_id=...)`
abbrev pub no_diagnostics : Text → NetDiagnosticsOut
no_diagnostics party_id = record {
  found = false;
  party_id = party_id;
  fault_type = [];
  primary_target = [];
  primary_target_kind = [];
  primary_target_label = [];
  recommended_action = [];
  wan_ok = false;
  worst_device_band = [];
  worst_device_rssi = pos 0;
  extender_status = [];
}

-- `NetStatusOut(found=False, party_id=...)`
abbrev pub no_status : Text → NetStatusOut
no_status party_id = record {
  found = false;
  party_id = party_id;
  healthy = false;
  fault_type = [];
  wan_ok = false;
  wan_status = [];
  gateway_model = [];
  gateway_uptime_s = pos 0;
  ap_total = 0;
  ap_online = 0;
  extender_status = [];
  device_total = 0;
  devices_on_target_band = 0;
  worst_device_label = [];
  worst_device_band = [];
  worst_device_rssi = pos 0;
  coverage = lit "good";
  coverage_note = silent;
  coverage_device_count = 0;
  coverage_worst_area = [];
}

-- `OffersOut(found=..., eligible=False)`
abbrev pub no_offer : Bool → OffersOut
no_offer found = record {
  found = found;
  eligible = false;
  offer_id = [];
  name = [];
  price_gbp = 0;
  reason = from_pack [];
}
