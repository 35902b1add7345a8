-- ===== src/Network/Devices.antt =====
-- Device views for the agent (app/modules/network/devices.py).
pub mod Weakest
use genesys_cx_demo_harness.Base.{
  Bool, not, ◌&&◌, Text, text_eq, ℤ, leb_ℤ, List, [], map, get_or, get_id, if◌then◌else◌, sort_by,
}
use genesys_cx_demo_harness.Platform.{Platform}
use genesys_cx_demo_harness.Store.{ConnectedDevice}
use genesys_cx_demo_harness.Network.Config.{NetworkConfig}
use genesys_cx_demo_harness.Network.Home.{Topology}
use genesys_cx_demo_harness.Network.Coverage.{labels_from}

-- The phrases of `status_summary`.
pub data Phrase : Type 0 where
  weak_signal_on_slower_band weak_signal slower_band good_signal : Phrase

pub record DeviceView : Type 0 where
  pub device_id : Text
  pub label : Text
  pub kind : Text
  pub band : Text
  pub rssi : ℤ
  pub ap_label : Text
  pub steer_eligible : Bool
  pub status_summary : Phrase

unfoldable pub status_summary : Text → ℤ → NetworkConfig → Phrase
status_summary band rssi cfg =
    let poor = leb_ℤ rssi cfg.poor_rssi_dbm in
    let on_slow_band = not (text_eq band cfg.steer_target_band) in
    if poor && on_slow_band
    then weak_signal_on_slower_band
    else if poor
    then weak_signal
    else if on_slow_band
    then slower_band
    else good_signal

abbrev pub weaker_first : DeviceView → DeviceView → Bool
weaker_first a b = leb_ℤ a.rssi b.rssi

module _ ⦃platform : Platform⦄ where
  -- The labels are those of every access point, built as `labels_from` builds them.
  unfoldable pub view_of : Topology → NetworkConfig → ConnectedDevice → DeviceView
  unfolding status_summary
  view_of t cfg d = record {
    device_id = platform.show_uuid d.device_id;
    label = d.label;
    kind = d.kind;
    band = d.band;
    rssi = d.rssi;
    ap_label = get_or (get_id d.connected_ap_id (labels_from t.access_points [])) [];
    steer_eligible = d.steer_eligible;
    status_summary = status_summary d.band d.rssi cfg;
  }

  unfoldable pub describe_devices : Topology → NetworkConfig → List DeviceView
  describe_devices t cfg = sort_by weaker_first (map (view_of t cfg) t.devices)
