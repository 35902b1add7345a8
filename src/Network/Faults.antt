-- ===== src/Network/Faults.antt =====
-- Fault detection: detectors by name, and the flat verdict (app/modules/network/faults.py).
pub mod Decision
use genesys_cx_demo_harness.Base.{
  ℕ, Bool, true, false, not, ◌&&◌, ◌||◌, Text, lit, text_eq, one_of, Dict, lookup, insert, ℤ, pos,
  leb_ℤ, min_by, max_by, List, [], ◌∷◌, filter, Option, none, some, is_some, get_or, if◌then◌else◌,
}
use genesys_cx_demo_harness.Platform.{Platform}
use genesys_cx_demo_harness.Store.{AccessPoint, ConnectedDevice}
use genesys_cx_demo_harness.Network.Config.{NetworkConfig}
use genesys_cx_demo_harness.Network.Home.{Topology, extenders, bands_on}

abbrev pub no_fault : Text
no_fault = lit "none"

-- `_AP_SEVERITY`
abbrev ap_severity : Dict ℤ
ap_severity = (lit "offline", pos 2) ∷ (lit "flapping", pos 1) ∷ (lit "online", pos 0) ∷ []

pub record Finding : Type 0 where
  pub fault_type : Text
  pub target : Text
  pub target_kind : Text
  pub target_label : Text

pub record Verdict : Type 0 where
  pub fault_type : Text
  pub primary_target : Text
  pub primary_target_kind : Text
  pub primary_target_label : Text
  pub recommended_action : Text
  pub wan_ok : Bool
  pub worst_device_band : Text
  pub worst_device_rssi : ℤ
  pub extender_status : Text

abbrev pub Detector : Type 0
Detector = Topology → NetworkConfig → Option Finding

unfoldable pub is_stuck : Topology → NetworkConfig → ConnectedDevice → Bool
is_stuck t cfg d =
    d.steer_eligible
    && (not (text_eq d.band cfg.steer_target_band)
        && (leb_ℤ d.rssi cfg.poor_rssi_dbm
            && one_of cfg.steer_target_band (bands_on t d.connected_ap_id)))

unfoldable pub stuck_devices : Topology → NetworkConfig → List ConnectedDevice
stuck_devices t cfg = filter (is_stuck t cfg) t.devices

unfoldable pub is_unhealthy : NetworkConfig → AccessPoint → Bool
is_unhealthy cfg ap =
    one_of ap.status cfg.flapping_ap_statuses || leb_ℤ ap.backhaul_quality cfg.poor_backhaul_quality

unfoldable pub unhealthy_extenders : Topology → NetworkConfig → List AccessPoint
unhealthy_extenders t cfg = filter (is_unhealthy cfg) (extenders t)

-- `_extender_status`: `max` never sees an empty list, since `none` is returned before.
unfoldable pub extender_status : Topology → Text
extender_status t =
    elim (max_by (λ (ap : AccessPoint). get_or (lookup ap.status ap_severity) (pos 0))
      (extenders t)) [ none ↦ lit "none" | some worst ↦ worst.status ]

-- The loop of `build_verdict` over `fault_precedence`.
unfoldable pub choose : List Text → Dict Finding → Option Finding
choose [] findings = none
choose (name ∷ names) findings = elim (lookup name findings) [
  | some finding ↦ some finding
  | none ↦ choose names findings
]

-- The loop of `detect_all`.
unfoldable pub collect : Topology → NetworkConfig → Dict Detector → Dict Finding → Dict Finding
collect t cfg [] findings = findings
collect t cfg ((name, detect) ∷ rest) findings =
    collect t cfg rest
      (elim (detect t cfg) [ none ↦ findings | some finding ↦ insert name finding findings ])

module _ ⦃platform : Platform⦄ where
  unfoldable pub wan_degraded : Detector
  wan_degraded t cfg = elim t.gateway [
    | none ↦ none
    | some gateway ↦
        if one_of gateway.wan_status cfg.wan_ok_statuses
        then none
        else some (record {
          fault_type = lit "wan_degraded";
          target = platform.show_uuid gateway.gateway_id;
          target_kind = lit "gateway";
          target_label = gateway.model;
        })
  ]

  unfoldable pub device_band_stuck : Detector
  device_band_stuck t cfg = elim (min_by (λ (d : ConnectedDevice). d.rssi) (stuck_devices t cfg)) [
    | none ↦ none
    | some worst ↦ some (record {
      fault_type = lit "device_band_stuck";
      target = platform.show_uuid worst.device_id;
      target_kind = lit "device";
      target_label = worst.label;
    })
  ]

  unfoldable pub extender_flapping : Detector
  extender_flapping t cfg =
      elim (min_by (λ (ap : AccessPoint). ap.backhaul_quality) (unhealthy_extenders t cfg)) [
        | none ↦ none
        | some worst ↦ some (record {
          fault_type = lit "extender_flapping";
          target = platform.show_uuid worst.ap_id;
          target_kind = lit "ap";
          target_label = worst.label;
        })
      ]

  -- `DETECTORS`, in registration order.
  abbrev pub detectors : Dict Detector
  detectors =
      (lit "wan_degraded", wan_degraded)
      ∷ (lit "device_band_stuck", device_band_stuck)
      ∷ (lit "extender_flapping", extender_flapping)
      ∷ []

  unfoldable pub detect_all : Topology → NetworkConfig → Dict Finding
  unfolding collect
  detect_all t cfg = collect t cfg detectors []

  abbrev pub fault_type_of : Option Finding → Text
  fault_type_of none = no_fault
  fault_type_of (some f) = f.fault_type

  unfoldable pub build_verdict : Topology → NetworkConfig → Verdict
  build_verdict t cfg =
      let chosen = choose cfg.fault_precedence (detect_all t cfg) in
      let worst_device = min_by (λ (d : ConnectedDevice). d.rssi) t.devices in
      record {
        fault_type = fault_type_of chosen;
        primary_target = elim chosen [ none ↦ [] | some f ↦ f.target ];
        primary_target_kind = elim chosen [ none ↦ [] | some f ↦ f.target_kind ];
        primary_target_label = elim chosen [ none ↦ [] | some f ↦ f.target_label ];
        recommended_action =
            get_or (lookup (fault_type_of chosen) cfg.recommended_actions) (lit "none");
        wan_ok = elim t.gateway [ none ↦ false | some g ↦ one_of g.wan_status cfg.wan_ok_statuses ];
        worst_device_band = elim worst_device [ none ↦ [] | some d ↦ d.band ];
        worst_device_rssi = elim worst_device [ none ↦ pos 0 | some d ↦ d.rssi ];
        extender_status = extender_status t;
      }
