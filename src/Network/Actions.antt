-- ===== src/Network/Actions.antt =====
-- The device-action verbs (app/modules/network/actions.py). A verb reads the loaded topology and
-- writes the row of its target; the texts of `result_summary` are values of `Summary`, with what
-- each f-string interpolates.
use genesys_cx_demo_harness.Base.{
  ℕ, Bool, true, false, Text, lit, text_eq, one_of, Dict, lookup, ℤ, ◌+ℤ◌, min_ℤ, max_ℤ, [], ◌∷◌,
  map, filter, find, length, Option, none, some, ◌==◌, if◌then◌else◌,
}
use genesys_cx_demo_harness.Platform.{Platform, Param}
use genesys_cx_demo_harness.Store.{AccessPoint, ConnectedDevice, Db}
use genesys_cx_demo_harness.Network.Config.{NetworkConfig}
use genesys_cx_demo_harness.Network.Home.{Topology, ap_by_id, bands_on}

pub data Summary : Type 0 where
  unknown_target : (target : Text) → Summary
  not_steer_eligible : (label : Text) → Summary
  no_radio : (band label : Text) → Summary
  already_on : (label band : Text) → Summary
  moved : (label was_band band : Text) (was_rssi rssi : ℤ) → Summary
  not_an_extender : (label kind : Text) → Summary
  rebooted_extender : (label was_status : Text) (was_backhaul backhaul : ℤ) → Summary
  rebooted_ap : (label was_status : Text) (reattached : ℕ) → Summary
  unknown_action : (name : Text) → Summary

pub record ActionOutcome : Type 0 where
  pub ok : Bool
  pub result_summary : Summary
  pub status_code : ℕ

abbrev pub Handler : Type 0
Handler = Db → Topology → Text → Dict Param → NetworkConfig → ActionOutcome × Db

abbrev pub done : Summary → ActionOutcome
done s = record { ok = true; result_summary = s; status_code = 200 }

abbrev pub refused : ℕ → Summary → ActionOutcome
refused code s = record { ok = false; result_summary = s; status_code = code }

-- `str(params.get("band") or cfg["steer_target_band"])`
unfoldable pub wanted_band : Dict Param → NetworkConfig → Text
wanted_band params cfg = elim (lookup (lit "band") params) [
  | none ↦ cfg.steer_target_band
  | some p ↦ if p.truth then p.shown else cfg.steer_target_band
]

-- What the verbs write into a row.
abbrev pub steered : Text → ℤ → ConnectedDevice → ConnectedDevice
steered band rssi d = record d { band = band; rssi = rssi }

abbrev pub restarted : ℤ → AccessPoint → AccessPoint
restarted backhaul ap = record ap { status = lit "online"; backhaul_quality = backhaul }

-- `db.add(row)` of a loaded row that was changed: the row with this key is written.
unfoldable pub write_device :
    ℕ → (ConnectedDevice → ConnectedDevice) → ConnectedDevice → ConnectedDevice
write_device id f d = if d.device_id == id then f d else d

unfoldable pub write_ap : ℕ → (AccessPoint → AccessPoint) → AccessPoint → AccessPoint
write_ap id f ap = if ap.ap_id == id then f ap else ap

unfoldable pub steered_rssi : NetworkConfig → ConnectedDevice → ℤ
steered_rssi cfg d = min_ℤ (d.rssi +ℤ cfg.steer_rssi_gain_db) cfg.steer_rssi_ceiling_dbm

unfoldable pub steer_device :
    Db → Topology → ConnectedDevice → Text → NetworkConfig → ActionOutcome × Db
steer_device db t d band cfg =
    if d.steer_eligible
    then (if one_of band (bands_on t d.connected_ap_id)
        then (if text_eq d.band band then (done (already_on d.label band), db) else (
          done (moved d.label d.band band d.rssi (steered_rssi cfg d)),
          record db {
            devices = map (write_device d.device_id (steered band (steered_rssi cfg d))) db.devices;
          },
        ))
        else (refused 400 (no_radio band d.label), db))
    else (refused 400 (not_steer_eligible d.label), db)

unfoldable pub cycle_extender : Db → AccessPoint → NetworkConfig → ActionOutcome × Db
cycle_extender db ap cfg =
    if text_eq ap.kind (lit "extender")
    then (
      done (rebooted_extender ap.label ap.status ap.backhaul_quality cfg.healthy_backhaul_quality),
      record db {
        access_points =
            map (write_ap ap.ap_id (restarted cfg.healthy_backhaul_quality)) db.access_points;
      },
    )
    else (refused 400 (not_an_extender ap.label ap.kind), db)

unfoldable pub cycle_ap : Db → Topology → AccessPoint → NetworkConfig → ActionOutcome × Db
cycle_ap db t ap cfg = (
  done (
      rebooted_ap ap.label ap.status
        (length (filter (λ (d : ConnectedDevice). d.connected_ap_id == ap.ap_id) t.devices))),
  record db {
    access_points =
        map (write_ap ap.ap_id (restarted (max_ℤ ap.backhaul_quality cfg.healthy_backhaul_quality)))
          db.access_points;
  },
)

module _ ⦃platform : Platform⦄ where
  unfoldable pub find_device : Topology → Text → Option ConnectedDevice
  find_device t target = elim (platform.parse_uuid target) [
    | none ↦ none
    | some id ↦ find (λ d. d.device_id == id) t.devices
  ]

  unfoldable pub find_ap : Topology → Text → Option AccessPoint
  find_ap t target = elim (platform.parse_uuid target) [ none ↦ none | some id ↦ ap_by_id t id ]

  unfoldable pub band_steer : Handler
  band_steer db t target params cfg = elim (find_device t target) [
    | none ↦ (refused 404 (unknown_target target), db)
    | some d ↦ steer_device db t d (wanted_band params cfg) cfg
  ]

  unfoldable pub reboot_extender : Handler
  reboot_extender db t target params cfg = elim (find_ap t target) [
    | none ↦ (refused 404 (unknown_target target), db)
    | some ap ↦ cycle_extender db ap cfg
  ]

  unfoldable pub reboot_ap : Handler
  reboot_ap db t target params cfg = elim (find_ap t target) [
    | none ↦ (refused 404 (unknown_target target), db)
    | some ap ↦ cycle_ap db t ap cfg
  ]

  -- `ACTION_HANDLERS`
  abbrev pub action_handlers : Dict Handler
  action_handlers =
      (lit "band-steer", band_steer)
      ∷ (lit "reboot-extender", reboot_extender)
      ∷ (lit "reboot-ap", reboot_ap)
      ∷ []
