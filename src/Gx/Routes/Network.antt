-- ===== src/Gx/Routes/Network.antt =====
-- /gx/net-diagnostics, /gx/net-status, /gx/device-action, /gx/devices and /gx/offers
-- (app/gx/routes.py).
use genesys_cx_demo_harness.Base.{
  ℕ, Bool, true, false, not, ◌&&◌, Text, lit, text_eq, Dict, lookup, pos, List, [], map, count,
  length, min_by, Option, none, some, is_some, if◌then◌else◌,
}
use genesys_cx_demo_harness.Platform.{Platform, Param}
use genesys_cx_demo_harness.Store.{
  Tenant, AccessPoint, ConnectedDevice, Db, Session, commit, rollback, Result, ok, raised,
}
use genesys_cx_demo_harness.Profile.{ProfileRollup}
use genesys_cx_demo_harness.Network.Config.{NetworkConfig, network_config}
use genesys_cx_demo_harness.Network.Home.{Topology, has_nothing, load_topology}
use genesys_cx_demo_harness.Network.Faults.{no_fault, build_verdict, detect_all}
use genesys_cx_demo_harness.Network.Actions.{
  Summary, unknown_action, ActionOutcome, Handler, action_handlers,
}
use genesys_cx_demo_harness.Network.Coverage.{Level, good, weak, Note, silent, assess_coverage}
use genesys_cx_demo_harness.Network.Devices.{DeviceView, describe_devices}
use genesys_cx_demo_harness.Offers.{Offer, best_offer}
use genesys_cx_demo_harness.Gx.Schemas.{
  NetDiagnosticsOut, no_diagnostics, NetStatusOut, no_status, DeviceActionIn, DeviceActionOut,
  Message, no_subscriber, bad_params, no_home_network, from_verb, DeviceOut, OffersOut, no_offer,
  Reason, from_coverage, from_pack,
}
use genesys_cx_demo_harness.Gx.Routes.Shared.{Reply, respond, parse_params, with_caller}

abbrev pub level_text : Level → Text
level_text good = lit "good"
level_text weak = lit "weak"

-- `coverage.note or offer.reason`
abbrev pub reason_for : Note → Text → Reason
reason_for silent pack = from_pack pack
reason_for note pack = from_coverage note

-- `DeviceActionOut(ok=False, action=..., target=...)` with a message.
abbrev pub device_error : DeviceActionIn → Message Summary → DeviceActionOut
device_error payload message = record {
  ok = false;
  action = payload.action;
  target = payload.target;
  result_summary = message;
  fault_cleared = false;
}

abbrev pub device_done : DeviceActionIn → Summary → Bool → DeviceActionOut
device_done payload summary cleared = record {
  ok = true;
  action = payload.action;
  target = payload.target;
  result_summary = from_verb summary;
  fault_cleared = cleared;
}

abbrev pub offer_out : Offer → Note → OffersOut
offer_out offer note = record {
  found = true;
  eligible = true;
  offer_id = offer.offer_id;
  name = offer.name;
  price_gbp = offer.price_gbp;
  reason = reason_for note offer.reason;
}

abbrev pub device_out : DeviceView → DeviceOut
device_out v = record {
  device_id = v.device_id;
  label = v.label;
  kind = v.kind;
  band = v.band;
  rssi = v.rssi;
  ap_label = v.ap_label;
  steer_eligible = v.steer_eligible;
  status_summary = v.status_summary;
}

module _ ⦃platform : Platform⦄ where
  -- A route that reads the caller's home, and answers `empty` where there is none.
  abbrev pub with_home :
      {A : Type 0} → Session → Tenant → ProfileRollup → Reply A → (Topology → Reply A) → Reply A
  with_home s tenant rollup empty found =
      elim (load_topology s.current tenant rollup.party.party_id) [
        | raised e ↦ (raised e, s)
        | ok t ↦ if has_nothing t then empty else found t
      ]

  unfoldable pub diagnosis_of : Topology → Tenant → Text → NetDiagnosticsOut
  diagnosis_of t tenant party_id =
      let v = build_verdict t (network_config tenant) in
      record {
        found = true;
        party_id = party_id;
        fault_type = v.fault_type;
        primary_target = v.primary_target;
        primary_target_kind = v.primary_target_kind;
        primary_target_label = v.primary_target_label;
        recommended_action = v.recommended_action;
        wan_ok = v.wan_ok;
        worst_device_band = v.worst_device_band;
        worst_device_rssi = v.worst_device_rssi;
        extender_status = v.extender_status;
      }

  unfoldable pub net_diagnostics : Session → Tenant → Text → Reply NetDiagnosticsOut
  net_diagnostics s tenant identifier =
      with_caller s tenant identifier (respond 200 (no_diagnostics []) s) λ rollup.
        let party_id = platform.show_uuid rollup.party.party_id in
        with_home s tenant rollup (respond 200 (no_diagnostics party_id) s)
          (λ t. respond 200 (diagnosis_of t tenant party_id) s)

  -- `_status_of`
  unfoldable pub status_of : Topology → Tenant → Text → NetStatusOut
  status_of t tenant party_id =
      let cfg = network_config tenant in
      let v = build_verdict t cfg in
      let worst = min_by (λ (d : ConnectedDevice). d.rssi) t.devices in
      let coverage = assess_coverage t cfg in
      record {
        found = true;
        party_id = party_id;
        healthy = text_eq v.fault_type no_fault;
        fault_type = v.fault_type;
        wan_ok = v.wan_ok;
        wan_status = elim t.gateway [ none ↦ [] | some g ↦ g.wan_status ];
        gateway_model = elim t.gateway [ none ↦ [] | some g ↦ g.model ];
        gateway_uptime_s = elim t.gateway [ none ↦ pos 0 | some g ↦ g.uptime_s ];
        ap_total = length t.access_points;
        ap_online = count (λ (ap : AccessPoint). text_eq ap.status (lit "online")) t.access_points;
        extender_status = v.extender_status;
        device_total = length t.devices;
        devices_on_target_band =
            count (λ (d : ConnectedDevice). text_eq d.band cfg.steer_target_band) t.devices;
        worst_device_label = elim worst [ none ↦ [] | some d ↦ d.label ];
        worst_device_band = elim worst [ none ↦ [] | some d ↦ d.band ];
        worst_device_rssi = elim worst [ none ↦ pos 0 | some d ↦ d.rssi ];
        coverage = level_text coverage.level;
        coverage_note = coverage.note;
        coverage_device_count = coverage.device_count;
        coverage_worst_area = coverage.worst_area;
      }

  unfoldable pub net_status : Session → Tenant → Text → Reply NetStatusOut
  net_status s tenant identifier =
      with_caller s tenant identifier (respond 200 (no_status []) s) λ rollup.
        let party_id = platform.show_uuid rollup.party.party_id in
        with_home s tenant rollup (respond 200 (no_status party_id) s)
          (λ t. respond 200 (status_of t tenant party_id) s)

  -- `fault_before != NO_FAULT and fault_before not in still_firing`
  abbrev pub is_cleared : Text → Topology → NetworkConfig → Bool
  is_cleared fault_before t cfg =
      not (text_eq fault_before no_fault) && not (is_some (lookup fault_before (detect_all t cfg)))

  -- Roll back a verb that failed; commit one that did not, and read the home again.
  unfoldable pub finish_device :
      Session → Tenant → DeviceActionIn → ℕ → Text → ActionOutcome × Db → Reply DeviceActionOut
  finish_device s tenant payload party_id fault_before (outcome, db) =
      let after = record s { current = db } in
      if outcome.ok
      then (elim (load_topology db tenant party_id) [
        | raised e ↦ (raised e, commit after)
        | ok t ↦
            respond 200
              (device_done payload outcome.result_summary
                (is_cleared fault_before t (network_config tenant)))
              (commit after)
      ])
      else respond outcome.status_code (device_error payload (from_verb outcome.result_summary))
          (rollback after)

  -- The part of the route behind the verb and its parameters.
  unfoldable pub run_verb :
      Session
      → Tenant
      → DeviceActionIn
      → ProfileRollup
      → Handler
      → Dict Param
      → Reply DeviceActionOut
  run_verb s tenant payload rollup handler params =
      with_home s tenant rollup (respond 404 (device_error payload no_home_network) s) λ t.
        finish_device s tenant payload rollup.party.party_id
          (build_verdict t (network_config tenant)).fault_type
          (handler s.current t payload.target params (network_config tenant))

  unfoldable pub device_action_for :
      Session → Tenant → DeviceActionIn → ProfileRollup → Reply DeviceActionOut
  device_action_for s tenant payload rollup = elim (lookup payload.action action_handlers) [
    | none ↦ respond 400 (device_error payload (from_verb (unknown_action payload.action))) s
    | some handler ↦ elim (parse_params payload.params) [
      | none ↦ respond 400 (device_error payload bad_params) s
      | some params ↦ run_verb s tenant payload rollup handler params
    ]
  ]

  unfoldable pub device_action : Session → Tenant → DeviceActionIn → Reply DeviceActionOut
  device_action s tenant payload =
      with_caller s tenant payload.identifier (respond 404 (device_error payload no_subscriber) s)
        (device_action_for s tenant payload)

  unfoldable pub devices : Session → Tenant → Text → Reply (List DeviceOut)
  devices s tenant identifier = with_caller s tenant identifier (respond 200 [] s) λ rollup.
      with_home s tenant rollup (respond 200 [] s)
        λ t. respond 200 (map device_out (describe_devices t (network_config tenant))) s

  abbrev pub best_offer_out : Session → Tenant → Topology → Result (Option Offer) → Reply OffersOut
  best_offer_out s tenant t (raised e) = (raised e, s)
  best_offer_out s tenant t (ok none) = respond 200 (no_offer true) s
  best_offer_out s tenant t (ok (some offer)) =
      respond 200 (offer_out offer (assess_coverage t (network_config tenant)).note) s

  unfoldable pub offers : Session → Tenant → Text → Reply OffersOut
  offers s tenant identifier =
      with_caller s tenant identifier (respond 200 (no_offer false) s) λ rollup.
        with_home s tenant rollup (respond 200 (no_offer false) s)
          λ t. best_offer_out s tenant t (best_offer tenant t)
