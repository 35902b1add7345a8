-- ===== src/Network/Telemetry.antt =====
-- Telemetry emission (app/modules/network/telemetry.py).
use genesys_cx_demo_harness.Base.{ℕ, Bool, true, false, lit, text_eq, [], ◌∷◌, if◌then◌else◌, none}
use genesys_cx_demo_harness.Platform.{Platform}
use genesys_cx_demo_harness.Store.{Tenant, text, int, Db, Result, ok, ◌>>=◌, kind_network_degraded}
use genesys_cx_demo_harness.Events.{Stamp, EventFields, add_event}
use genesys_cx_demo_harness.Network.Config.{network_config}
use genesys_cx_demo_harness.Network.Home.{Topology, has_nothing, load_topology}
use genesys_cx_demo_harness.Network.Faults.{Verdict, no_fault, build_verdict}

abbrev pub degraded_fields : Verdict → EventFields
degraded_fields v = record {
  channel = lit "telemetry";
  conversation_ref = [];
  occurred_at = none;
  payload =
      (lit "fault_type", text v.fault_type)
      ∷ (lit "primary_target", text v.primary_target)
      ∷ (lit "primary_target_kind", text v.primary_target_kind)
      ∷ (lit "primary_target_label", text v.primary_target_label)
      ∷ (lit "recommended_action", text v.recommended_action)
      ∷ (lit "worst_device_rssi", int v.worst_device_rssi)
      ∷ (lit "extender_status", text v.extender_status)
      ∷ [];
}

module _ ⦃platform : Platform⦄ where
  unfoldable pub emit_for : Tenant → ℕ → Topology → Stamp → Db → Bool × Db
  unfolding network_config
  emit_for tenant party_id t stamp db =
      if has_nothing t
      then (false, db)
      else (let v = build_verdict t (network_config tenant) in
          if text_eq v.fault_type no_fault
          then (false, db)
          else (true, add_event tenant party_id kind_network_degraded (degraded_fields v) stamp db))

  -- `emit_network_telemetry(..., commit=False)`
  unfoldable pub emit_network_telemetry : Tenant → ℕ → Stamp → Db → Result (Bool × Db)
  emit_network_telemetry tenant party_id stamp db = do
    t ← load_topology db tenant party_id
    ok (emit_for tenant party_id t stamp db)
