-- ===== src/Gx/Routes/Agree.antt =====
-- Telemetry and /gx/net-status agree on which homes are healthy.
use genesys_cx_demo_harness.Base.{
  ℕ, suc, ◌≡◌, refl, Bool, true, false, not, Text, text_eq, length, Bool-cases, ◌⊎◌, inl, inr,
}
use genesys_cx_demo_harness.Platform.{Platform}
use genesys_cx_demo_harness.Store.{kind_network_degraded, Tenant, Db, ok, ◌>>=◌}
use genesys_cx_demo_harness.Events.{Stamp, add_event}
use genesys_cx_demo_harness.Network.Config.{network_config}
use genesys_cx_demo_harness.Network.Home.{Topology, has_nothing, load_topology}
use genesys_cx_demo_harness.Network.Faults.{no_fault, build_verdict}
use genesys_cx_demo_harness.Network.Telemetry.{degraded_fields, emit_for, emit_network_telemetry}
use genesys_cx_demo_harness.Gx.Routes.Network.{status_of}

module _ ⦃platform : Platform⦄ where
  -- For a home that loads and is not empty, telemetry is emitted exactly where net-status calls the
  -- home unhealthy; one event is added then, and nothing is written otherwise.
  pub emit_network_telemetry-status_of :
      (tenant : Tenant) (party : ℕ) (shown : Text) (stamp : Stamp) (db : Db) {t : Topology}
      → load_topology db tenant party ≡ ok t
      → has_nothing t ≡ false
      → (emitted : Bool) × (db' : Db) × (emit_network_telemetry tenant party stamp db
          ≡ ok (emitted, db'))
        × (emitted ≡ not (status_of t tenant shown).healthy)
        × (((emitted ≡ true) × (length db'.events ≡ suc (length db.events)))
            ⊎ ((emitted ≡ false) × (db' ≡ db)))
  unfolding emit_network_telemetry emit_for status_of add_event
  emit_network_telemetry-status_of tenant party shown stamp db {t} loaded some_home =
      elim (Bool-cases (text_eq (build_verdict t (network_config tenant)).fault_type no_fault)) [
        | inl quiet ↦
            (false, db, rw (loaded, ◌>>=◌, some_home, quiet) refl, rw quiet refl, inr (refl, refl))
        | inr fault ↦ (
          true,
          add_event tenant party kind_network_degraded
              (degraded_fields (build_verdict t (network_config tenant))) stamp db,
          rw (loaded, ◌>>=◌, some_home, fault) refl,
          rw fault refl,
          inl (refl, refl),
        )
      ]
