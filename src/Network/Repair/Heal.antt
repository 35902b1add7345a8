-- ===== src/Network/Repair/Heal.antt =====
-- The loop that an agent runs: diagnose, act on the verdict, diagnose again.
use genesys_cx_demo_harness.Base.{
  ℕ, ◌≡◌, ◌<◌, ◌+◌, refl, sym, ap, ◌∙◌, true, false, Text, lit, text_eq, text_eq_refl, lookup,
  length, [], some, inl, inr, arith,
}
use genesys_cx_demo_harness.Platform.{Platform}
use genesys_cx_demo_harness.Store.{Tenant, Db, ok}
use genesys_cx_demo_harness.Network.Config.{NetworkConfig}
use genesys_cx_demo_harness.Network.Home.{Topology, load_topology}
use genesys_cx_demo_harness.Network.Faults.{
  Finding, no_fault, stuck_devices, unhealthy_extenders, detectors, build_verdict,
}
use genesys_cx_demo_harness.Network.Faults.Decision.{found_by, build_verdict-decides}
use genesys_cx_demo_harness.Network.Actions.{ActionOutcome, band_steer, reboot_extender}
use genesys_cx_demo_harness.Network.Repair.Reload.{IsKeyed}
use genesys_cx_demo_harness.Network.Repair.Steer.{band_steer_repairs}
use genesys_cx_demo_harness.Network.Repair.Reboot.{Heals, reboot_extender_repairs}

-- How many things are wrong with the home that a verb can put right.
unfoldable pub troubles : Topology → NetworkConfig → ℕ
troubles t cfg = length (stuck_devices t cfg) + length (unhealthy_extenders t cfg)

module _ ⦃platform : Platform⦄ where
  -- A verdict that names a fault names the target of that fault's detector.
  verdict-fires :
      (t : Topology) (cfg : NetworkConfig) (name : Text)
      → text_eq name no_fault ≡ false
      → (build_verdict t cfg).fault_type ≡ name
      → (f : Finding) × (found_by detectors name t cfg ≡ some f)
        × ((build_verdict t cfg).primary_target ≡ f.target)
  verdict-fires t cfg name some_fault h = elim (build_verdict-decides t cfg) [
    | inl (none_found, e, q) ↦
        let same : name ≡ no_fault = sym h ∙ none_found in
        let equal : text_eq name no_fault ≡ true = rw same (text_eq_refl no_fault) in cc
    | inr (f, d, kind, target, target_kind, label, action) ↦
        let same : d.name ≡ name = sym d.named ∙ (sym kind ∙ h) in
        (f, ap (λ n. found_by detectors n t cfg) (sym same) ∙ d.fires, target)
  ]

  -- On a store whose ids are keys, where the verdict on a loaded home is a stuck device, steering
  -- its target succeeds, the home loads again, and it has fewer troubles.
  pub band_steer-verdict :
      (db : Db) (tenant : Tenant) (party : ℕ) (cfg : NetworkConfig) {t : Topology}
      → IsKeyed db
      → load_topology db tenant party ≡ ok t
      → (build_verdict t cfg).fault_type ≡ lit "device_band_stuck"
      → (out : ActionOutcome) × (db' : Db) × (t' : Topology) × (band_steer db t
            (build_verdict t cfg).primary_target
            []
            cfg
          ≡ (out, db'))
        × (out.ok ≡ true)
        × (load_topology db' tenant party ≡ ok t')
        × (troubles t' cfg < troubles t cfg)
  unfolding troubles lookup text_eq
  band_steer-verdict db tenant party cfg {t} keyed loaded verdict =
      let (f, fires, target) = verdict-fires t cfg (lit "device_band_stuck") refl verdict in
      let (out, db', t', ran, fine, reloaded, fewer, same) =
        band_steer_repairs db tenant party cfg keyed loaded fires in
      (
        out,
        db',
        t',
        ap (λ x. band_steer db t x [] cfg) target ∙ ran,
        fine,
        reloaded,
        omega (arith, fewer, ap length same),
      )

  -- On a store whose ids are keys and with thresholds by which a rebooted extender is healthy,
  -- where the verdict on a loaded home is a flapping extender, rebooting its target succeeds, the
  -- home loads again, and it has fewer troubles.
  pub reboot_extender-verdict :
      (db : Db) (tenant : Tenant) (party : ℕ) (cfg : NetworkConfig) {t : Topology}
      → IsKeyed db
      → Heals cfg
      → load_topology db tenant party ≡ ok t
      → (build_verdict t cfg).fault_type ≡ lit "extender_flapping"
      → (out : ActionOutcome) × (db' : Db) × (t' : Topology) × (reboot_extender db t
            (build_verdict t cfg).primary_target
            []
            cfg
          ≡ (out, db'))
        × (out.ok ≡ true)
        × (load_topology db' tenant party ≡ ok t')
        × (troubles t' cfg < troubles t cfg)
  unfolding troubles lookup text_eq
  reboot_extender-verdict db tenant party cfg {t} keyed heals loaded verdict =
      let (f, fires, target) = verdict-fires t cfg (lit "extender_flapping") refl verdict in
      let (out, db', t', ran, fine, reloaded, fewer, same) =
        reboot_extender_repairs db tenant party cfg keyed heals loaded fires in
      (
        out,
        db',
        t',
        ap (λ x. reboot_extender db t x [] cfg) target ∙ ran,
        fine,
        reloaded,
        omega (arith, fewer, ap length same),
      )
