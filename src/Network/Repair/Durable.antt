-- ===== src/Network/Repair/Durable.antt =====
-- What a reboot does not touch: the coverage assessment of the home.
use genesys_cx_demo_harness.Base.{
  ℕ, ◌≡◌, refl, sym, ap, ◌∙◌, Text, lit, text_eq, Dict, ℤ, max_ℤ, List, [], ◌∷◌, map, IdDict,
  put_id, inl, inr, arith, Bool-cases, Option-cases,
}
use genesys_cx_demo_harness.Platform.{Platform, Param}
use genesys_cx_demo_harness.Store.{Tenant, AccessPoint, Db, Result, ok}
use genesys_cx_demo_harness.Network.Config.{NetworkConfig}
use genesys_cx_demo_harness.Network.Home.{Topology, load_topology, extenders}
use genesys_cx_demo_harness.Network.Actions.{
  restarted, write_ap, cycle_extender, cycle_ap, find_ap, reboot_extender, reboot_ap,
}
use genesys_cx_demo_harness.Network.Coverage.{labels_from, assess_coverage}
use genesys_cx_demo_harness.Network.Repair.Reload.{write_aps, load-write_aps}
use genesys_cx_demo_harness.Network.Repair.Reboot.{rebooted_home, extenders-rebooted}

module _ (id : ℕ) (backhaul : ℤ) where
  ap_id-write : (a : AccessPoint) → (write_ap id (restarted backhaul) a).ap_id ≡ a.ap_id
  unfolding write_ap
  ap_id-write a = ground arith

  label-write : (a : AccessPoint) → (write_ap id (restarted backhaul) a).label ≡ a.label
  unfolding write_ap
  label-write a = ground arith

  ids-write :
      (aps : List AccessPoint)
      → map (λ (a : AccessPoint). a.ap_id) (map (write_ap id (restarted backhaul)) aps)
        ≡ map (λ (a : AccessPoint). a.ap_id) aps
  ids-write [] = refl
  ids-write (a ∷ aps) = rw (ap_id-write a, ids-write aps) refl

  labels-write :
      (aps : List AccessPoint) (labels : IdDict Text)
      → labels_from (map (write_ap id (restarted backhaul)) aps) labels ≡ labels_from aps labels
  unfolding labels_from
  labels-write [] labels = refl
  labels-write (a ∷ aps) labels =
      rw (ap_id-write a, label-write a) (labels-write aps (put_id a.ap_id a.label labels))

  assess_coverage-rebooted :
      (t : Topology) (cfg : NetworkConfig)
      → assess_coverage (rebooted_home t id backhaul) cfg ≡ assess_coverage t cfg
  unfolding assess_coverage
  assess_coverage-rebooted t cfg =
      rw (extenders-rebooted t id backhaul, ids-write (extenders t), labels-write (extenders t) [])
        refl

module _ ⦃platform : Platform⦄ where
  ok_injective : {a b : Topology} → ◌≡◌ {A = Result Topology} (ok a) (ok b) → a ≡ b
  ok_injective k = cc

  -- An access point restarted in the tables leaves the coverage of the loaded home as it was.
  coverage-restarted :
      (id : ℕ) (backhaul : ℤ) (db : Db) (tenant : Tenant) (party : ℕ) (cfg : NetworkConfig)
      {t t' : Topology}
      → load_topology db tenant party ≡ ok t
      → load_topology (write_aps (write_ap id (restarted backhaul)) db) tenant party ≡ ok t'
      → assess_coverage t' cfg ≡ assess_coverage t cfg
  coverage-restarted id backhaul db tenant party cfg {t} {t'} before after =
      let same = ok_injective (sym after ∙ load-write_aps id backhaul db tenant party before) in
      ap (λ u. assess_coverage u cfg) same ∙ assess_coverage-rebooted id backhaul t cfg

  coverage-kept :
      (db : Db) (tenant : Tenant) (party : ℕ) (cfg : NetworkConfig) {t t' : Topology}
      → load_topology db tenant party ≡ ok t
      → load_topology db tenant party ≡ ok t'
      → assess_coverage t' cfg ≡ assess_coverage t cfg
  coverage-kept db tenant party cfg before after =
      ap (λ u. assess_coverage u cfg) (ok_injective (sym after ∙ before))

  cycle_extender-coverage :
      (db : Db) (tenant : Tenant) (party : ℕ) (cfg : NetworkConfig) (a : AccessPoint)
      {t t' : Topology}
      → load_topology db tenant party ≡ ok t
      → load_topology (cycle_extender db a cfg).1 tenant party ≡ ok t'
      → assess_coverage t' cfg ≡ assess_coverage t cfg
  unfolding cycle_extender
  cycle_extender-coverage db tenant party cfg a before after =
      elim (Bool-cases (text_eq a.kind (lit "extender"))) [
        | inl e ↦
            coverage-restarted a.ap_id cfg.healthy_backhaul_quality db tenant party cfg before
              (rw e at after)
        | inr e ↦ coverage-kept db tenant party cfg before (rw e at after)
      ]

  -- If the home loads before and after reboot-extender, whatever the call answered, its coverage
  -- is the same.
  pub reboot_extender-coverage :
      (db : Db) (tenant : Tenant) (party : ℕ) (target : Text) (params : Dict Param)
      (cfg : NetworkConfig) {t t' : Topology}
      → load_topology db tenant party ≡ ok t
      → load_topology (reboot_extender db t target params cfg).1 tenant party ≡ ok t'
      → assess_coverage t' cfg ≡ assess_coverage t cfg
  unfolding reboot_extender
  reboot_extender-coverage db tenant party target params cfg {t} before after =
      elim (Option-cases (find_ap t target)) [
        | inl e ↦ coverage-kept db tenant party cfg before (rw (e, reboot_extender) at after)
        | inr (a, e) ↦
            cycle_extender-coverage db tenant party cfg a before (rw (e, reboot_extender) at after)
      ]

  -- If the home loads before and after reboot-ap, whatever the call answered, its coverage is the
  -- same.
  pub reboot_ap-coverage :
      (db : Db) (tenant : Tenant) (party : ℕ) (target : Text) (params : Dict Param)
      (cfg : NetworkConfig) {t t' : Topology}
      → load_topology db tenant party ≡ ok t
      → load_topology (reboot_ap db t target params cfg).1 tenant party ≡ ok t'
      → assess_coverage t' cfg ≡ assess_coverage t cfg
  unfolding reboot_ap cycle_ap
  reboot_ap-coverage db tenant party target params cfg {t} before after =
      elim (Option-cases (find_ap t target)) [
        | inl e ↦ coverage-kept db tenant party cfg before (rw (e, reboot_ap) at after)
        | inr (a, e) ↦
            coverage-restarted a.ap_id (max_ℤ a.backhaul_quality cfg.healthy_backhaul_quality) db
              tenant party cfg before (rw (e, reboot_ap) at after)
      ]
