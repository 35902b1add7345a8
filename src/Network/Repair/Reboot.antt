-- ===== src/Network/Repair/Reboot.antt =====
-- Rebooting the extender that the detector names: the call succeeds, and one extender fewer is
-- unhealthy.
use genesys_cx_demo_harness.Base.{
  ℕ, ◌≡◌, ◌<◌, refl, sym, ap, ◌∙◌, true, false, Text, lit, one_of, ℤ, leb_ℤ, List, [], ◌∷◌, map,
  Memᴰ, filter, find, find-mem, find_passes, find_of_mem, count-map-lt, length, length-filter,
  map-filter, min_by, min_by-mem, mem_of_mem-filter, mem-filter_passes, Option, none, some, ◌==◌,
  ==_iff, arith, Bool-cases, ◌⊎◌, inl, inr,
}
use mathlib.Core.Path.{fun_ext}
use genesys_cx_demo_harness.Platform.{Platform}
use genesys_cx_demo_harness.Store.{Tenant, ConnectedDevice, AccessPoint, Db, ok}
use genesys_cx_demo_harness.Network.Config.{NetworkConfig}
use genesys_cx_demo_harness.Network.Home.{
  Topology, load_topology, bands_on, ap_by_id, extenders, is_extender,
}
use genesys_cx_demo_harness.Network.Faults.{
  Finding, is_stuck, stuck_devices, is_unhealthy, unhealthy_extenders, extender_flapping,
}
use genesys_cx_demo_harness.Network.Actions.{
  ActionOutcome, rebooted_extender, done, restarted, write_ap, cycle_extender, find_ap,
  reboot_extender,
}
use genesys_cx_demo_harness.Network.Repair.Reload.{IsKeyed, write_aps, mem-load_aps, load-write_aps}

-- A rebooted extender is healthy by the tenant's own thresholds.
pub record Heals (cfg : NetworkConfig) : Type 0 where
  pub online_is_fine : one_of (lit "online") cfg.flapping_ap_statuses ≡ false
  pub backhaul_is_fine : leb_ℤ cfg.healthy_backhaul_quality cfg.poor_backhaul_quality ≡ false

module _ (t : Topology) (id : ℕ) (backhaul : ℤ) where
  abbrev pub rebooted_home : Topology
  rebooted_home = record t {
    access_points = map (write_ap id (restarted backhaul)) t.access_points;
  }

  is_extender-write :
      (x : AccessPoint) → is_extender (write_ap id (restarted backhaul) x) ≡ is_extender x
  unfolding write_ap
  is_extender-write x = ground arith

  pub extenders-rebooted :
      extenders rebooted_home ≡ map (write_ap id (restarted backhaul)) (extenders t)
  unfolding extenders
  extenders-rebooted =
      sym (
        map-filter is_extender (write_ap id (restarted backhaul)) is_extender-write t.access_points)

  ap_by_id-rebooted :
      (k : ℕ) (aps : List AccessPoint)
      → ((find (λ ap. ap.ap_id == k) aps ≡ none)
          × (find (λ ap. ap.ap_id == k) (map (write_ap id (restarted backhaul)) aps) ≡ none))
        ⊎ ((a : AccessPoint) × (b : AccessPoint) × (find (λ ap. ap.ap_id == k) aps ≡ some a)
            × (find (λ ap. ap.ap_id == k) (map (write_ap id (restarted backhaul)) aps) ≡ some b)
            × (b.ap_id ≡ a.ap_id))
  unfolding write_ap
  ap_by_id-rebooted k [] = inl (refl, refl)
  ap_by_id-rebooted k (ap ∷ aps) = elim (Bool-cases (ap.ap_id == k)) [
    | inl e ↦
        inr (ap, write_ap id (restarted backhaul) ap, ground arith, ground arith, ground arith)
    | inr e ↦ elim (ap_by_id-rebooted k aps) [
      | inl (p, q) ↦ inl (ground arith, ground arith)
      | inr (a, b, p, q, r) ↦ inr (a, b, ground arith, ground arith, r)
    ]
  ]

  -- A reboot leaves the bands of every access point alone.
  pub bands_on-rebooted : (k : ℕ) → bands_on rebooted_home k ≡ bands_on t k
  unfolding bands_on ap_by_id
  bands_on-rebooted k = elim (ap_by_id-rebooted k t.access_points) [
    | inl (p, q) ↦ rw (p, q, bands_on, ap_by_id)
    | inr (a, b, p, q, r) ↦ rw (p, q, bands_on, ap_by_id, r)
  ]

  -- A reboot leaves every device as stuck as it was.
  pub stuck_devices-rebooted :
      (cfg : NetworkConfig) → stuck_devices rebooted_home cfg ≡ stuck_devices t cfg
  unfolding stuck_devices is_stuck
  stuck_devices-rebooted cfg = ap (λ p. filter p t.devices) (fun_ext same)
    where
      same : (d : ConnectedDevice) → is_stuck rebooted_home cfg d ≡ is_stuck t cfg d
      same d = rw (bands_on-rebooted d.connected_ap_id) refl

module _ (cfg : NetworkConfig) (heals : Heals cfg) (id : ℕ) where
  restarted-healthy :
      (x : AccessPoint)
      → x.ap_id ≡ id
      → is_unhealthy cfg (write_ap id (restarted cfg.healthy_backhaul_quality) x) ≡ false
  unfolding write_ap is_unhealthy
  restarted-healthy x e =
      let online = heals.online_is_fine in let backhaul = heals.backhaul_is_fine in ground arith

  unhealthy_before :
      (x : AccessPoint)
      → is_unhealthy cfg (write_ap id (restarted cfg.healthy_backhaul_quality) x) ≡ true
      → is_unhealthy cfg x ≡ true
  unfolding write_ap is_unhealthy
  unhealthy_before x h =
      let online = heals.online_is_fine in let backhaul = heals.backhaul_is_fine in ground arith

  -- One extender fewer is unhealthy, if the rebooted one was.
  pub unhealthy_extenders-rebooted :
      (t : Topology) (a : AccessPoint)
      → Memᴰ a (extenders t)
      → a.ap_id ≡ id
      → is_unhealthy cfg a ≡ true
      → length (unhealthy_extenders (rebooted_home t id cfg.healthy_backhaul_quality) cfg)
        < length (unhealthy_extenders t cfg)
  unfolding unhealthy_extenders
  unhealthy_extenders-rebooted t a m e unhealthy =
      let w = write_ap id (restarted cfg.healthy_backhaul_quality) in
      rw
        (
          extenders-rebooted t id cfg.healthy_backhaul_quality,
          length-filter (is_unhealthy cfg) (map w (extenders t)),
          length-filter (is_unhealthy cfg) (extenders t),
        )
        (count-map-lt (is_unhealthy cfg) (is_unhealthy cfg) w (extenders t) unhealthy_before m
          unhealthy (restarted-healthy a e))

module _ ⦃platform : Platform⦄ where
  -- The extender that the finding names.
  flapping-target :
      (t : Topology) (cfg : NetworkConfig) {f : Finding}
      → extender_flapping t cfg ≡ some f
      → (a : AccessPoint) × Memᴰ a (unhealthy_extenders t cfg)
        × (f.target ≡ platform.show_uuid a.ap_id)
  unfolding extender_flapping
  flapping-target t cfg {f} h =
      go (min_by (λ (a : AccessPoint). a.backhaul_quality) (unhealthy_extenders t cfg)) refl
    where
      go :
          (o : Option AccessPoint)
          → min_by (λ (a : AccessPoint). a.backhaul_quality) (unhealthy_extenders t cfg) ≡ o
          → (a : AccessPoint) × Memᴰ a (unhealthy_extenders t cfg)
            × (f.target ≡ platform.show_uuid a.ap_id)
      go none e = ground arith
      go (some a) e = (
        a,
        min_by-mem (λ (a : AccessPoint). a.backhaul_quality) (unhealthy_extenders t cfg) e,
        ground arith,
      )

  find_ap-show :
      (t : Topology) (a : AccessPoint)
      → Memᴰ a t.access_points
      → ((x : AccessPoint) → Memᴰ x t.access_points → x.ap_id ≡ a.ap_id → x ≡ a)
      → find_ap t (platform.show_uuid a.ap_id) ≡ some a
  unfolding find_ap ap_by_id
  find_ap-show t a m key =
      let p = λ (x : AccessPoint). x.ap_id == a.ap_id in
      let (x, e) = find_of_mem p t.access_points m (ground arith) in
      let same : x ≡ a =
        key x (find-mem p t.access_points e) ((==_iff _ _).0 (find_passes p t.access_points e)) in
      rw (platform.parse-show a.ap_id, find_ap) (e ∙ ap some same)

  reboot_extender-on :
      (db : Db) (t : Topology) (cfg : NetworkConfig) (target : Text) (a : AccessPoint)
      → find_ap t target ≡ some a
      → is_extender a ≡ true
      → reboot_extender db t target [] cfg ≡ (
        done (rebooted_extender a.label a.status a.backhaul_quality cfg.healthy_backhaul_quality),
        write_aps (write_ap a.ap_id (restarted cfg.healthy_backhaul_quality)) db,
      )
  unfolding reboot_extender cycle_extender
  reboot_extender-on db t cfg target a e h = rw (e, h, reboot_extender, cycle_extender) refl

  -- Acting on what the extender detector found: the call succeeds, the home loads again, one
  -- extender fewer is unhealthy, and the same devices are stuck.
  pub reboot_extender_repairs :
      (db : Db) (tenant : Tenant) (party : ℕ) (cfg : NetworkConfig) {t : Topology} {f : Finding}
      → IsKeyed db
      → Heals cfg
      → load_topology db tenant party ≡ ok t
      → extender_flapping t cfg ≡ some f
      → (out : ActionOutcome) × (db' : Db) × (t' : Topology) × (reboot_extender db t f.target [] cfg
          ≡ (out, db'))
        × (out.ok ≡ true)
        × (load_topology db' tenant party ≡ ok t')
        × (length (unhealthy_extenders t' cfg) < length (unhealthy_extenders t cfg))
        × (stuck_devices t' cfg ≡ stuck_devices t cfg)
  unfolding unhealthy_extenders extenders
  reboot_extender_repairs db tenant party cfg {t} {f} keyed heals loaded found =
      let (a, among, target) = flapping-target t cfg found in
      let among_extenders = mem_of_mem-filter (is_unhealthy cfg) (extenders t) among in
      let m = mem_of_mem-filter is_extender t.access_points among_extenders in
      let key = λ (x : AccessPoint) (n : Memᴰ x t.access_points) (e : x.ap_id ≡ a.ap_id).
        keyed.ap_key x a (mem-load_aps db tenant party loaded n)
          (mem-load_aps db tenant party loaded m) e in
      let backhaul = cfg.healthy_backhaul_quality in
      (
        done (rebooted_extender a.label a.status a.backhaul_quality backhaul),
        write_aps (write_ap a.ap_id (restarted backhaul)) db,
        rebooted_home t a.ap_id backhaul,
        reboot_extender-on db t cfg f.target a (ap (find_ap t) target ∙ find_ap-show t a m key)
            (mem-filter_passes is_extender t.access_points among_extenders),
        refl,
        load-write_aps a.ap_id backhaul db tenant party loaded,
        unhealthy_extenders-rebooted cfg heals a.ap_id t a among_extenders refl
            (mem-filter_passes (is_unhealthy cfg) (extenders t) among),
        stuck_devices-rebooted t a.ap_id backhaul cfg,
      )
