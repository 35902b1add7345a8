-- ===== src/Network/Repair/Steer.antt =====
-- Steering the device that the detector names: the call succeeds, and one device fewer is stuck.
use genesys_cx_demo_harness.Base.{
  ℕ, ◌≡◌, ◌<◌, refl, ap, ◌∙◌, true, false, Text, text_eq, text_eq_refl, one_of, lookup, ℤ, [], map,
  Memᴰ, find-mem, find_passes, find_of_mem, count-map-lt, length, length-filter, min_by, min_by-mem,
  mem_of_mem-filter, mem-filter_passes, Option, none, some, ◌==◌, ==_iff, arith,
}
use genesys_cx_demo_harness.Platform.{Platform}
use genesys_cx_demo_harness.Store.{Tenant, ConnectedDevice, Db, ok}
use genesys_cx_demo_harness.Network.Config.{NetworkConfig}
use genesys_cx_demo_harness.Network.Home.{Topology, load_topology, bands_on, ap_by_id, extenders}
use genesys_cx_demo_harness.Network.Faults.{
  Finding, is_stuck, stuck_devices, device_band_stuck, unhealthy_extenders,
}
use genesys_cx_demo_harness.Network.Actions.{
  ActionOutcome, moved, done, wanted_band, steered, steered_rssi, write_device, steer_device,
  find_device, band_steer,
}
use genesys_cx_demo_harness.Network.Repair.Reload.{
  IsKeyed, write_devices, mem-load_devices, load-write_devices,
}

-- What makes a device stuck.
is_stuck-parts :
    (t : Topology) (cfg : NetworkConfig) (d : ConnectedDevice)
    → is_stuck t cfg d ≡ true
    → (d.steer_eligible ≡ true)
      × (text_eq d.band cfg.steer_target_band ≡ false)
      × (one_of cfg.steer_target_band (bands_on t d.connected_ap_id) ≡ true)
unfolding is_stuck
is_stuck-parts t cfg d h = ground arith

steer_device-moves :
    (db : Db) (t : Topology) (d : ConnectedDevice) (cfg : NetworkConfig)
    → is_stuck t cfg d ≡ true
    → steer_device db t d cfg.steer_target_band cfg ≡ (
      done (moved d.label d.band cfg.steer_target_band d.rssi (steered_rssi cfg d)),
      write_devices
          (write_device d.device_id (steered cfg.steer_target_band (steered_rssi cfg d)))
          db,
    )
unfolding steer_device
steer_device-moves db t d cfg h =
    let (eligible, other, there) = is_stuck-parts t cfg d h in rw (eligible, there, other)

module _ (t : Topology) (cfg : NetworkConfig) (id : ℕ) (rssi : ℤ) where
  abbrev pub steered_home : Topology
  steered_home = record t {
    devices = map (write_device id (steered cfg.steer_target_band rssi)) t.devices;
  }

  steered-not_stuck :
      (x : ConnectedDevice)
      → x.device_id ≡ id
      → is_stuck steered_home cfg (write_device id (steered cfg.steer_target_band rssi) x) ≡ false
  unfolding is_stuck write_device
  steered-not_stuck x e = ground (arith, text_eq_refl cfg.steer_target_band)

  stuck_before :
      (x : ConnectedDevice)
      → is_stuck steered_home cfg (write_device id (steered cfg.steer_target_band rssi) x) ≡ true
      → is_stuck t cfg x ≡ true
  unfolding is_stuck write_device bands_on ap_by_id
  stuck_before x h = ground (arith, text_eq_refl cfg.steer_target_band)

  -- One device fewer is stuck, if the steered one was.
  pub stuck_devices-steered :
      (d : ConnectedDevice)
      → Memᴰ d t.devices
      → d.device_id ≡ id
      → is_stuck t cfg d ≡ true
      → length (stuck_devices steered_home cfg) < length (stuck_devices t cfg)
  unfolding stuck_devices
  stuck_devices-steered d m e stuck =
      let w = write_device id (steered cfg.steer_target_band rssi) in
      rw
        (
          length-filter (is_stuck steered_home cfg) (map w t.devices),
          length-filter (is_stuck t cfg) t.devices,
        )
        (count-map-lt (is_stuck t cfg) (is_stuck steered_home cfg) w t.devices stuck_before m stuck
          (steered-not_stuck d e))

  pub unhealthy_extenders-steered : unhealthy_extenders steered_home cfg ≡ unhealthy_extenders t cfg
  unfolding unhealthy_extenders extenders
  unhealthy_extenders-steered = refl

module _ ⦃platform : Platform⦄ where
  -- The device that the finding names.
  band_stuck-target :
      (t : Topology) (cfg : NetworkConfig) {f : Finding}
      → device_band_stuck t cfg ≡ some f
      → (d : ConnectedDevice) × Memᴰ d (stuck_devices t cfg)
        × (f.target ≡ platform.show_uuid d.device_id)
  unfolding device_band_stuck
  band_stuck-target t cfg {f} h =
      go (min_by (λ (d : ConnectedDevice). d.rssi) (stuck_devices t cfg)) refl
    where
      go :
          (o : Option ConnectedDevice)
          → min_by (λ (d : ConnectedDevice). d.rssi) (stuck_devices t cfg) ≡ o
          → (d : ConnectedDevice) × Memᴰ d (stuck_devices t cfg)
            × (f.target ≡ platform.show_uuid d.device_id)
      go none e = ground arith
      go (some d) e =
          (d, min_by-mem (λ (d : ConnectedDevice). d.rssi) (stuck_devices t cfg) e, ground arith)

  -- Where ids are keys, the lookup by the finding's target finds that device.
  find_device-show :
      (t : Topology) (d : ConnectedDevice)
      → Memᴰ d t.devices
      → ((x : ConnectedDevice) → Memᴰ x t.devices → x.device_id ≡ d.device_id → x ≡ d)
      → find_device t (platform.show_uuid d.device_id) ≡ some d
  unfolding find_device
  find_device-show t d m key =
      let p = λ (x : ConnectedDevice). x.device_id == d.device_id in
      let (x, e) = find_of_mem p t.devices m (ground arith) in
      let same : x ≡ d =
        key x (find-mem p t.devices e) ((==_iff _ _).0 (find_passes p t.devices e)) in
      rw (platform.parse-show d.device_id, find_device) (e ∙ ap some same)

  band_steer-on :
      (db : Db) (t : Topology) (cfg : NetworkConfig) (target : Text) (d : ConnectedDevice)
      → find_device t target ≡ some d
      → is_stuck t cfg d ≡ true
      → band_steer db t target [] cfg ≡ (
        done (moved d.label d.band cfg.steer_target_band d.rssi (steered_rssi cfg d)),
        write_devices
            (write_device d.device_id (steered cfg.steer_target_band (steered_rssi cfg d)))
            db,
      )
  unfolding band_steer wanted_band lookup
  band_steer-on db t cfg target d e stuck = rw (e, band_steer) (steer_device-moves db t d cfg stuck)

  -- Acting on what the band detector found: the call succeeds, the home loads again, one device
  -- fewer is stuck, and no extender changed its health.
  pub band_steer_repairs :
      (db : Db) (tenant : Tenant) (party : ℕ) (cfg : NetworkConfig) {t : Topology} {f : Finding}
      → IsKeyed db
      → load_topology db tenant party ≡ ok t
      → device_band_stuck t cfg ≡ some f
      → (out : ActionOutcome) × (db' : Db) × (t' : Topology) × (band_steer db t f.target [] cfg
          ≡ (out, db'))
        × (out.ok ≡ true)
        × (load_topology db' tenant party ≡ ok t')
        × (length (stuck_devices t' cfg) < length (stuck_devices t cfg))
        × (unhealthy_extenders t' cfg ≡ unhealthy_extenders t cfg)
  unfolding stuck_devices
  band_steer_repairs db tenant party cfg {t} {f} keyed loaded found =
      let (d, among, target) = band_stuck-target t cfg found in
      let m = mem_of_mem-filter (is_stuck t cfg) t.devices among in
      let stuck = mem-filter_passes (is_stuck t cfg) t.devices among in
      let rssi = steered_rssi cfg d in
      let key = λ (x : ConnectedDevice) (n : Memᴰ x t.devices) (e : x.device_id ≡ d.device_id).
        keyed.device_key x d (mem-load_devices db tenant party loaded n)
          (mem-load_devices db tenant party loaded m) e in
      (
        done (moved d.label d.band cfg.steer_target_band d.rssi rssi),
        write_devices (write_device d.device_id (steered cfg.steer_target_band rssi)) db,
        steered_home t cfg d.device_id rssi,
        band_steer-on db t cfg f.target d (ap (find_device t) target ∙ find_device-show t d m key)
            stuck,
        refl,
        load-write_devices d.device_id cfg.steer_target_band rssi db tenant party loaded,
        stuck_devices-steered t cfg d.device_id rssi d m refl stuck,
        unhealthy_extenders-steered t cfg d.device_id rssi,
      )
