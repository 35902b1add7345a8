-- ===== src/Network/Repair/Reload.antt =====
-- A home read again after a verb wrote a row: it is the home as it was, with that row written.
use genesys_cx_demo_harness.Base.{
  ℕ, ◌≡◌, sym, ap, ◌∙◌, Text, ℤ, List, map, Memᴰ, filter, Option, subst, sort_by, map-sort_by,
  map-filter, mem_of_mem-sort_by, mem_of_mem-filter, arith,
}
use genesys_cx_demo_harness.Platform.{Platform}
use genesys_cx_demo_harness.Store.{
  Tenant, Gateway, AccessPoint, ConnectedDevice, Db, Result, ok, ◌>>=◌, >>=-eq-ok,
  scalar_one_or_none,
}
use genesys_cx_demo_harness.Network.Home.{
  Topology, scoped, by_kind_and_label, by_label, home_of, load_topology,
}
use genesys_cx_demo_harness.Network.Actions.{steered, restarted, write_device, write_ap}

abbrev pub write_devices : (ConnectedDevice → ConnectedDevice) → Db → Db
write_devices w db = record db { devices = map w db.devices }

abbrev pub write_aps : (AccessPoint → AccessPoint) → Db → Db
write_aps w db = record db { access_points = map w db.access_points }

-- The ids of the table are primary keys.
pub record IsKeyed (db : Db) : Type 0 where
  pub device_key :
      (x y : ConnectedDevice)
      → Memᴰ x db.devices
      → Memᴰ y db.devices
      → x.device_id ≡ y.device_id
      → x ≡ y
  pub ap_key :
      (x y : AccessPoint)
      → Memᴰ x db.access_points
      → Memᴰ y db.access_points
      → x.ap_id ≡ y.ap_id
      → x ≡ y

module _ ⦃platform : Platform⦄ where
  module _ (id : ℕ) (band : Text) (rssi : ℤ) where
    by_label-write :
        (x y : ConnectedDevice)
        → by_label (write_device id (steered band rssi) x) (write_device id (steered band rssi) y)
          ≡ by_label x y
    unfolding write_device
    by_label-write x y = ground arith

    scoped-write :
        (tenant party : ℕ) (x : ConnectedDevice)
        → scoped tenant party
            (write_device id (steered band rssi) x).tenant_id
            (write_device id (steered band rssi) x).party_id
          ≡ scoped tenant party x.tenant_id x.party_id
    unfolding write_device
    scoped-write tenant party x = ground arith

    home_of-write_devices :
        (db : Db) (tenant : Tenant) (party : ℕ) (g : Option Gateway)
        → let w = write_device id (steered band rssi) in
          home_of (write_devices w db) tenant party g ≡ record (home_of db tenant party g) {
            devices = map w (home_of db tenant party g).devices;
          }
    unfolding home_of
    home_of-write_devices db tenant party g =
        let w = write_device id (steered band rssi) in
        let p = λ (d : ConnectedDevice). scoped tenant.tenant_id party d.tenant_id d.party_id in
        ap (λ (ds : List ConnectedDevice). record (home_of db tenant party g) { devices = ds })
          (ap (sort_by by_label)
              (sym (map-filter p w (scoped-write tenant.tenant_id party) db.devices))
            ∙ sym (map-sort_by by_label w by_label-write (filter p db.devices)))

  module _ (id : ℕ) (backhaul : ℤ) where
    by_kind-write :
        (x y : AccessPoint)
        → by_kind_and_label
            (write_ap id (restarted backhaul) x)
            (write_ap id (restarted backhaul) y)
          ≡ by_kind_and_label x y
    unfolding write_ap
    by_kind-write x y = ground arith

    scoped-write_ap :
        (tenant party : ℕ) (x : AccessPoint)
        → scoped tenant party
            (write_ap id (restarted backhaul) x).tenant_id
            (write_ap id (restarted backhaul) x).party_id
          ≡ scoped tenant party x.tenant_id x.party_id
    unfolding write_ap
    scoped-write_ap tenant party x = ground arith

    home_of-write_aps :
        (db : Db) (tenant : Tenant) (party : ℕ) (g : Option Gateway)
        → let w = write_ap id (restarted backhaul) in
          home_of (write_aps w db) tenant party g ≡ record (home_of db tenant party g) {
            access_points = map w (home_of db tenant party g).access_points;
          }
    unfolding home_of
    home_of-write_aps db tenant party g =
        let w = write_ap id (restarted backhaul) in
        let p = λ (a : AccessPoint). scoped tenant.tenant_id party a.tenant_id a.party_id in
        ap (λ (aps : List AccessPoint). record (home_of db tenant party g) { access_points = aps })
          (ap (sort_by by_kind_and_label)
              (sym (map-filter p w (scoped-write_ap tenant.tenant_id party) db.access_points))
            ∙ sym (map-sort_by by_kind_and_label w by_kind-write (filter p db.access_points)))

  -- A loaded home is `home_of` the tables, with the one gateway that was found.
  pub load-home :
      (db : Db) (tenant : Tenant) (party : ℕ) {t : Topology}
      → load_topology db tenant party ≡ ok t
      → (g : Option Gateway) × (scalar_one_or_none (
            filter
              (λ (g : Gateway). scoped tenant.tenant_id party g.tenant_id g.party_id)
              db.gateways)
          ≡ ok g)
        × (home_of db tenant party g ≡ t)
  unfolding load_topology
  load-home db tenant party {t} h =
      let (g, e, k) =
        >>=-eq-ok
          (scalar_one_or_none (
            filter (λ (g : Gateway). scoped tenant.tenant_id party g.tenant_id g.party_id)
              db.gateways))
          (λ g. ok (home_of db tenant party g)) h in
      (g, e, ok_injective k)
    where
      ok_injective : {a b : Topology} → ◌≡◌ {A = Result Topology} (ok a) (ok b) → a ≡ b
      ok_injective k = cc

  -- Every device of a loaded home is a row of the table, and so is every access point.
  pub mem-load_devices :
      (db : Db) (tenant : Tenant) (party : ℕ) {t : Topology} {d : ConnectedDevice}
      → load_topology db tenant party ≡ ok t
      → Memᴰ d t.devices
      → Memᴰ d db.devices
  unfolding home_of
  mem-load_devices db tenant party {t} {d} h m =
      let (g, e, k) = load-home db tenant party h in
      mem_of_mem-filter
        (λ (d : ConnectedDevice). scoped tenant.tenant_id party d.tenant_id d.party_id) db.devices
        (mem_of_mem-sort_by by_label _ (subst (λ (u : Topology). Memᴰ d u.devices) (sym k) m))

  pub mem-load_aps :
      (db : Db) (tenant : Tenant) (party : ℕ) {t : Topology} {a : AccessPoint}
      → load_topology db tenant party ≡ ok t
      → Memᴰ a t.access_points
      → Memᴰ a db.access_points
  unfolding home_of
  mem-load_aps db tenant party {t} {a} h m =
      let (g, e, k) = load-home db tenant party h in
      mem_of_mem-filter (λ (a : AccessPoint). scoped tenant.tenant_id party a.tenant_id a.party_id)
        db.access_points
        (mem_of_mem-sort_by by_kind_and_label _
          (subst (λ (u : Topology). Memᴰ a u.access_points) (sym k) m))

  -- After a device was written the home loads with exactly that device written.
  pub load-write_devices :
      (id : ℕ) (band : Text) (rssi : ℤ) (db : Db) (tenant : Tenant) (party : ℕ) {t : Topology}
      → load_topology db tenant party ≡ ok t
      → load_topology (write_devices (write_device id (steered band rssi)) db) tenant party
        ≡ ok (record t { devices = map (write_device id (steered band rssi)) t.devices })
  unfolding load_topology
  load-write_devices id band rssi db tenant party {t} h =
      let w = write_device id (steered band rssi) in
      let (g, e, k) = load-home db tenant party h in
      rw (e, ◌>>=◌)
        (ap ok (
          home_of-write_devices id band rssi db tenant party g
          ∙ ap (λ (u : Topology). record u { devices = map w u.devices }) k))

  -- After an access point was written the home loads with exactly that access point written.
  pub load-write_aps :
      (id : ℕ) (backhaul : ℤ) (db : Db) (tenant : Tenant) (party : ℕ) {t : Topology}
      → load_topology db tenant party ≡ ok t
      → load_topology (write_aps (write_ap id (restarted backhaul)) db) tenant party
        ≡ ok (record t { access_points = map (write_ap id (restarted backhaul)) t.access_points })
  unfolding load_topology
  load-write_aps id backhaul db tenant party {t} h =
      let w = write_ap id (restarted backhaul) in
      let (g, e, k) = load-home db tenant party h in
      rw (e, ◌>>=◌)
        (ap ok (
          home_of-write_aps id backhaul db tenant party g
          ∙ ap (λ (u : Topology). record u { access_points = map w u.access_points }) k))
