-- ===== src/Seed/Network/Again.antt =====
-- Seeding a tenant's networks again, and whose rows it writes.
use genesys_cx_demo_harness.Base.{
  ℕ, ◌≡◌, refl, ap, ◌∙◌, Text, List, [], ◌==◌, ◌||◌, false, All, arith,
}
use genesys_cx_demo_harness.Platform.{Platform}
use genesys_cx_demo_harness.Store.{Gateway, AccessPoint, Radio, ConnectedDevice, Db, ok, >>=-eq-ok}
use genesys_cx_demo_harness.Seed.Pack.{NetworkCfg}
use genesys_cx_demo_harness.Seed.Tools.{SeedTools}
use genesys_cx_demo_harness.Seed.Rows.{SeedParty, NetworkCounts, NetworkRows, seed_rows}
use genesys_cx_demo_harness.Seed.Network.{pruned_aps, write_networks, seed_networks}
use genesys_cx_demo_harness.Seed.Network.Closed.{HasAp, IsClosed}
use genesys_cx_demo_harness.Seed.Network.Listed.{seed_rows-IsClosed}
use genesys_cx_demo_harness.Seed.Upsert.{has_id, upsert}
use genesys_cx_demo_harness.Seed.Upsert.Cascaded.{
  cascade_keys_none, pruned-written, pruned_again, cascade_keys-upsert,
}
use genesys_cx_demo_harness.Seed.Upsert.Settled.{All-weaken, upsert_again}

-- The pruned access points refer to no row that is written.
radios-apart :
    (tenant : ℕ) (rows : NetworkRows) (db : Db)
    → IsClosed tenant rows
    → All (λ (r : Radio). has_id r.ap_id (pruned_aps tenant rows db) ≡ false) rows.radios
unfolding pruned_aps HasAp
radios-apart tenant rows db closed =
    All-weaken _ _ rows.radios
      (λ r p. pruned-written (λ (a : AccessPoint). a.ap_id) _ _ r.ap_id _ p.1) closed.own_radios

devices-apart :
    (tenant : ℕ) (rows : NetworkRows) (db : Db)
    → IsClosed tenant rows
    → All
        (λ (d : ConnectedDevice). has_id d.connected_ap_id (pruned_aps tenant rows db) ≡ false)
        rows.devices
unfolding pruned_aps HasAp
devices-apart tenant rows db closed =
    All-weaken _ _ rows.devices
      (λ d p. pruned-written (λ (a : AccessPoint). a.ap_id) _ _ d.connected_ap_id _ p.1)
      closed.own_devices

-- The radios and the devices are those of a coarser pruning.
pub write_networks-radios :
    (tenant : ℕ) (rows : NetworkRows) (db : Db)
    → IsClosed tenant rows
    → (write_networks tenant rows db).radios
      ≡ upsert
          (λ (r : Radio). r.radio_id)
          (λ r. r.tenant_id == tenant || has_id r.ap_id (pruned_aps tenant rows db))
          rows.radios
          db.radios
unfolding write_networks
write_networks-radios tenant rows db closed =
    cascade_keys-upsert (λ (r : Radio). r.radio_id) (λ r. r.ap_id) (pruned_aps tenant rows db) _
      rows.radios db.radios (radios-apart tenant rows db closed)

pub write_networks-devices :
    (tenant : ℕ) (rows : NetworkRows) (db : Db)
    → IsClosed tenant rows
    → (write_networks tenant rows db).devices
      ≡ upsert
          (λ (d : ConnectedDevice). d.device_id)
          (λ d. d.tenant_id == tenant || has_id d.connected_ap_id (pruned_aps tenant rows db))
          rows.devices
          db.devices
unfolding write_networks
write_networks-devices tenant rows db closed =
    cascade_keys-upsert (λ (d : ConnectedDevice). d.device_id) (λ d. d.connected_ap_id)
      (pruned_aps tenant rows db) _ rows.devices db.devices (devices-apart tenant rows db closed)

-- A second writing prunes no access point.
pruned_aps_again :
    (tenant : ℕ) (rows : NetworkRows) (db : Db)
    → pruned_aps tenant rows (write_networks tenant rows db) ≡ []
unfolding pruned_aps write_networks
pruned_aps_again tenant rows db =
    pruned_again (λ (a : AccessPoint). a.ap_id) (λ a. a.tenant_id == tenant) rows.access_points
      db.access_points

radios_again :
    (tenant : ℕ) (rows : NetworkRows) (db : Db)
    → IsClosed tenant rows
    → (write_networks tenant rows (write_networks tenant rows db)).radios
      ≡ (write_networks tenant rows db).radios
unfolding write_networks
radios_again tenant rows db closed =
    rw (pruned_aps_again tenant rows db, write_networks-radios tenant rows db closed)
      (cascade_keys_none _ _
        ∙ upsert_again (λ (r : Radio). r.radio_id) _ _ rows.radios db.radios
            (λ r h. ground (arith, h)))

devices_again :
    (tenant : ℕ) (rows : NetworkRows) (db : Db)
    → IsClosed tenant rows
    → (write_networks tenant rows (write_networks tenant rows db)).devices
      ≡ (write_networks tenant rows db).devices
unfolding write_networks
devices_again tenant rows db closed =
    rw (pruned_aps_again tenant rows db, write_networks-devices tenant rows db closed)
      (cascade_keys_none _ _
        ∙ upsert_again (λ (d : ConnectedDevice). d.device_id) _ _ rows.devices db.devices
            (λ r h. ground (arith, h)))

pub write_networks_again :
    (tenant : ℕ) (rows : NetworkRows) (db : Db)
    → IsClosed tenant rows
    → write_networks tenant rows (write_networks tenant rows db) ≡ write_networks tenant rows db
unfolding write_networks
write_networks_again tenant rows db closed =
    rw
      (
        upsert_again (λ (g : Gateway). g.gateway_id) _ (λ g. g.tenant_id == tenant) rows.gateways
            db.gateways (λ r h. h),
        upsert_again (λ (a : AccessPoint). a.ap_id) _ (λ a. a.tenant_id == tenant)
            rows.access_points db.access_points (λ r h. h),
        radios_again tenant rows db closed,
        devices_again tenant rows db closed,
      )
      refl

pub ok_pair {ℓ κ} :
    {A : Type ℓ} {B : Type κ} {p q : A × B} → ok p ≡ ok q → (p.0 ≡ q.0) × (p.1 ≡ q.1)
ok_pair {A = A} {B} {p} {q} h =
    let same : p ≡ q = cc in (ap (λ (r : A × B). r.0) same, ap (λ (r : A × B). r.1) same)

module _ ⦃platform : Platform⦄ ⦃tools : SeedTools⦄ where
  -- Where a seeding of a tenant's networks succeeds, the same seeding of the store that it leaves
  -- succeeds with the same counts and changes nothing.
  pub seed_networks_again :
      (db db' : Db) (tenant : ℕ) (slug : Text) (parties : List SeedParty) (cfg : NetworkCfg)
      {counts : NetworkCounts}
      → seed_networks db tenant slug parties cfg ≡ ok (counts, db')
      → seed_networks db' tenant slug parties cfg ≡ ok (counts, db')
  unfolding seed_networks
  seed_networks_again db db' tenant slug parties cfg {counts} h =
      let (rows, e, same) = >>=-eq-ok (seed_rows tenant slug parties cfg) _ h in
      let (numbers, store) = ok_pair same in
      rw
        (
          e,
          ← store,
          write_networks_again tenant rows db (seed_rows-IsClosed tenant slug parties cfg e),
        )
        (ap (λ (c : NetworkCounts). ok (c, write_networks tenant rows db)) numbers)
