-- ===== src/Seed/Network/Tenants.antt =====
-- The tenants whose networks a seeding writes.
use genesys_cx_demo_harness.Base.{
  ℕ, ◌≡◌, refl, ap, ◌∙◌, sym, Bool, true, false, Text, List, filter, not, ◌==◌, All, All-mem, Memᴰ,
  ==_iff, arith, subst,
}
use genesys_cx_demo_harness.Platform.{Platform}
use genesys_cx_demo_harness.Store.{
  Gateway, AccessPoint, Radio, ConnectedDevice, Db, ok, >>=-eq-ok, ok_injective,
}
use genesys_cx_demo_harness.Seed.Pack.{NetworkCfg}
use genesys_cx_demo_harness.Seed.Tools.{SeedTools}
use genesys_cx_demo_harness.Seed.Rows.{SeedParty, NetworkCounts, NetworkRows, seed_rows}
use genesys_cx_demo_harness.Seed.Network.{pruned_aps, write_networks, seed_networks}
use genesys_cx_demo_harness.Seed.Network.Again.{
  ok_pair, write_networks-radios, write_networks-devices,
}
use genesys_cx_demo_harness.Seed.Network.Closed.{HasAp, IsClosed}
use genesys_cx_demo_harness.Seed.Network.Listed.{seed_rows-IsClosed}
use genesys_cx_demo_harness.Seed.Upsert.{upsert, has_id}
use genesys_cx_demo_harness.Seed.Upsert.Cascaded.{filter-cascade_keys, cascade_keys_apart}
use genesys_cx_demo_harness.Seed.Upsert.Settled.{has-upsert, has_id-map, All-weaken}
use genesys_cx_demo_harness.Seed.Upsert.Owned.{IsApart, upsert-mine, upsert-other}

-- An access point that was written is in the table after.
HasAp-upsert :
    (mine : AccessPoint → Bool) (aps table : List AccessPoint) (id : ℕ)
    → HasAp aps id
    → HasAp (upsert (λ (a : AccessPoint). a.ap_id) mine aps table) id
unfolding HasAp
HasAp-upsert mine aps table id h =
    has_id-map (λ (a : AccessPoint). a.ap_id) id _
    ∙ has-upsert (λ (a : AccessPoint). a.ap_id) mine aps table id h

write_networks-refers :
    (tenant : ℕ) (rows : NetworkRows) (db : Db)
    → IsClosed tenant rows
    → (((r : Radio)
          → Memᴰ r (write_networks tenant rows db).radios
          → r.tenant_id ≡ tenant
          → HasAp (write_networks tenant rows db).access_points r.ap_id)
        × ((d : ConnectedDevice)
            → Memᴰ d (write_networks tenant rows db).devices
            → d.tenant_id ≡ tenant
            → HasAp (write_networks tenant rows db).access_points d.connected_ap_id))
unfolding write_networks
write_networks-refers tenant rows db closed = (
  (λ r m own.
      HasAp-upsert _ rows.access_points db.access_points r.ap_id
        (All-mem _ rows.radios closed.own_radios (
          upsert-mine (λ (r : Radio). r.radio_id) _ rows.radios db.radios
            (subst (λ (rs : List Radio). Memᴰ r rs) (write_networks-radios tenant rows db closed) m)
            (ground (arith, (==_iff _ _).1 own)))).1),
  (λ d m own.
      HasAp-upsert _ rows.access_points db.access_points d.connected_ap_id
        (All-mem _ rows.devices closed.own_devices (
          upsert-mine (λ (d : ConnectedDevice). d.device_id) _ rows.devices db.devices
            (subst (λ (ds : List ConnectedDevice). Memᴰ d ds)
              (write_networks-devices tenant rows db closed) m)
            (ground (arith, (==_iff _ _).1 own)))).1),
)

-- The network rows of the other tenants.
abbrev foreign : ℕ → ℕ → Bool
foreign tenant row_tenant = not (row_tenant == tenant)

abbrev pub others : ℕ → Db → NetworkRows
others tenant db = record {
  gateways = filter (λ g. foreign tenant g.tenant_id) db.gateways;
  access_points = filter (λ a. foreign tenant a.tenant_id) db.access_points;
  radios = filter (λ r. foreign tenant r.tenant_id) db.radios;
  devices = filter (λ d. foreign tenant d.tenant_id) db.devices;
}

-- No network row of another tenant has the key of one of the rows, and none refers to an access
-- point that the seeding prunes.
pub record IsApartFrom (tenant : ℕ) (rows : NetworkRows) (db : Db) : Type 0 where
  pub gateways_apart :
      IsApart
        (λ (g : Gateway). g.gateway_id)
        (λ g. foreign tenant g.tenant_id)
        rows.gateways
        db.gateways
  pub access_points_apart :
      IsApart
        (λ (a : AccessPoint). a.ap_id)
        (λ a. foreign tenant a.tenant_id)
        rows.access_points
        db.access_points
  pub radios_apart :
      IsApart (λ (r : Radio). r.radio_id) (λ r. foreign tenant r.tenant_id) rows.radios db.radios
  pub devices_apart :
      IsApart
        (λ (d : ConnectedDevice). d.device_id)
        (λ d. foreign tenant d.tenant_id)
        rows.devices
        db.devices
  pub radios_kept :
      All
        (λ (r : Radio).
          foreign tenant r.tenant_id ≡ true → has_id r.ap_id (pruned_aps tenant rows db) ≡ false)
        db.radios
  pub devices_kept :
      All
        (λ (d : ConnectedDevice).
          foreign tenant d.tenant_id ≡ true
          → has_id d.connected_ap_id (pruned_aps tenant rows db) ≡ false)
        db.devices

own-not_foreign : (tenant t : ℕ) → t ≡ tenant → foreign tenant t ≡ false
own-not_foreign tenant t e = ground (arith, (==_iff t tenant).1 e)

foreign-not_own : (tenant t : ℕ) → foreign tenant t ≡ true → (t == tenant) ≡ false
foreign-not_own tenant t h = ground (arith, h)

others-write_networks :
    (tenant : ℕ) (rows : NetworkRows) (db : Db)
    → IsClosed tenant rows
    → IsApartFrom tenant rows db
    → others tenant (write_networks tenant rows db) ≡ others tenant db
unfolding write_networks
others-write_networks tenant rows db closed apart =
    let f = own-not_foreign tenant in
    let n = foreign-not_own tenant in
    rw
      (
        upsert-other (λ (g : Gateway). g.gateway_id) (λ g. foreign tenant g.tenant_id)
            (λ g. g.tenant_id == tenant) rows.gateways db.gateways (λ g. n g.tenant_id)
            (All-weaken _ _ rows.gateways (λ g. f g.tenant_id) closed.own_gateways)
            apart.gateways_apart,
        upsert-other (λ (a : AccessPoint). a.ap_id) (λ a. foreign tenant a.tenant_id)
            (λ a. a.tenant_id == tenant) rows.access_points db.access_points (λ a. n a.tenant_id)
            (All-weaken _ _ rows.access_points (λ a. f a.tenant_id) closed.own_access_points)
            apart.access_points_apart,
        filter-cascade_keys (λ (r : Radio). r.ap_id) (pruned_aps tenant rows db)
            (λ r. foreign tenant r.tenant_id) _,
        upsert-other (λ (r : Radio). r.radio_id) (λ r. foreign tenant r.tenant_id)
            (λ r. r.tenant_id == tenant) rows.radios db.radios (λ r. n r.tenant_id)
            (All-weaken _ _ rows.radios (λ r p. f r.tenant_id p.0) closed.own_radios)
            apart.radios_apart,
        cascade_keys_apart (λ (r : Radio). r.ap_id) (pruned_aps tenant rows db)
            (λ r. foreign tenant r.tenant_id) db.radios apart.radios_kept,
        filter-cascade_keys (λ (d : ConnectedDevice). d.connected_ap_id) (pruned_aps tenant rows db)
            (λ d. foreign tenant d.tenant_id) _,
        upsert-other (λ (d : ConnectedDevice). d.device_id) (λ d. foreign tenant d.tenant_id)
            (λ d. d.tenant_id == tenant) rows.devices db.devices (λ d. n d.tenant_id)
            (All-weaken _ _ rows.devices (λ d p. f d.tenant_id p.0) closed.own_devices)
            apart.devices_apart,
        cascade_keys_apart (λ (d : ConnectedDevice). d.connected_ap_id) (pruned_aps tenant rows db)
            (λ d. foreign tenant d.tenant_id) db.devices apart.devices_kept,
      )
      refl

module _ ⦃platform : Platform⦄ ⦃tools : SeedTools⦄ where
  -- After a successful seeding of a tenant's networks, each radio of the tenant is on an access point
  -- that the store has, and each connected device of the tenant refers to one.
  pub seed_networks-refers :
      (db db' : Db) (tenant : ℕ) (slug : Text) (parties : List SeedParty) (cfg : NetworkCfg)
      {counts : NetworkCounts}
      → seed_networks db tenant slug parties cfg ≡ ok (counts, db')
      → ((r : Radio) → Memᴰ r db'.radios → r.tenant_id ≡ tenant → HasAp db'.access_points r.ap_id)
        × ((d : ConnectedDevice)
            → Memᴰ d db'.devices
            → d.tenant_id ≡ tenant
            → HasAp db'.access_points d.connected_ap_id)
  unfolding seed_networks
  seed_networks-refers db db' tenant slug parties cfg h =
      let (rows, e, same) = >>=-eq-ok (seed_rows tenant slug parties cfg) _ h in
      let (numbers, store) = ok_pair same in
      subst
        (λ (x : Db).
          ((r : Radio) → Memᴰ r x.radios → r.tenant_id ≡ tenant → HasAp x.access_points r.ap_id)
          × ((d : ConnectedDevice)
              → Memᴰ d x.devices
              → d.tenant_id ≡ tenant
              → HasAp x.access_points d.connected_ap_id))
        store (write_networks-refers tenant rows db (seed_rows-IsClosed tenant slug parties cfg e))

  -- The network rows of every other tenant are as they were, where none of them has the key of a row
  -- that the seeding writes, and none of their radios and devices refers to an access point that the
  -- seeding prunes.
  pub seed_networks-others :
      (db db' : Db) (tenant : ℕ) (slug : Text) (parties : List SeedParty) (cfg : NetworkCfg)
      {counts : NetworkCounts} {rows : NetworkRows}
      → seed_rows tenant slug parties cfg ≡ ok rows
      → IsApartFrom tenant rows db
      → seed_networks db tenant slug parties cfg ≡ ok (counts, db')
      → others tenant db' ≡ others tenant db
  unfolding seed_networks
  seed_networks-others db db' tenant slug parties cfg {rows = rows} listed apart h =
      let (found, e, same) = >>=-eq-ok (seed_rows tenant slug parties cfg) _ h in
      let (numbers, store) = ok_pair same in
      let it : found ≡ rows = ok_injective (sym e ∙ listed) in
      sym (ap (others tenant) store)
      ∙ (ap (λ (r : NetworkRows). others tenant (write_networks tenant r db)) it
          ∙ others-write_networks tenant rows db (seed_rows-IsClosed tenant slug parties cfg listed)
              apart)
