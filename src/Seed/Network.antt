-- ===== src/Seed/Network.antt =====
-- Home networks from pack data (app/seed/network.py). A merge reads no row but the one it replaces,
-- so the rows are listed first and merged in that order. What the loop collects in `written` are
-- their keys, and its counts are their numbers. Of the tables' constraints only
-- the cascades are modelled.
pub mod Again
pub mod Closed
pub mod Listed
pub mod Tenants
use genesys_cx_demo_harness.Base.{
  ℕ, Bool, true, false, ◌&&◌, Text, lit, show_int, ℤ, pos, Dict, lookup, insert, IdDict, get_id,
  put_id, List, [], ◌∷◌, ◌++◌, map, filter, length, take, Option, none, some, get_or, ltb, ◌==◌,
  ◌+◌, ◌/◌, ◌%◌, if◌then◌else◌, is_empty,
}
use genesys_cx_demo_harness.Platform.{Platform}
use genesys_cx_demo_harness.Store.{
  Gateway, AccessPoint, Radio, ConnectedDevice, Db, Result, ok, raised, ◌>>=◌, key_error,
  index_error, format_error, scalar_one_or_none,
}
use genesys_cx_demo_harness.Seed.Pack.{
  GatewayCfg, ApCfg, RadioCfg, DeviceCfg, HomeProfile, NetworkCfg,
}
use genesys_cx_demo_harness.Seed.Tools.{SeedTools, key}
use genesys_cx_demo_harness.Seed.Upsert.{upsert, prune, put_all, pruned, cascade_keys}
use genesys_cx_demo_harness.Seed.Rows.{SeedParty, NetworkCounts, NetworkRows, seed_rows}

-- The access points that the pruning deletes.
unfoldable pub pruned_aps : ℕ → NetworkRows → Db → List ℕ
pruned_aps tenant_id rows db =
    pruned (λ (a : AccessPoint). a.ap_id) (λ a. a.tenant_id == tenant_id)
      (map (λ (a : AccessPoint). a.ap_id) rows.access_points)
      (put_all (λ (a : AccessPoint). a.ap_id) rows.access_points db.access_points)

-- The rows, merged, and the tenant's others pruned; with an access point go the radios and the
-- devices of any tenant that refer to it.
unfoldable pub write_networks : ℕ → NetworkRows → Db → Db
unfolding pruned_aps
write_networks tenant_id rows db = record db {
  gateways =
      upsert (λ (g : Gateway). g.gateway_id) (λ g. g.tenant_id == tenant_id) rows.gateways
        db.gateways;
  access_points =
      upsert (λ (a : AccessPoint). a.ap_id) (λ a. a.tenant_id == tenant_id) rows.access_points
        db.access_points;
  radios =
      cascade_keys (λ (r : Radio). r.ap_id) (pruned_aps tenant_id rows db)
        (upsert (λ (r : Radio). r.radio_id) (λ r. r.tenant_id == tenant_id) rows.radios db.radios);
  devices =
      cascade_keys (λ (d : ConnectedDevice). d.connected_ap_id) (pruned_aps tenant_id rows db)
        (upsert (λ (d : ConnectedDevice). d.device_id) (λ d. d.tenant_id == tenant_id) rows.devices
          db.devices);
}

module _ ⦃platform : Platform⦄ ⦃tools : SeedTools⦄ where
  unfoldable pub seed_networks :
      Db → ℕ → Text → List SeedParty → NetworkCfg → Result (NetworkCounts × Db)
  seed_networks db tenant_id slug parties cfg = do
    rows ← seed_rows tenant_id slug parties cfg
    ok (
      record {
        gateways = length rows.gateways;
        access_points = length rows.access_points;
        radios = length rows.radios;
        devices = length rows.devices;
      },
      write_networks tenant_id rows db,
    )

-- The tenant's access points, all of which `prune_all` deletes.
abbrev own_aps : ℕ → Db → List ℕ
own_aps tenant_id db =
    pruned (λ (a : AccessPoint). a.ap_id) (λ a. a.tenant_id == tenant_id) [] db.access_points

-- `prune_all`
unfoldable pub prune_all : Db → ℕ → Db
prune_all db tenant_id = record db {
  gateways = prune (λ (g : Gateway). g.gateway_id) (λ g. g.tenant_id == tenant_id) [] db.gateways;
  access_points =
      prune (λ (a : AccessPoint). a.ap_id) (λ a. a.tenant_id == tenant_id) [] db.access_points;
  radios =
      cascade_keys (λ (r : Radio). r.ap_id) (own_aps tenant_id db)
        (prune (λ (r : Radio). r.radio_id) (λ r. r.tenant_id == tenant_id) [] db.radios);
  devices =
      cascade_keys (λ (d : ConnectedDevice). d.connected_ap_id) (own_aps tenant_id db)
        (prune (λ (d : ConnectedDevice). d.device_id) (λ d. d.tenant_id == tenant_id) []
          db.devices);
}

-- The rows of a query with `LIMIT 1`.
unfoldable has_networks : Db → ℕ → Result Bool
has_networks db tenant_id =
    scalar_one_or_none (take 1 (filter (λ (g : Gateway). g.tenant_id == tenant_id) db.gateways))
    >>= elim [ none ↦ ok false | some g ↦ ok true ]
