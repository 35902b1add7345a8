-- ===== src/Seed/Generator.antt =====
-- Seeding a tenant from its pack (`seed_tenant` of app/seed/generator.py). Branding is not modelled.
use genesys_cx_demo_harness.Base.{
  ℕ, Bool, not, Text, lit, List, [], ◌∷◌, map, filter, any, length, Option, none, some, ◌==◌, ◌&&◌,
}
use genesys_cx_demo_harness.Platform.{Platform}
use genesys_cx_demo_harness.Store.{
  Tenant, Party, Identity, Verification, ContactPoint, Gateway, AccessPoint, Radio, ConnectedDevice,
  Event, CustomerOrder, Db, Session, commit, Result, ok, raised, ◌>>=◌,
}
use genesys_cx_demo_harness.Seed.Pack.{TenantCfg, NetworkCfg}
use genesys_cx_demo_harness.Seed.Tools.{SeedTools, key}
use genesys_cx_demo_harness.Seed.Upsert.{has_id, put, put_all, prune, cascade_keys}
use genesys_cx_demo_harness.Seed.Rows.{SeedParty, NetworkCounts}
use genesys_cx_demo_harness.Seed.Network.{seed_networks, prune_all}
use genesys_cx_demo_harness.Seed.Spine.{SpineRows, spine_rows}
use genesys_cx_demo_harness.Scenarios.Engine.{load_pack}

pub record SeedResult : Type 0 where
  pub tenant_slug : Text
  pub tenants : ℕ
  pub parties : ℕ
  pub identities : ℕ
  pub verifications : ℕ
  pub contact_points : ℕ
  pub network : NetworkCounts

-- `select(Party.party_id).where(Party.tenant_id == tenant_id)`
unfoldable has_party : ℕ → List Party → ℕ → Bool
has_party tenant_id parties id =
    any (λ (p : Party). p.tenant_id == tenant_id && p.party_id == id) parties

abbrev gone_aps : (ℕ → Bool) → List AccessPoint → List ℕ
gone_aps gone aps =
    map (λ (a : AccessPoint). a.ap_id) (filter (λ (a : AccessPoint). gone a.party_id) aps)

-- `ON DELETE CASCADE`: what refers to a party that is deleted goes with it, and what refers to an
-- access point that goes.
abbrev cascade : (ℕ → Bool) → Db → Db
cascade gone db = record db {
  identities = filter (λ (i : Identity). not (gone i.party_id)) db.identities;
  verifications = filter (λ (v : Verification). not (gone v.party_id)) db.verifications;
  contact_points = filter (λ (c : ContactPoint). not (gone c.party_id)) db.contact_points;
  gateways = filter (λ (g : Gateway). not (gone g.party_id)) db.gateways;
  access_points = filter (λ (a : AccessPoint). not (gone a.party_id)) db.access_points;
  radios =
      cascade_keys (λ (r : Radio). r.ap_id) (gone_aps gone db.access_points)
        (filter (λ (r : Radio). not (gone r.party_id)) db.radios);
  devices =
      cascade_keys (λ (d : ConnectedDevice). d.connected_ap_id) (gone_aps gone db.access_points)
        (filter (λ (d : ConnectedDevice). not (gone d.party_id)) db.devices);
  events = filter (λ (e : Event). not (gone e.party_id)) db.events;
  orders = filter (λ (o : CustomerOrder). not (gone o.party_id)) db.orders;
}

-- The merges and the flush.
unfoldable pub merge_spine : Tenant → SpineRows → Db → Db
merge_spine tenant rows db = record db {
  tenants = put (λ (t : Tenant). t.tenant_id) tenant db.tenants;
  parties = put_all (λ (p : Party). p.party_id) rows.parties db.parties;
  identities = put_all (λ (i : Identity). i.identity_id) rows.identities db.identities;
  verifications =
      put_all (λ (v : Verification). v.verification_id) rows.verifications db.verifications;
  contact_points =
      put_all (λ (c : ContactPoint). c.contact_point_id) rows.contact_points db.contact_points;
}

-- `_prune`: the rows of the tenant's parties that were not written go before the parties do.
unfoldable pub prune_spine : Tenant → SpineRows → Db → Db
unfolding has_party
prune_spine tenant rows db =
    let mine = has_party tenant.tenant_id db.parties in
    let written = map (λ (p : Party). p.party_id) rows.parties in
    let pruned = record db {
      verifications =
          prune (λ (v : Verification). v.verification_id) (λ v. mine v.party_id)
            (map (λ (v : Verification). v.verification_id) rows.verifications) db.verifications;
      contact_points =
          prune (λ (c : ContactPoint). c.contact_point_id) (λ c. mine c.party_id)
            (map (λ (c : ContactPoint). c.contact_point_id) rows.contact_points) db.contact_points;
      identities =
          prune (λ (i : Identity). i.identity_id) (λ i. i.tenant_id == tenant.tenant_id)
            (map (λ (i : Identity). i.identity_id) rows.identities) db.identities;
      parties =
          prune (λ (p : Party). p.party_id) (λ p. p.tenant_id == tenant.tenant_id) written
            db.parties;
    } in
    cascade (λ id. mine id && not (has_id id written)) pruned

module _ ⦃platform : Platform⦄ ⦃tools : SeedTools⦄ where
  unfoldable pub seeded_tenant : TenantCfg → Tenant
  seeded_tenant cfg = record {
    tenant_id = key (lit "tenant" ∷ cfg.slug ∷ []);
    slug = cfg.slug;
    display_name = cfg.display_name;
    industry = cfg.industry;
    config_json = cfg.config_json;
  }

  -- The networks, if the pack has any; else the tenant's are removed.
  unfoldable pub seed_or_prune :
      Tenant → Option NetworkCfg → List SeedParty → Db → Result (NetworkCounts × Db)
  unfolding seed_networks prune_all
  seed_or_prune tenant none seeded db = ok (
    record { gateways = 0; access_points = 0; radios = 0; devices = 0 },
    prune_all db tenant.tenant_id,
  )
  seed_or_prune tenant (some cfg) seeded db =
      seed_networks db tenant.tenant_id tenant.slug seeded cfg

  unfoldable pub seed_db : Text → Db → Result (SeedResult × Db)
  unfolding merge_spine prune_spine
  seed_db tenant_slug db = do
    pack ← load_pack tenant_slug
    let tenant = seeded_tenant pack.tenant
    rows ← spine_rows tenant.tenant_id tenant.slug pack.seed pack.seed.party_count
    (counts, seeded) ←
        seed_or_prune tenant pack.seed.network rows.seeded
          (prune_spine tenant rows (merge_spine tenant rows db))
    ok (
      record {
        tenant_slug = tenant.slug;
        tenants = 1;
        parties = pack.seed.party_count;
        identities = length rows.identities;
        verifications = length rows.verifications;
        contact_points = length rows.contact_points;
        network = counts;
      },
      seeded,
    )

  unfoldable pub seed_tenant : Text → Session → Result SeedResult × Session
  seed_tenant tenant_slug s = elim (seed_db tenant_slug s.current) [
    | raised e ↦ (raised e, s)
    | ok (result, db) ↦ (ok result, commit (record s { current = db }))
  ]
