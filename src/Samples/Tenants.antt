-- ===== src/Samples/Tenants.antt =====
-- The theorem on the parties of a seeded tenant, applied.
use genesys_cx_demo_harness.Gx.Normalize.{strip}
use genesys_cx_demo_harness.Profile.{hash_factor}
use genesys_cx_demo_harness.Seed.Rows.{each}
use genesys_cx_demo_harness.Seed.Upsert.{upsert, put_all, prune, put, pruned, cascade_keys}
use genesys_cx_demo_harness.Seed.Tools.{key}
use genesys_cx_demo_harness.Base.{
  show_int, lookup, text_eq, ◌≡◌, refl, true, lit, some, [], ◌∷◌, Memᴰ,
}
use genesys_cx_demo_harness.Store.{Party, Db, ok}
use genesys_cx_demo_harness.Scenarios.Engine.{load_pack}
use genesys_cx_demo_harness.Seed.Spine.{tier_of, SpineRows, spine_rows}
use genesys_cx_demo_harness.Seed.Network.{write_networks, seed_networks}
use genesys_cx_demo_harness.Seed.Generator.{
  SeedResult, seed_or_prune, seed_db, seed_tenant, seeded_tenant, merge_spine, prune_spine,
}
use genesys_cx_demo_harness.Seed.Parties.{seed_tenant-parties}
use genesys_cx_demo_harness.Samples.{toy, acme, ada, stuck_home, opened}
use genesys_cx_demo_harness.Samples.Seeds.{
  toy_tools, acme_pack, home_cfg, home_counts, home_listed, ada_seeded, listed_home,
}

abbrev golden_ada : Party
golden_ada = record ada { tier = some (lit "gold") }

abbrev rows : SpineRows
rows = record {
  parties = golden_ada ∷ [];
  identities =
      record {
        identity_id = 17;
        tenant_id = 1;
        party_id = 2;
        id_type = lit "email";
        value = lit "ada.lovelace.0@x.org";
        is_primary = true;
      }
      ∷ [];
  verifications =
      record {
        verification_id = 19;
        party_id = 2;
        factor_type = lit "pin";
        value_hash = lit "pin:10";
      }
      ∷ [];
  contact_points =
      record {
        contact_point_id = 14;
        party_id = 2;
        channel = lit "sms";
        value = lit "+44770090000";
        consent = true;
      }
      ∷ [];
  seeded = ada_seeded;
}

abbrev seeded_store : Db
seeded_store = record stuck_home {
  parties = rows.parties;
  identities = rows.identities;
  verifications = rows.verifications;
  contact_points = rows.contact_points;
  gateways = home_listed.gateways;
  access_points = home_listed.access_points;
  radios = home_listed.radios;
  devices = home_listed.devices;
}

abbrev seed_result : SeedResult
seed_result = record {
  tenant_slug = lit "acme";
  tenants = 1;
  parties = 1;
  identities = 1;
  verifications = 1;
  contact_points = 1;
  network = home_counts;
}

read_pack : load_pack (lit "acme") ≡ ok acme_pack
unfolding load_pack text_eq
read_pack = refl

the_tenant : seeded_tenant acme_pack.tenant ≡ acme
unfolding seeded_tenant key
the_tenant = refl

listed : spine_rows 1 (lit "acme") acme_pack.seed 1 ≡ ok rows
unfolding spine_rows tier_of each lookup text_eq key show_int hash_factor strip
listed = refl

abbrev spine_store : Db
spine_store = record stuck_home {
  parties = rows.parties;
  identities = rows.identities;
  verifications = rows.verifications;
  contact_points = rows.contact_points;
}

written : prune_spine acme rows (merge_spine acme rows stuck_home) ≡ spine_store
unfolding prune_spine merge_spine put prune put_all cascade_keys
written = refl

networks :
    seed_or_prune acme (some home_cfg) ada_seeded spine_store ≡ ok (home_counts, seeded_store)
unfolding seed_or_prune seed_networks write_networks upsert put cascade_keys pruned
networks = rw listed_home refl

seeded : seed_db (lit "acme") stuck_home ≡ ok (seed_result, seeded_store)
unfolding seed_db
seeded = rw (seed_db, read_pack) (rw the_tenant (rw listed (rw written (rw networks refl))))

seeded_session :
    seed_tenant (lit "acme") (opened stuck_home) ≡ (ok seed_result, opened seeded_store)
unfolding seed_tenant
seeded_session = rw (seeded, seed_tenant) refl

seed_tenant-parties_example : Memᴰ golden_ada rows.parties × (seeded_store ≡ seeded_store)
unfolding seeded_tenant key
seed_tenant-parties_example =
    seed_tenant-parties (lit "acme") (opened stuck_home) (opened seeded_store) acme_pack rows
      read_pack listed seeded_session (Memᴰ.head refl) refl
