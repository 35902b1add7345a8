-- ===== src/Seed/Parties.antt =====
-- The parties that a tenant has after it was seeded.
use genesys_cx_demo_harness.Base.{
  ◌≡◌, refl, sym, ap, ◌∙◌, subst, Text, Option, none, some, List, Memᴰ, ◌==◌, ==_iff, inl, inr,
}
use genesys_cx_demo_harness.Platform.{Platform}
use genesys_cx_demo_harness.Store.{Tenant, Party, Db, Session, Result, ok, >>=-eq-ok, >>=-ok}
use genesys_cx_demo_harness.Seed.Pack.{Pack, NetworkCfg}
use genesys_cx_demo_harness.Seed.Tools.{SeedTools}
use genesys_cx_demo_harness.Seed.Rows.{SeedParty, NetworkCounts, seed_rows}
use genesys_cx_demo_harness.Seed.Network.{write_networks, seed_networks, prune_all}
use genesys_cx_demo_harness.Seed.Network.Again.{ok_pair}
use genesys_cx_demo_harness.Seed.Spine.{SpineRows, spine_rows}
use genesys_cx_demo_harness.Seed.Upsert.{upsert}
use genesys_cx_demo_harness.Seed.Upsert.Owned.{upsert-mine}
use genesys_cx_demo_harness.Seed.Generator.{
  SeedResult, seeded_tenant, merge_spine, prune_spine, seed_or_prune, seed_db, seed_tenant,
}
use genesys_cx_demo_harness.Scenarios.Engine.{load_pack}
use genesys_cx_demo_harness.Scenarios.Applied.{Result-cases}

module _ ⦃platform : Platform⦄ ⦃tools : SeedTools⦄ where
  seed_or_prune-parties :
      (tenant : Tenant) (network : Option NetworkCfg) (seeded : List SeedParty) (db : Db)
      {counts : NetworkCounts} {db' : Db}
      → seed_or_prune tenant network seeded db ≡ ok (counts, db')
      → db'.parties ≡ db.parties
  unfolding seed_or_prune seed_networks write_networks prune_all
  seed_or_prune-parties tenant none seeded db h = ap (λ (x : Db). x.parties) (sym (ok_pair h).1)
  seed_or_prune-parties tenant (some cfg) seeded db h =
      let (rows, e, done) = >>=-eq-ok (seed_rows tenant.tenant_id tenant.slug seeded cfg) _ h in
      ap (λ (x : Db). x.parties) (sym (ok_pair done).1)

  seed_db-parties :
      (slug : Text) (db : Db) (pack : Pack) (rows : SpineRows) {result : SeedResult} {db' : Db}
      → load_pack slug ≡ ok pack
      → spine_rows
          (seeded_tenant pack.tenant).tenant_id
          (seeded_tenant pack.tenant).slug
          pack.seed
          pack.seed.party_count
        ≡ ok rows
      → seed_db slug db ≡ ok (result, db')
      → db'.parties
        ≡ upsert
            (λ (p : Party). p.party_id)
            (λ p. p.tenant_id == (seeded_tenant pack.tenant).tenant_id)
            rows.parties
            db.parties
  unfolding seed_db prune_spine merge_spine upsert
  seed_db-parties slug db pack rows {result} {db'} read listed h =
      let tenant = seeded_tenant pack.tenant in
      let from_pack = sym (>>=-ok _ read) ∙ h in
      let from_rows = sym (>>=-ok _ listed) ∙ from_pack in
      let ((counts, mid), e, done) =
        >>=-eq-ok
          (seed_or_prune tenant pack.seed.network rows.seeded
            (prune_spine tenant rows (merge_spine tenant rows db)))
          _ from_rows in
      ap (λ (x : Db). x.parties) (sym (ok_pair done).1)
      ∙ seed_or_prune-parties tenant pack.seed.network rows.seeded
          (prune_spine tenant rows (merge_spine tenant rows db)) e

  -- After a tenant is seeded, each party that the tenant has is one of the rows that the pack
  -- describes, whatever parties it had before, and all of it is committed.
  pub seed_tenant-parties :
      (slug : Text) (s s' : Session) (pack : Pack) (rows : SpineRows) {result : SeedResult}
      {p : Party}
      → load_pack slug ≡ ok pack
      → spine_rows
          (seeded_tenant pack.tenant).tenant_id
          (seeded_tenant pack.tenant).slug
          pack.seed
          pack.seed.party_count
        ≡ ok rows
      → seed_tenant slug s ≡ (ok result, s')
      → Memᴰ p s'.committed.parties
      → p.tenant_id ≡ (seeded_tenant pack.tenant).tenant_id
      → Memᴰ p rows.parties × (s'.current ≡ s'.committed)
  unfolding seed_tenant
  seed_tenant-parties slug s s' pack rows {result} {p} read listed h m own =
      elim (Result-cases (seed_db slug s.current)) [
        | inl (e, failed) ↦ absurd (
            let bad =
              ap (λ (r : Result SeedResult × Session). r.0) (rw (failed, seed_tenant) at h) in
            cc)
        | inr ((done, db), worked) ↦
            let ended : ◌≡◌ {A = Result SeedResult × Session}
                (ok done, record { committed = db; current = db }) (ok result, s') =
              rw (worked, seed_tenant) at h in
            let store = ap (λ (r : Result SeedResult × Session). r.1) ended in
            let there = subst (λ (x : Session). Memᴰ p x.committed.parties) (sym store) m in
            (
              upsert-mine (λ (p : Party). p.party_id)
                  (λ p. p.tenant_id == (seeded_tenant pack.tenant).tenant_id) rows.parties
                  s.current.parties
                  (subst (λ (ps : List Party). Memᴰ p ps)
                    (seed_db-parties slug s.current pack rows read listed worked) there)
                  ((==_iff _ _).1 own),
              subst (λ (x : Session). x.current ≡ x.committed) store refl,
            )
      ]
