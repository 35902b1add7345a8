-- ===== src/Scenarios/Baseline.antt =====
-- What a reset makes of the tables.
use genesys_cx_demo_harness.Base.{
  ℕ, ◌≡◌, refl, sym, ap, ◌∙◌, not, List, filter, Option, none, some, Option-cases, inl, inr, ◌==◌,
  ◌+◌, length,
}
use genesys_cx_demo_harness.Platform.{Platform}
use genesys_cx_demo_harness.Store.{Tenant, Party, Event, CustomerOrder, Db, ok, >>=-eq-ok, >>=-ok}
use genesys_cx_demo_harness.Events.{Stamp}
use genesys_cx_demo_harness.Seed.Pack.{Pack, NetworkCfg}
use genesys_cx_demo_harness.Seed.Tools.{SeedTools}
use genesys_cx_demo_harness.Seed.Rows.{SeedParty, NetworkRows, seed_rows}
use genesys_cx_demo_harness.Seed.Network.{write_networks, seed_networks}
use genesys_cx_demo_harness.Seed.Network.Again.{ok_pair, write_networks_again}
use genesys_cx_demo_harness.Scenarios.Engine.{
  ScenarioResult, load_pack, wanted, baseline_rows, baseline_parties, restore_networks,
  without_events_and_orders, log_reset, reset_db,
}
use genesys_cx_demo_harness.Seed.Upsert.Settled.{filter-filter}
use genesys_cx_demo_harness.Seed.Network.Closed.{IsClosed}
use genesys_cx_demo_harness.Seed.Network.Listed.{seed_rows-IsClosed}

-- The networks written, if the pack has any.
unfoldable pub networks_of : Tenant → Option NetworkRows → Db → Db
networks_of tenant none db = db
networks_of tenant (some rows) db = write_networks tenant.tenant_id rows db

-- What a reset makes of a store.
unfoldable pub restored : Tenant → Option NetworkRows → Db → Db
unfolding networks_of
restored tenant rows db = without_events_and_orders tenant (networks_of tenant rows db)

-- Rows that a pack lists are the tenant's, and refer to one another.
unfoldable pub AreClosed : Tenant → Option NetworkRows → Type 0
AreClosed tenant none = Unit
AreClosed tenant (some rows) = IsClosed tenant.tenant_id rows

pub restored_again :
    (tenant : Tenant) (rows : Option NetworkRows) (db : Db)
    → AreClosed tenant rows
    → restored tenant rows (restored tenant rows db) ≡ restored tenant rows db
unfolding restored networks_of AreClosed write_networks
restored_again tenant none db closed =
    rw
      (
        filter-filter (λ (e : Event). not (e.tenant_id == tenant.tenant_id)) _ db.events (λ e h. h),
        filter-filter (λ (o : CustomerOrder). not (o.tenant_id == tenant.tenant_id)) _ db.orders
            (λ o h. h),
      )
      refl
restored_again tenant (some rows) db closed =
    rw
      (
        filter-filter (λ (e : Event). not (e.tenant_id == tenant.tenant_id)) _ db.events (λ e h. h),
        filter-filter (λ (o : CustomerOrder). not (o.tenant_id == tenant.tenant_id)) _ db.orders
            (λ o h. h),
      )
      (ap (λ (x : Db). without_events_and_orders tenant x)
        (write_networks_again tenant.tenant_id rows db closed))

pub restored-parties :
    (tenant : Tenant) (rows : Option NetworkRows) (db : Db)
    → (restored tenant rows db).parties ≡ db.parties
unfolding restored networks_of write_networks
restored-parties tenant none db = refl
restored-parties tenant (some rows) db = refl

-- How many rows that is.
pub total : NetworkRows → ℕ
total rows =
    length rows.gateways + length rows.access_points + length rows.radios + length rows.devices

module _ ⦃platform : Platform⦄ ⦃tools : SeedTools⦄ where
  restore_networks-ok :
      (tenant : Tenant) (pack : Pack) (cfg : NetworkCfg) (db : Db) {rows : NetworkRows}
      → pack.seed.network ≡ some cfg
      → seed_rows tenant.tenant_id tenant.slug (baseline_parties db tenant pack) cfg ≡ ok rows
      → restore_networks tenant pack db ≡ ok (total rows, write_networks tenant.tenant_id rows db)
  unfolding restore_networks seed_networks total
  restore_networks-ok tenant pack cfg db {rows} has_network listed =
      rw (has_network, restore_networks) (rw listed refl)

  baseline_parties_same :
      (tenant : Tenant) (pack : Pack) (db later : Db)
      → later.parties ≡ db.parties
      → baseline_parties later tenant pack ≡ baseline_parties db tenant pack
  unfolding baseline_parties
  baseline_parties_same tenant pack db later same =
      ap
        (λ (ps : List Party).
          baseline_rows (wanted tenant.slug pack.seed.party_count)
            (filter (λ (p : Party). p.tenant_id == tenant.tenant_id) ps))
        same

  -- What is written depends on the parties only.
  restore_networks-rows :
      (tenant : Tenant) (pack : Pack) (db : Db) {n : ℕ} {db' : Db}
      → restore_networks tenant pack db ≡ ok (n, db')
      → (rows : Option NetworkRows) × AreClosed tenant rows
        × (db' ≡ networks_of tenant rows db)
        × ((later : Db)
            → later.parties ≡ db.parties
            → restore_networks tenant pack later ≡ ok (n, networks_of tenant rows later))
  unfolding restore_networks seed_networks networks_of AreClosed
  restore_networks-rows tenant pack db {n} {db'} h = elim (Option-cases pack.seed.network) [
    | inl nothing ↦
        let (number, store) = ok_pair (rw (nothing, restore_networks) at h) in
        (
          none,
          tt,
          sym store,
          λ later same. rw (nothing, restore_networks) (ap (λ (m : ℕ). ok (m, later)) number),
        )
    | inr (cfg, has_network) ↦
        let (answer, e, rest) =
          >>=-eq-ok
            (seed_networks db tenant.tenant_id tenant.slug (baseline_parties db tenant pack) cfg) _
            (rw (has_network, restore_networks) at h) in
        let (rows, listed, made) =
          >>=-eq-ok (seed_rows tenant.tenant_id tenant.slug (baseline_parties db tenant pack) cfg) _
            e in
        let (number, store) =
          ok_pair (sym (restore_networks-ok tenant pack cfg db has_network listed) ∙ h) in
        (
          some rows,
          seed_rows-IsClosed tenant.tenant_id tenant.slug (baseline_parties db tenant pack) cfg
              listed,
          sym store,
          λ later same.
              restore_networks-ok tenant pack cfg later has_network (
                ap (λ (ps : List SeedParty). seed_rows tenant.tenant_id tenant.slug ps cfg)
                  (baseline_parties_same tenant pack db later same)
                ∙ listed)
              ∙ ap (λ (m : ℕ). ok (m, write_networks tenant.tenant_id rows later)) number,
        )
  ]

  -- A reset that succeeds, as what it makes of the store; it succeeds alike on any store with the
  -- same parties.
  pub reset_db-restored :
      (tenant : Tenant) (logged : Option Stamp) (db : Db) {result : ScenarioResult} {db' : Db}
      → reset_db tenant logged db ≡ ok (result, db')
      → (rows : Option NetworkRows) × AreClosed tenant rows
        × (db' ≡ log_reset tenant result.rows_changed logged (restored tenant rows db))
        × ((later : Db)
            → later.parties ≡ db.parties
            → reset_db tenant logged later
              ≡ ok (
                result,
                log_reset tenant result.rows_changed logged (restored tenant rows later),
              ))
  unfolding reset_db restored
  reset_db-restored tenant logged db {result} {db'} h =
      let (pack, read, next) = >>=-eq-ok (load_pack tenant.slug) _ h in
      let ((n, written), e, done) = >>=-eq-ok (restore_networks tenant pack db) _ next in
      let (rows, closed, made, alike) = restore_networks-rows tenant pack db e in
      let (answer, store) = ok_pair done in
      let number : n ≡ result.rows_changed = ap (λ (r : ScenarioResult). r.rows_changed) answer in
      (
        rows,
        closed,
        sym store
            ∙ (ap (λ (x : Db). log_reset tenant n logged (without_events_and_orders tenant x)) made
                ∙ ap (λ (m : ℕ). log_reset tenant m logged (restored tenant rows db)) number),
        λ later same.
            >>=-ok _ read
            ∙ (>>=-ok _ (alike later same)
                ∙ (ap
                      (λ (r : ScenarioResult).
                        ok (r, log_reset tenant n logged (restored tenant rows later)))
                      answer
                    ∙ ap
                        (λ (m : ℕ).
                          ok (result, log_reset tenant m logged (restored tenant rows later)))
                        number)),
      )
