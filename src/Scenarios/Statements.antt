-- ===== src/Scenarios/Statements.antt =====
-- `update(model).where(...).values(...)` on the network tables, as `apply` builds it
-- (app/scenarios/engine.py). What the database makes of a value of a pack is a parameter: the test
-- that `column == value` is, and what `SET column = value` stores; `none` where it refuses the
-- statement, as it does for a value of the wrong type or one that a CHECK constraint forbids.
use genesys_cx_demo_harness.Base.{
  ℕ, Bool, ◌&&◌, Text, text_eq, Dict, List, [], ◌∷◌, all, find, count, Option, none, some, ◌==◌,
  if◌then◌else◌, ◌+◌,
}
use genesys_cx_demo_harness.Store.{Tenant, Db, Result, ok, raised, ◌>>=◌, statement_error}
use genesys_cx_demo_harness.Scenarios.Columns.{
  Cell, Column, Entity, gateway, access_point, radio, connected_device, gateway_columns,
  access_point_columns, radio_columns, connected_device_columns,
}
use genesys_cx_demo_harness.Scenarios.Packs.{Literal, ScenarioStep}
use genesys_cx_demo_harness.Seed.Rows.{item, each}
use genesys_cx_demo_harness.Seed.Upsert.{has_id}

pub record Statements : Type 0 where
  pub compares : Entity → Text → Literal → Option (Cell → Bool)
  pub assigns : Entity → Text → Literal → Option Cell

-- What the database accepts.
abbrev pub accept {ℓ} : {A : Type ℓ} → Option A → Result A
accept none = raised statement_error
accept (some a) = ok a

module _ {Row : Type 0} where
  -- `getattr(model, name)`
  unfoldable pub column : List (Column Row) → Text → Result (Column Row)
  column cs name = item (find (λ (c : Column Row). text_eq c.name name) cs)

  -- The columns that are assigned, each with its value.
  unfoldable pub assign_all : List (Column Row × Cell) → Row → Result Row
  assign_all [] r = ok r
  assign_all ((c, cell) ∷ cs) r = accept (c.put cell r) >>= assign_all cs

  -- The rows after, those that are selected with the columns assigned.
  unfoldable pub assign_where :
      (Row → Bool) → List (Column Row × Cell) → List Row → Result (List Row)
  assign_where selected sets [] = ok []
  assign_where selected sets (r ∷ rs) = do
    r' ← (let new = assign_all sets r in if selected r then new else ok r)
    rs' ← assign_where selected sets rs
    ok (r' ∷ rs')

abbrev pub targeted : Tenant → List ℕ → ℕ → ℕ → Bool
targeted tenant party_ids row_tenant row_party =
    row_tenant == tenant.tenant_id && has_id row_party party_ids

module _ ⦃sql : Statements⦄ where
  module _ {Row : Type 0} (entity : Entity) (columns : List (Column Row)) where
    unfoldable pub where_clause : Text × Literal → Result (Row → Bool)
    where_clause (name, value) = do
      c ← column columns name
      test ← accept (sql.compares entity name value)
      ok (λ r. test (c.get r))

    unfoldable pub set_clause : Text × Literal → Result (Column Row × Cell)
    set_clause (name, value) = do
      c ← column columns name
      cell ← accept (sql.assigns entity name value)
      ok (c, cell)

    -- The statement on one table: how many rows it matched, and the table after.
    unfoldable pub update_rows :
        (Row → Bool) → Dict Literal → Dict Literal → List Row → Result (ℕ × List Row)
    update_rows owned match_fields set_fields rows = do
      sets ← each set_clause set_fields
      tests ← each where_clause match_fields
      let selected = λ (r : Row). owned r && all (λ (t : Row → Bool). t r) tests
      rows' ← assign_where selected sets rows
      ok (count selected rows, rows')

  unfoldable pub run_step : Tenant → List ℕ → ScenarioStep → Db → Result (ℕ × Db)
  run_step tenant party_ids step db =
      let mine = targeted tenant party_ids in
      elim step.entity [
        | gateway ↦ do
          (n, rows) ←
              update_rows gateway gateway_columns (λ g. mine g.tenant_id g.party_id)
                step.match_fields step.set_fields db.gateways
          ok (n, record db { gateways = rows })
        | access_point ↦ do
          (n, rows) ←
              update_rows access_point access_point_columns (λ a. mine a.tenant_id a.party_id)
                step.match_fields step.set_fields db.access_points
          ok (n, record db { access_points = rows })
        | radio ↦ do
          (n, rows) ←
              update_rows radio radio_columns (λ r. mine r.tenant_id r.party_id) step.match_fields
                step.set_fields db.radios
          ok (n, record db { radios = rows })
        | connected_device ↦ do
          (n, rows) ←
              update_rows connected_device connected_device_columns
                (λ d. mine d.tenant_id d.party_id) step.match_fields step.set_fields db.devices
          ok (n, record db { devices = rows })
      ]

  -- The steps, one after the other, and how many rows they matched in all.
  unfoldable pub run_steps : Tenant → List ℕ → List ScenarioStep → Db → Result (ℕ × Db)
  run_steps tenant party_ids [] db = ok (0, db)
  run_steps tenant party_ids (step ∷ steps) db = do
    (n, db') ← run_step tenant party_ids step db
    (more, done) ← run_steps tenant party_ids steps db'
    ok (n + more, done)
