-- ===== src/Scenarios/Scoped.antt =====
-- What the steps of a scenario leave as it was.
use genesys_cx_demo_harness.Base.{
  ℕ, ◌≡◌, refl, subst, true, Text, one_of, Dict, List, [], ◌∷◌, All, arith,
}
use genesys_cx_demo_harness.Store.{
  Tenant, Gateway, AccessPoint, Radio, ConnectedDevice, Db, ok, >>=-eq-ok,
}
use genesys_cx_demo_harness.Scenarios.Columns.{
  Entity, gateway, access_point, radio, connected_device, settable, gateway_columns,
  access_point_columns, radio_columns, connected_device_columns,
}
use genesys_cx_demo_harness.Scenarios.Packs.{Literal, ScenarioStep}
use genesys_cx_demo_harness.Scenarios.Statements.{
  Statements, update_rows, targeted, run_step, run_steps,
}
use genesys_cx_demo_harness.Scenarios.Fields.{IsSettable}
use genesys_cx_demo_harness.Scenarios.Kept.{
  gateway_ids, access_point_ids, radio_ids, device_ids, gateways-keep, access_points-keep,
  radios-keep, devices-keep,
}
use genesys_cx_demo_harness.Seed.Network.Again.{ok_pair}
use genesys_cx_demo_harness.Scenarios.Scope.{update_rows-Keeps}
use genesys_cx_demo_harness.Scenarios.Scopes.{untargeted, IsScoped, IsScoped-refl, IsScoped-trans}

module _ ⦃sql : Statements⦄ where
  gateways-IsScoped :
      (tenant : Tenant) (party_ids : List ℕ) (match_fields set_fields : Dict Literal) (db : Db)
      {n : ℕ} {rows : List Gateway}
      → All (λ (f : Text × Literal). one_of f.0 (settable gateway) ≡ true) set_fields
      → update_rows gateway gateway_columns
          (λ r. targeted tenant party_ids r.tenant_id r.party_id)
          match_fields
          set_fields
          db.gateways
        ≡ ok (n, rows)
      → IsScoped tenant party_ids db (record db { gateways = rows })
  gateways-IsScoped tenant party_ids match_fields set_fields db may h =
      let kept =
        update_rows-Keeps gateway_ids gateway gateway_columns
          (λ r. targeted tenant party_ids r.tenant_id r.party_id) (untargeted tenant party_ids)
          match_fields set_fields db.gateways gateways-keep may (λ r o. ground (arith, o)) h in
      record {
        gateways_scoped = kept;
        access_points_scoped = (refl, refl);
        radios_scoped = (refl, refl);
        devices_scoped = (refl, refl);
        others_same = refl;
      }

  access_points-IsScoped :
      (tenant : Tenant) (party_ids : List ℕ) (match_fields set_fields : Dict Literal) (db : Db)
      {n : ℕ} {rows : List AccessPoint}
      → All (λ (f : Text × Literal). one_of f.0 (settable access_point) ≡ true) set_fields
      → update_rows access_point access_point_columns
          (λ r. targeted tenant party_ids r.tenant_id r.party_id)
          match_fields
          set_fields
          db.access_points
        ≡ ok (n, rows)
      → IsScoped tenant party_ids db (record db { access_points = rows })
  access_points-IsScoped tenant party_ids match_fields set_fields db may h =
      let kept =
        update_rows-Keeps access_point_ids access_point access_point_columns
          (λ r. targeted tenant party_ids r.tenant_id r.party_id) (untargeted tenant party_ids)
          match_fields set_fields db.access_points access_points-keep may (λ r o. ground (arith, o))
          h in
      record {
        gateways_scoped = (refl, refl);
        access_points_scoped = kept;
        radios_scoped = (refl, refl);
        devices_scoped = (refl, refl);
        others_same = refl;
      }

  radios-IsScoped :
      (tenant : Tenant) (party_ids : List ℕ) (match_fields set_fields : Dict Literal) (db : Db)
      {n : ℕ} {rows : List Radio}
      → All (λ (f : Text × Literal). one_of f.0 (settable radio) ≡ true) set_fields
      → update_rows radio radio_columns
          (λ r. targeted tenant party_ids r.tenant_id r.party_id)
          match_fields
          set_fields
          db.radios
        ≡ ok (n, rows)
      → IsScoped tenant party_ids db (record db { radios = rows })
  radios-IsScoped tenant party_ids match_fields set_fields db may h =
      let kept =
        update_rows-Keeps radio_ids radio radio_columns
          (λ r. targeted tenant party_ids r.tenant_id r.party_id) (untargeted tenant party_ids)
          match_fields set_fields db.radios radios-keep may (λ r o. ground (arith, o)) h in
      record {
        gateways_scoped = (refl, refl);
        access_points_scoped = (refl, refl);
        radios_scoped = kept;
        devices_scoped = (refl, refl);
        others_same = refl;
      }

  devices-IsScoped :
      (tenant : Tenant) (party_ids : List ℕ) (match_fields set_fields : Dict Literal) (db : Db)
      {n : ℕ} {rows : List ConnectedDevice}
      → All (λ (f : Text × Literal). one_of f.0 (settable connected_device) ≡ true) set_fields
      → update_rows connected_device connected_device_columns
          (λ r. targeted tenant party_ids r.tenant_id r.party_id)
          match_fields
          set_fields
          db.devices
        ≡ ok (n, rows)
      → IsScoped tenant party_ids db (record db { devices = rows })
  devices-IsScoped tenant party_ids match_fields set_fields db may h =
      let kept =
        update_rows-Keeps device_ids connected_device connected_device_columns
          (λ r. targeted tenant party_ids r.tenant_id r.party_id) (untargeted tenant party_ids)
          match_fields set_fields db.devices devices-keep may (λ r o. ground (arith, o)) h in
      record {
        gateways_scoped = (refl, refl);
        access_points_scoped = (refl, refl);
        radios_scoped = (refl, refl);
        devices_scoped = kept;
        others_same = refl;
      }

  run_step-IsScoped :
      (tenant : Tenant) (party_ids : List ℕ) (step : ScenarioStep) (db : Db) {n : ℕ} {db' : Db}
      → IsSettable step
      → run_step tenant party_ids step db ≡ ok (n, db')
      → IsScoped tenant party_ids db db'
  unfolding run_step
  run_step-IsScoped tenant party_ids step db {n} {db'} may h = go step.entity may h
    where
      go :
          (entity : Entity)
          → All (λ (f : Text × Literal). one_of f.0 (settable entity) ≡ true) step.set_fields
          → run_step tenant party_ids (record step { entity = entity }) db ≡ ok (n, db')
          → IsScoped tenant party_ids db db'
      go gateway may h =
          let (made, e, done) =
            >>=-eq-ok
              (update_rows gateway gateway_columns
                (λ r. targeted tenant party_ids r.tenant_id r.party_id) step.match_fields
                step.set_fields db.gateways)
              _ h in
          subst (λ (x : Db). IsScoped tenant party_ids db x) (ok_pair done).1
            (gateways-IsScoped tenant party_ids step.match_fields step.set_fields db may e)
      go access_point may h =
          let (made, e, done) =
            >>=-eq-ok
              (update_rows access_point access_point_columns
                (λ r. targeted tenant party_ids r.tenant_id r.party_id) step.match_fields
                step.set_fields db.access_points)
              _ h in
          subst (λ (x : Db). IsScoped tenant party_ids db x) (ok_pair done).1
            (access_points-IsScoped tenant party_ids step.match_fields step.set_fields db may e)
      go radio may h =
          let (made, e, done) =
            >>=-eq-ok
              (update_rows radio radio_columns
                (λ r. targeted tenant party_ids r.tenant_id r.party_id) step.match_fields
                step.set_fields db.radios)
              _ h in
          subst (λ (x : Db). IsScoped tenant party_ids db x) (ok_pair done).1
            (radios-IsScoped tenant party_ids step.match_fields step.set_fields db may e)
      go connected_device may h =
          let (made, e, done) =
            >>=-eq-ok
              (update_rows connected_device connected_device_columns
                (λ r. targeted tenant party_ids r.tenant_id r.party_id) step.match_fields
                step.set_fields db.devices)
              _ h in
          subst (λ (x : Db). IsScoped tenant party_ids db x) (ok_pair done).1
            (devices-IsScoped tenant party_ids step.match_fields step.set_fields db may e)

  pub run_steps-IsScoped :
      (tenant : Tenant) (party_ids : List ℕ) (steps : List ScenarioStep) (db : Db) {n : ℕ}
      {db' : Db}
      → All IsSettable steps
      → run_steps tenant party_ids steps db ≡ ok (n, db')
      → IsScoped tenant party_ids db db'
  unfolding run_steps
  run_steps-IsScoped tenant party_ids [] db may h =
      subst (λ (x : Db). IsScoped tenant party_ids db x) (ok_pair h).1
        (IsScoped-refl tenant party_ids db)
  run_steps-IsScoped tenant party_ids (step ∷ steps) db may h =
      let ((n, mid), e, next) = >>=-eq-ok (run_step tenant party_ids step db) _ h in
      let ((m, last), f, done) = >>=-eq-ok (run_steps tenant party_ids steps mid) _ next in
      subst (λ (x : Db). IsScoped tenant party_ids db x) (ok_pair done).1
        (IsScoped-trans tenant party_ids db mid last
          (run_step-IsScoped tenant party_ids step db may.0 e)
          (run_steps-IsScoped tenant party_ids steps mid may.1 f))
