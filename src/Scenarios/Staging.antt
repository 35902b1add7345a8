-- ===== src/Scenarios/Staging.antt =====
-- What staging a scenario and resetting a tenant leave in the session.
use genesys_cx_demo_harness.Base.{
  ℕ, ◌≡◌, refl, sym, ap, ◌∙◌, subst, Bool, true, false, Text, lit, List, [], ◌∷◌, is_empty, All,
  Bool-cases, Option-cases, inl, inr, if◌then◌else◌, suc, text_eq,
}
use genesys_cx_demo_harness.Platform.{Platform}
use genesys_cx_demo_harness.Store.{Tenant, Event, ScenarioEvent, Db, ok, >>=-eq-ok, ok_injective}
use genesys_cx_demo_harness.Events.{Stamp, add_event}
use genesys_cx_demo_harness.Network.Home.{load_topology, Topology, has_nothing}
use genesys_cx_demo_harness.Network.Config.{network_config}
use genesys_cx_demo_harness.Network.Faults.{build_verdict, no_fault}
use genesys_cx_demo_harness.Network.Telemetry.{emit_network_telemetry, emit_for}
use genesys_cx_demo_harness.Seed.Tools.{SeedTools}
use genesys_cx_demo_harness.Seed.Network.Again.{ok_pair}
use genesys_cx_demo_harness.Scenarios.Packs.{ScenarioFiles, Scenario, parse_step, load_scenario}
use genesys_cx_demo_harness.Scenarios.Statements.{Statements, run_steps}
use genesys_cx_demo_harness.Scenarios.Engine.{
  ScenarioResult, target_party_ids, log, emit_all, stage_db,
}
use genesys_cx_demo_harness.Scenarios.Fields.{IsSettable, parse_step-IsSettable}
use genesys_cx_demo_harness.Scenarios.Scopes.{IsScoped, IsScoped-trans}
use genesys_cx_demo_harness.Scenarios.Scoped.{run_steps-IsScoped}
use genesys_cx_demo_harness.Seed.Rows.{each}
use genesys_cx_demo_harness.Seed.Network.Closed.{each-All}

on_if {ℓ κ} :
    {A : Type ℓ} (P : A → Type κ) (b : Bool) (x y : A) → P x → P y → P (if b then x else y)
on_if P true x y p q = p
on_if P false x y p q = q

-- Events and log entries are not in the scope.
logs-IsScoped :
    (tenant : Tenant) (parties : List ℕ) (db : Db) (es : List Event) (log : List ScenarioEvent)
    → IsScoped tenant parties db (record db { events = es; scenario_events = log })
logs-IsScoped tenant parties db es log = record {
  gateways_scoped = (refl, refl);
  access_points_scoped = (refl, refl);
  radios_scoped = (refl, refl);
  devices_scoped = (refl, refl);
  others_same = refl;
}

module _ ⦃platform : Platform⦄ where
  -- Every step of a scenario that loads sets only what may be set.
  pub load_scenario-IsSettable :
      ⦃files : ScenarioFiles⦄ (slug name : Text) {scenario : Scenario}
      → load_scenario slug name ≡ ok scenario
      → All IsSettable scenario.steps
  unfolding load_scenario
  load_scenario-IsSettable ⦃files⦄ slug name {scenario} h =
      elim (Option-cases (files.read slug name)) [
        | inl missing ↦ absurd (let bad = rw (missing, load_scenario) at h in cc)
        | inr (raw, found) ↦ elim (Bool-cases (is_empty raw.identifiers)) [
          | inl nobody ↦ absurd (let bad = rw (found, nobody, load_scenario) at h in cc)
          | inr somebody ↦
              let (steps, e, done) =
                >>=-eq-ok (each (parse_step name) raw.steps) _
                  (rw (found, somebody, load_scenario) at h) in
              subst (λ (s : Scenario). All IsSettable s.steps) (ok_injective done)
                (each-All _ _ raw.steps (λ r s p. (parse_step-IsSettable name r p).0) e)
        ]
      ]

  -- Telemetry adds events only.
  emit_for-events :
      (tenant : Tenant) (party : ℕ) (t : Topology) (stamp : Stamp) (db : Db)
      → (es : List Event) × ((emit_for tenant party t stamp db).1 ≡ record db { events = es })
  unfolding emit_for add_event
  emit_for-events tenant party t stamp db = on_if P (has_nothing t) _ _ kept (
      on_if P (text_eq (build_verdict t (network_config tenant)).fault_type no_fault) _ _ kept
        (_, refl))
    where
      P : Bool × Db → Type 0
      P r = (es : List Event) × (r.1 ≡ record db { events = es })

      kept : P (false, db)
      kept = (db.events, refl)

  emit_all-events :
      (tenant : Tenant) (stamps : ℕ → Stamp) (i : ℕ) (parties : List ℕ) (db : Db) {db' : Db}
      ⦃tools : SeedTools⦄ ⦃sql : Statements⦄
      → emit_all tenant stamps i parties db ≡ ok db'
      → (es : List Event) × (db' ≡ record db { events = es })
  unfolding emit_all emit_network_telemetry
  emit_all-events tenant stamps i [] db h = (db.events, sym (ok_injective h))
  emit_all-events tenant stamps i (party ∷ parties) db h =
      let ((flag, mid), e, rest) =
        >>=-eq-ok (emit_network_telemetry tenant party (stamps i) db) _ h in
      let (t, loaded, done) = >>=-eq-ok (load_topology db tenant party) _ e in
      let (es, last) = emit_all-events tenant stamps (suc i) parties mid rest in
      let (fs, first) = emit_for-events tenant party t (stamps i) db in
      (es, last ∙ ap (λ (x : Db). record x { events = es }) (sym (ok_pair done).1 ∙ first))

module _ ⦃platform : Platform⦄ ⦃tools : SeedTools⦄ ⦃sql : Statements⦄ where
  pub stage_db-IsScoped :
      (tenant : Tenant) (name : Text) (scenario : Scenario) (stamps : ℕ → Stamp) (db : Db)
      {result : ScenarioResult} {db' : Db}
      → All IsSettable scenario.steps
      → stage_db tenant name scenario stamps db ≡ ok (result, db')
      → IsScoped tenant (target_party_ids db tenant scenario.identifiers) db db'
  unfolding stage_db log
  stage_db-IsScoped tenant name scenario stamps db {result} {db'} may h =
      let parties = target_party_ids db tenant scenario.identifiers in
      elim (Bool-cases (is_empty parties)) [
        | inl nobody ↦ absurd (let bad = rw (nobody, stage_db) at h in cc)
        | inr somebody ↦
            let ((n, staged), e, next) =
              >>=-eq-ok (run_steps tenant parties scenario.steps db) _
                (rw (somebody, stage_db) at h) in
            let (noted, f, done) = >>=-eq-ok (emit_all tenant stamps 1 parties staged) _ next in
            let (es, same) = emit_all-events tenant stamps 1 parties staged f in
            let logged : IsScoped tenant parties staged
                (log tenant (lit "apply") scenario.name n (stamps 0) noted) =
              subst
                (λ (x : Db).
                  IsScoped tenant parties staged
                    (log tenant (lit "apply") scenario.name n (stamps 0) x))
                (sym same) (logs-IsScoped tenant parties staged es _) in
            subst (λ (x : Db). IsScoped tenant parties db x) (ok_pair done).1
              (IsScoped-trans tenant parties db staged _
                (run_steps-IsScoped tenant parties scenario.steps db may e) logged)
      ]
