-- ===== src/Scenarios/Applied.antt =====
-- What applying a scenario leaves in the session, whether it succeeds or raises.
use genesys_cx_demo_harness.Base.{
  ℕ, ◌≡◌, refl, sym, ap, ◌∙◌, subst, true, false, Text, none, Bool-cases, inl, inr, ◌⊎◌,
}
use genesys_cx_demo_harness.Platform.{Platform}
use genesys_cx_demo_harness.Store.{
  Tenant, Db, Session, commit, Error, Result, ok, raised, ok_injective,
}
use genesys_cx_demo_harness.Events.{Stamp}
use genesys_cx_demo_harness.Seed.Tools.{SeedTools}
use genesys_cx_demo_harness.Scenarios.Packs.{ScenarioFiles, Scenario, load_scenario}
use genesys_cx_demo_harness.Scenarios.Statements.{Statements}
use genesys_cx_demo_harness.Scenarios.Engine.{
  ScenarioResult, target_party_ids, reset_db, reset, stage_db, stage, apply,
}
use genesys_cx_demo_harness.Scenarios.Scopes.{IsScoped}
use genesys_cx_demo_harness.Scenarios.Staging.{load_scenario-IsSettable, stage_db-IsScoped}

pub Result-cases {ℓ} :
    {A : Type ℓ} (r : Result A) → ((e : Error) × (r ≡ raised e)) ⊎ ((a : A) × (r ≡ ok a))
Result-cases (raised e) = inl (e, refl)
Result-cases (ok a) = inr (a, refl)

module _ ⦃platform : Platform⦄ ⦃tools : SeedTools⦄ ⦃sql : Statements⦄ ⦃files : ScenarioFiles⦄ where
  -- The session that a scenario is staged on: the one given, or what a reset made of it.
  unfoldable pub IsStart : Tenant → Scenario → Session → Session → Type 0
  IsStart tenant scenario s start =
      ((scenario.reset_first ≡ false) × (start ≡ s))
      ⊎ ((scenario.reset_first ≡ true)
          × ((done : ScenarioResult) × (reset tenant none s ≡ (ok done, start))))

  apply-stage :
      (tenant : Tenant) (name : Text) (scenario : Scenario) (stamps : ℕ → Stamp) (s s' : Session)
      {outcome : Result ScenarioResult}
      → load_scenario tenant.slug name ≡ ok scenario
      → apply tenant name stamps s ≡ (outcome, s')
      → ((e : Error) × (outcome ≡ raised e) × (s' ≡ s))
        ⊎ ((start : Session) × IsStart tenant scenario s start
            × (stage tenant name scenario stamps start ≡ (outcome, s')))
  unfolding IsStart apply reset stage_db
  apply-stage tenant name scenario stamps s s' {outcome} loaded h =
      elim (Bool-cases scenario.reset_first) [
        | inr off ↦ inr (s, inl (off, refl), rw (loaded, off, apply) at h)
        | inl on ↦ elim (Result-cases (reset_db tenant none s.current)) [
          | inl (e, failed) ↦
              let ended : ◌≡◌ {A = Result ScenarioResult × Session} (raised e, s) (outcome, s') =
                rw (loaded, on, failed, apply, reset) at h in
              inl (
                e,
                ap (λ (r : Result ScenarioResult × Session). r.0) (sym ended),
                ap (λ (r : Result ScenarioResult × Session). r.1) (sym ended),
              )
          | inr ((done, db), worked) ↦ inr (
            commit (record s { current = db }),
            inr (on, (done, rw (worked, reset) refl)),
            rw (loaded, on, worked, apply, reset) at h,
          )
        ]
      ]

  stage-committed :
      (tenant : Tenant) (name : Text) (scenario : Scenario) (stamps : ℕ → Stamp) (s s' : Session)
      {result : ScenarioResult}
      → stage tenant name scenario stamps s ≡ (ok result, s')
      → (db : Db) × (stage_db tenant name scenario stamps s.current ≡ ok (result, db))
        × (s' ≡ commit (record s { current = db }))
  unfolding stage
  stage-committed tenant name scenario stamps s s' {result} h =
      elim (Result-cases (stage_db tenant name scenario stamps s.current)) [
        | inl (e, failed) ↦ absurd (
            let bad = ap (λ (r : Result ScenarioResult × Session). r.0) (rw (failed, stage) at h) in
            cc)
        | inr ((done, db), worked) ↦
            let ended : ◌≡◌ {A = Result ScenarioResult × Session}
                (ok done, commit (record s { current = db })) (ok result, s') =
              rw (worked, stage) at h in
            let same : done ≡ result =
              ok_injective (ap (λ (r : Result ScenarioResult × Session). r.0) ended) in
            (
              db,
              rw (worked, same) refl,
              ap (λ (r : Result ScenarioResult × Session). r.1) (sym ended),
            )
      ]

  stage-raised :
      (tenant : Tenant) (name : Text) (scenario : Scenario) (stamps : ℕ → Stamp) (s s' : Session)
      {e : Error}
      → stage tenant name scenario stamps s ≡ (raised e, s')
      → s' ≡ s
  unfolding stage
  stage-raised tenant name scenario stamps s s' {e} h =
      elim (Result-cases (stage_db tenant name scenario stamps s.current)) [
        | inl (f, failed) ↦
            sym (ap (λ (r : Result ScenarioResult × Session). r.1) (rw (failed, stage) at h))
        | inr ((done, db), worked) ↦ absurd (
            let bad = ap (λ (r : Result ScenarioResult × Session). r.0) (rw (worked, stage) at h) in
            cc)
      ]

  -- Where a scenario is applied, it was staged on the session given, or on what a reset of the tenant
  -- made of it if the scenario asks for one; the network rows of what is committed are those of that
  -- session by key, owner and name, its rows of other tenants and of subscribers that the scenario does
  -- not name are unchanged, and only network rows, events and the scenario log may differ.
  pub apply-IsScoped :
      (tenant : Tenant) (name : Text) (scenario : Scenario) (stamps : ℕ → Stamp) (s s' : Session)
      {result : ScenarioResult}
      → load_scenario tenant.slug name ≡ ok scenario
      → apply tenant name stamps s ≡ (ok result, s')
      → (start : Session) × IsStart tenant scenario s start
        × IsScoped tenant
            (target_party_ids start.current tenant scenario.identifiers)
            start.current
            s'.committed
        × (s'.current ≡ s'.committed)
  apply-IsScoped tenant name scenario stamps s s' {result} loaded h =
      elim (apply-stage tenant name scenario stamps s s' loaded h) [
        | inl (e, bad, same) ↦ absurd (let no_way = bad in cc)
        | inr (start, origin, staged) ↦
            let (db, made, ended) = stage-committed tenant name scenario stamps start s' staged in
            (
              start,
              origin,
              subst
                  (λ (x : Session).
                    IsScoped tenant (target_party_ids start.current tenant scenario.identifiers)
                      start.current x.committed)
                  (sym ended)
                  (stage_db-IsScoped tenant name scenario stamps start.current
                    (load_scenario-IsSettable tenant.slug name loaded) made),
              subst (λ (x : Session). x.current ≡ x.committed) (sym ended) refl,
            )
      ]

  -- Where applying a scenario raises, the session is as it was, or it is what a reset of the tenant
  -- committed, and the scenario asks for one.
  pub apply-raised :
      (tenant : Tenant) (name : Text) (stamps : ℕ → Stamp) (s s' : Session) {e : Error}
      → apply tenant name stamps s ≡ (raised e, s')
      → (s' ≡ s)
        ⊎ ((scenario : Scenario) × (load_scenario tenant.slug name ≡ ok scenario)
            × (scenario.reset_first ≡ true)
            × (done : ScenarioResult) × (reset tenant none s ≡ (ok done, s')))
  unfolding apply IsStart
  apply-raised tenant name stamps s s' {e} h =
      elim (Result-cases (load_scenario tenant.slug name)) [
        | inl (f, missing) ↦
            inl (sym (ap (λ (r : Result ScenarioResult × Session). r.1) (rw (missing, apply) at h)))
        | inr (scenario, loaded) ↦ elim (apply-stage tenant name scenario stamps s s' loaded h) [
          | inl (f, bad, same) ↦ inl same
          | inr (start, inl (off, same), staged) ↦
              inl (stage-raised tenant name scenario stamps start s' staged ∙ same)
          | inr (start, inr (on, (done, worked)), staged) ↦ inr (
            scenario,
            loaded,
            on,
            done,
            rw (stage-raised tenant name scenario stamps start s' staged) worked,
          )
        ]
      ]
