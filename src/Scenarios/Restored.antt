-- ===== src/Scenarios/Restored.antt =====
-- What a reset leaves.
use genesys_cx_demo_harness.Base.{◌≡◌, refl, sym, ap, ◌∙◌, subst, Option, none, inl, inr}
use genesys_cx_demo_harness.Platform.{Platform}
use genesys_cx_demo_harness.Store.{Tenant, Db, Session, Result, ok, ok_injective}
use genesys_cx_demo_harness.Events.{Stamp}
use genesys_cx_demo_harness.Seed.Tools.{SeedTools}
use genesys_cx_demo_harness.Scenarios.Engine.{ScenarioResult, reset_db, reset}
use genesys_cx_demo_harness.Scenarios.Applied.{Result-cases}
use genesys_cx_demo_harness.Scenarios.Baseline.{
  restored, restored_again, restored-parties, reset_db-restored,
}
use genesys_cx_demo_harness.Scenarios.Cleared.{IsCleared, restored-clears}

module _ ⦃platform : Platform⦄ ⦃tools : SeedTools⦄ where
  reset-committed :
      (tenant : Tenant) (logged : Option Stamp) (s s' : Session) {result : ScenarioResult}
      → reset tenant logged s ≡ (ok result, s')
      → (db : Db) × (reset_db tenant logged s.current ≡ ok (result, db))
        × (s' ≡ record { committed = db; current = db })
  unfolding reset
  reset-committed tenant logged s s' {result} h =
      elim (Result-cases (reset_db tenant logged s.current)) [
        | inl (e, failed) ↦ absurd (
            let bad = ap (λ (r : Result ScenarioResult × Session). r.0) (rw (failed, reset) at h) in
            cc)
        | inr ((done, db), worked) ↦
            let ended : ◌≡◌ {A = Result ScenarioResult × Session}
                (ok done, record { committed = db; current = db }) (ok result, s') =
              rw (worked, reset) at h in
            let same : done ≡ result =
              ok_injective (ap (λ (r : Result ScenarioResult × Session). r.0) ended) in
            (
              db,
              rw (worked, same) refl,
              ap (λ (r : Result ScenarioResult × Session). r.1) (sym ended),
            )
      ]

  -- A second reset of the tenant, with no other write between the two and nothing logged, answers the
  -- same and changes nothing.
  pub reset_again :
      (tenant : Tenant) (s s' : Session) {result : ScenarioResult}
      → reset tenant none s ≡ (ok result, s')
      → reset tenant none s' ≡ (ok result, s')
  unfolding reset
  reset_again tenant s s' {result} h =
      let (db, worked, ended) = reset-committed tenant none s s' h in
      let (rows, closed, made, alike) = reset_db-restored tenant none s.current worked in
      let again : reset_db tenant none db ≡ ok (result, db) =
        subst (λ (x : Db). reset_db tenant none x ≡ ok (result, x)) (sym made)
          (alike (restored tenant rows s.current) (restored-parties tenant rows s.current)
            ∙ ap (λ (x : Db). ok (result, x)) (restored_again tenant rows s.current closed)) in
      subst (λ (x : Session). reset tenant none x ≡ (ok result, x)) (sym ended)
        (rw (again, reset) refl)

  -- After a reset that succeeds the tenant has no event and no order, the events and orders of other
  -- tenants and the customer spine are as they were, the scenario log has gained the entry that was
  -- asked for and no other, and all of it is committed.
  pub reset-clears :
      (tenant : Tenant) (logged : Option Stamp) (s s' : Session) {result : ScenarioResult}
      → reset tenant logged s ≡ (ok result, s')
      → (s'.current ≡ s'.committed)
        × IsCleared tenant logged result.rows_changed s.current s'.committed
  reset-clears tenant logged s s' {result} h =
      let (db, worked, ended) = reset-committed tenant logged s s' h in
      let (rows, closed, made, alike) = reset_db-restored tenant logged s.current worked in
      subst
        (λ (x : Session).
          (x.current ≡ x.committed)
          × IsCleared tenant logged result.rows_changed s.current x.committed)
        (sym ended)
        (
          refl,
          subst (λ (x : Db). IsCleared tenant logged result.rows_changed s.current x) (sym made)
              (restored-clears tenant rows logged result.rows_changed s.current),
        )
