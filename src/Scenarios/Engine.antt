-- ===== src/Scenarios/Engine.antt =====
-- Staging and resetting a demo (app/scenarios/engine.py). A call leaves a session whether it returns
-- or raises. `stamps` are the ids and times that the database gives the new rows, in their order.
-- The summaries are messages and are left out.
use genesys_cx_demo_harness.Base.{
  ℕ, zero, suc, Bool, not, ◌&&◌, ◌||◌, Text, lit, show_int, pos, one_of, IdDict, get_id, put_id,
  List, [], ◌∷◌, ◌++◌, map, filter, take, is_empty, Option, none, some, ltb, ◌==◌, ◌+◌,
  if◌then◌else◌, sort_by,
}
use genesys_cx_demo_harness.Platform.{Platform}
use genesys_cx_demo_harness.Store.{
  Tenant, Party, Identity, Event, CustomerOrder, ScenarioEvent, Db, Session, commit, Result, ok,
  raised, ◌>>=◌, pack_not_found, scenario_error,
}
use genesys_cx_demo_harness.Events.{Stamp}
use genesys_cx_demo_harness.Network.Telemetry.{emit_network_telemetry}
use genesys_cx_demo_harness.Seed.Pack.{Pack}
use genesys_cx_demo_harness.Seed.Tools.{SeedTools, key}
use genesys_cx_demo_harness.Seed.Rows.{SeedParty}
use genesys_cx_demo_harness.Seed.Network.{seed_networks}
use genesys_cx_demo_harness.Seed.Upsert.{has_id}
use genesys_cx_demo_harness.Scenarios.Packs.{ScenarioFiles, Scenario, load_scenario}
use genesys_cx_demo_harness.Scenarios.Statements.{Statements, run_steps}

pub record ScenarioResult : Type 0 where
  pub action : Text
  pub scenario : Text
  pub rows_changed : ℕ

-- `list(dict.fromkeys(ids))`
unfoldable distinct_from : List ℕ → List ℕ → List ℕ
unfolding has_id
distinct_from seen [] = []
distinct_from seen (i ∷ ids) =
    let rest = distinct_from seen ids in
    let fresh = distinct_from (i ∷ seen) ids in if has_id i seen then rest else i ∷ fresh

unfoldable pub target_party_ids : Db → Tenant → List Text → List ℕ
unfolding distinct_from
target_party_ids db tenant identifiers = distinct_from [] (
    map (λ (i : Identity). i.party_id)
      (filter (λ i. i.tenant_id == tenant.tenant_id && one_of i.value identifiers) db.identities))

-- `_log`
unfoldable pub log : Tenant → Text → Text → ℕ → Stamp → Db → Db
log tenant action scenario rows stamp db = record db {
  scenario_events =
      record {
        event_id = stamp.id;
        tenant_id = tenant.tenant_id;
        action = action;
        scenario = scenario;
        rows_changed = rows;
        created_at = stamp.now;
      }
      ∷ db.scenario_events;
}

-- The next call, unless the one before it raised.
abbrev pub after {ℓ κ} :
    {A : Type ℓ} {B : Type κ}
    → Result A × Session
    → (Session → Result B × Session)
    → Result B × Session
after (raised e, s) next = (raised e, s)
after (ok a, s) next = next s

abbrev pub without_events_and_orders : Tenant → Db → Db
without_events_and_orders tenant db = record db {
  events = filter (λ (e : Event). not (e.tenant_id == tenant.tenant_id)) db.events;
  orders = filter (λ (o : CustomerOrder). not (o.tenant_id == tenant.tenant_id)) db.orders;
}

abbrev pub log_reset : Tenant → ℕ → Option Stamp → Db → Db
log_reset tenant rows none db = db
log_reset tenant rows (some stamp) db = log tenant (lit "reset") [] rows stamp db

module _ ⦃platform : Platform⦄ ⦃tools : SeedTools⦄ where
  -- `load_pack`
  unfoldable pub load_pack : Text → Result Pack
  load_pack slug = elim (tools.pack_file slug) [
    | none ↦ raised (pack_not_found slug)
    | some pack ↦ ok pack
  ]

  -- `wanted`: the party keys of the first `n` indexes.
  unfoldable pub wanted : Text → ℕ → IdDict ℕ
  wanted slug zero = []
  wanted slug (suc n) = put_id (key (slug ∷ lit "party" ∷ show_int (pos n) ∷ [])) n (wanted slug n)

  unfoldable pub baseline_rows : IdDict ℕ → List Party → List SeedParty
  baseline_rows indexes [] = []
  baseline_rows indexes (p ∷ ps) =
      let rest = baseline_rows indexes ps in
      elim (get_id p.party_id indexes) [
        | none ↦ rest
        | some i ↦ record { index = i; party_id = p.party_id; display_name = p.display_name } ∷ rest
      ]

  unfoldable pub baseline_parties : Db → Tenant → Pack → List SeedParty
  unfolding wanted baseline_rows
  baseline_parties db tenant pack =
      baseline_rows (wanted tenant.slug pack.seed.party_count)
        (filter (λ (p : Party). p.tenant_id == tenant.tenant_id) db.parties)

  -- The tenant's networks as the pack seeds them, and how many rows that is.
  unfoldable pub restore_networks : Tenant → Pack → Db → Result (ℕ × Db)
  unfolding seed_networks
  restore_networks tenant pack db = elim pack.seed.network [
    | none ↦ ok (0, db)
    | some cfg ↦ do
      (counts, db') ←
          seed_networks db tenant.tenant_id tenant.slug (baseline_parties db tenant pack) cfg
      ok (counts.gateways + counts.access_points + counts.radios + counts.devices, db')
  ]

  -- What `reset` writes before it commits.
  unfoldable pub reset_db : Tenant → Option Stamp → Db → Result (ScenarioResult × Db)
  unfolding log
  reset_db tenant logged db = do
    pack ← load_pack tenant.slug
    (rows, restored) ← restore_networks tenant pack db
    let cleared = without_events_and_orders tenant restored
    let done = log_reset tenant rows logged cleared
    ok (record { action = lit "reset"; scenario = []; rows_changed = rows }, done)

  unfoldable pub reset : Tenant → Option Stamp → Session → Result ScenarioResult × Session
  reset tenant logged s = elim (reset_db tenant logged s.current) [
    | raised e ↦ (raised e, s)
    | ok (result, db) ↦ (ok result, commit (record s { current = db }))
  ]

  module _ ⦃sql : Statements⦄ where
    unfoldable pub emit_all : Tenant → (ℕ → Stamp) → ℕ → List ℕ → Db → Result Db
    unfolding emit_network_telemetry
    emit_all tenant stamps i [] db = ok db
    emit_all tenant stamps i (party ∷ parties) db = do
      (emitted, db') ← emit_network_telemetry tenant party (stamps i) db
      emit_all tenant stamps (suc i) parties db'

    -- What `apply` writes after the reset.
    unfoldable pub stage_db :
        Tenant → Text → Scenario → (ℕ → Stamp) → Db → Result (ScenarioResult × Db)
    unfolding log
    stage_db tenant name scenario stamps db =
        let party_ids = target_party_ids db tenant scenario.identifiers in
        if is_empty party_ids then raised (scenario_error (name ++ lit ": none of")) else (do
          (rows, staged) ← run_steps tenant party_ids scenario.steps db
          noted ← emit_all tenant stamps 1 party_ids staged
          ok (
            record { action = lit "apply"; scenario = scenario.name; rows_changed = rows },
            log tenant (lit "apply") scenario.name rows (stamps 0) noted,
          ))

    unfoldable pub stage :
        Tenant → Text → Scenario → (ℕ → Stamp) → Session → Result ScenarioResult × Session
    stage tenant name scenario stamps s = elim (stage_db tenant name scenario stamps s.current) [
      | raised e ↦ (raised e, s)
      | ok (result, db) ↦ (ok result, commit (record s { current = db }))
    ]

    -- The reset commits before the scenario is staged.
    unfoldable pub apply :
        ⦃files : ScenarioFiles⦄
        → Tenant
        → Text
        → (ℕ → Stamp)
        → Session
        → Result ScenarioResult × Session
    unfolding reset stage
    apply tenant name stamps s = elim (load_scenario tenant.slug name) [
      | raised e ↦ (raised e, s)
      | ok scenario ↦
          if scenario.reset_first
          then after (reset tenant none s) (stage tenant name scenario stamps)
          else stage tenant name scenario stamps s
    ]

-- ORDER BY created_at DESC, event_id DESC
abbrev latest_logged : ScenarioEvent → ScenarioEvent → Bool
latest_logged a b =
    ltb b.created_at a.created_at
    || (a.created_at == b.created_at) && (ltb b.event_id a.event_id || b.event_id == a.event_id)

unfoldable pub scenario_log : Db → Tenant → ℕ → List ScenarioEvent
scenario_log db tenant limit = take limit (
    sort_by latest_logged
      (filter (λ (e : ScenarioEvent). e.tenant_id == tenant.tenant_id) db.scenario_events))
