-- ===== src/Samples/Scenes.antt =====
-- The theorems on scenarios, applied.
use genesys_cx_demo_harness.Seed.Upsert.{has_id}
use genesys_cx_demo_harness.Seed.Rows.{each}
use genesys_cx_demo_harness.Base.{
  lookup, ℕ, ◌≡◌, refl, Bool, true, false, lit, [], ◌∷◌, Option, none, some, text_eq, if◌then◌else◌,
  one_of,
}
use genesys_cx_demo_harness.Store.{Gateway, Db, Session, ok}
use genesys_cx_demo_harness.Events.{Stamp}
use genesys_cx_demo_harness.Scenarios.Columns.{entities, Cell, gateway, settable, model_columns}
use genesys_cx_demo_harness.Scenarios.Packs.{
  Literal, RawStep, RawScenario, ScenarioFiles, ScenarioStep, Scenario, parse_step, load_scenario,
}
use genesys_cx_demo_harness.Scenarios.Statements.{
  assign_all, assign_where, where_clause, column, set_clause, update_rows, run_step, Statements,
  run_steps,
}
use genesys_cx_demo_harness.Scenarios.Engine.{
  ScenarioResult, target_party_ids, apply, log, emit_all, stage_db, stage,
}
use genesys_cx_demo_harness.Network.Telemetry.{emit_for, emit_network_telemetry}
use genesys_cx_demo_harness.Network.Home.{home_of, load_topology}
use genesys_cx_demo_harness.Scenarios.Fields.{SetsFree, parse_step-SetsFree}
use genesys_cx_demo_harness.Scenarios.Scopes.{IsScoped}
use genesys_cx_demo_harness.Scenarios.Applied.{IsStart, apply-IsScoped}
use genesys_cx_demo_harness.Samples.{toy, gateway as home_gateway, acme, stuck_home, opened}
use genesys_cx_demo_harness.Samples.Seeds.{toy_tools}

abbrev outage_step : RawStep
outage_step = record {
  entity = lit "gateway";
  match_fields = (lit "seed_key", Literal.text (lit "gw")) ∷ [];
  set_fields = (lit "wan_status", Literal.text (lit "degraded")) ∷ [];
  description = [];
}

abbrev parsed_step : ScenarioStep
parsed_step = record {
  entity = gateway;
  match_fields = outage_step.match_fields;
  set_fields = outage_step.set_fields;
  description = [];
}

abbrev outage : RawScenario
outage = record {
  name = none;
  title = none;
  description = [];
  reset_first = false;
  identifiers = lit "ada@x.org" ∷ [];
  steps = outage_step ∷ [];
}

-- A scenario for nobody of the tenant, and one that resets first.
abbrev stranger : RawScenario
stranger = record outage { reset_first = true; identifiers = lit "bob@x.org" ∷ [] }

instance abbrev pub scenes : ScenarioFiles
scenes = record {
  read = λ slug name.
      if text_eq name (lit "outage")
      then some outage
      else (if text_eq name (lit "stranger") then some stranger else none);
  stems = λ slug. lit "outage" ∷ [];
}

abbrev same_cell : Literal → Cell → Bool
same_cell (Literal.text t) (Cell.text u) = text_eq t u
same_cell l c = false

abbrev stored : Literal → Option Cell
stored (Literal.text t) = some (Cell.text t)
stored (Literal.int n) = some (Cell.int n)
stored (Literal.flag b) = some (Cell.flag b)
stored Literal.null = none

instance abbrev pub toy_sql : Statements
toy_sql = record {
  compares = λ entity column value. some (same_cell value);
  assigns = λ entity column value. stored value;
}

abbrev pub stamps : ℕ → Stamp
stamps n = record { id = n; now = 100 }

parsed : parse_step (lit "outage") outage_step ≡ ok parsed_step
unfolding parse_step lookup entities text_eq one_of model_columns settable
parsed = refl

parse_step-SetsFree_example : SetsFree parsed_step
parse_step-SetsFree_example = parse_step-SetsFree (lit "outage") outage_step parsed

abbrev pub outage_scenario : Scenario
outage_scenario = record {
  name = lit "outage";
  title = lit "outage";
  description = [];
  reset_first = false;
  identifiers = lit "ada@x.org" ∷ [];
  steps = parsed_step ∷ [];
}

loaded : load_scenario (lit "acme") (lit "outage") ≡ ok outage_scenario
unfolding load_scenario text_eq each parse_step lookup entities one_of model_columns settable
loaded = refl

abbrev degraded_gateway : Gateway
degraded_gateway = record home_gateway { wan_status = lit "degraded" }

abbrev outage_home : Db
outage_home = record stuck_home { gateways = degraded_gateway ∷ [] }

abbrev noted_home : Db
noted_home =
    (emit_for acme 2 (home_of outage_home acme 2 (some degraded_gateway)) (stamps 1) outage_home).1

abbrev outage_applied : Db
outage_applied = log acme (lit "apply") (lit "outage") 1 (stamps 0) noted_home

abbrev outage_result : ScenarioResult
outage_result = record { action = lit "apply"; scenario = lit "outage"; rows_changed = 1 }

targets : target_party_ids stuck_home acme (lit "ada@x.org" ∷ []) ≡ 2 ∷ []
unfolding target_party_ids one_of text_eq
targets = refl

ran : run_steps acme (2 ∷ []) (parsed_step ∷ []) stuck_home ≡ ok (1, outage_home)
unfolding run_steps run_step update_rows each set_clause column text_eq where_clause assign_where
    has_id assign_all
ran = refl

home_loaded :
    load_topology outage_home acme 2 ≡ ok (home_of outage_home acme 2 (some degraded_gateway))
unfolding load_topology
home_loaded = refl

noted : emit_all acme stamps 1 (2 ∷ []) outage_home ≡ ok noted_home
unfolding emit_all emit_network_telemetry
noted = rw home_loaded refl

staged :
    stage_db acme (lit "outage") outage_scenario stamps stuck_home
    ≡ ok (outage_result, outage_applied)
unfolding stage_db
staged = rw (stage_db, targets) (rw (ran, noted) refl)

staged_session :
    stage acme (lit "outage") outage_scenario stamps (opened stuck_home)
    ≡ (ok outage_result, opened outage_applied)
unfolding stage stage_db log target_party_ids emit_for
staged_session = rw (staged, stage) refl

applied :
    apply acme (lit "outage") stamps (opened stuck_home) ≡ (ok outage_result, opened outage_applied)
unfolding apply
applied = rw (apply, loaded) staged_session

apply-IsScoped_example :
    (start : Session) × IsStart acme outage_scenario (opened stuck_home) start
    × IsScoped acme
        (target_party_ids start.current acme (lit "ada@x.org" ∷ []))
        start.current
        outage_applied
    × (outage_applied ≡ outage_applied)
apply-IsScoped_example =
    apply-IsScoped acme (lit "outage") outage_scenario stamps (opened stuck_home)
      (opened outage_applied) loaded applied
