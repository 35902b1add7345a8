-- ===== src/Scenarios/Packs.antt =====
-- Scenario packs: what the YAML files hold and how they are read (app/scenarios/engine.py). An error
-- has the start of its message.
use genesys_cx_demo_harness.Base.{
  Bool, not, Text, lit, one_of, text_leb, Dict, lookup, ℤ, List, ◌++◌, all, is_empty, Option, none,
  some, get_or, sort_by, if◌then◌else◌,
}
use genesys_cx_demo_harness.Platform.{Platform}
use genesys_cx_demo_harness.Store.{Result, ok, raised, ◌>>=◌, scenario_not_found, scenario_error}
use genesys_cx_demo_harness.Gx.Normalize.{strip}
use genesys_cx_demo_harness.Scenarios.Columns.{Entity, entities, model_columns, settable}
use genesys_cx_demo_harness.Seed.Rows.{each}

-- A scalar of a YAML file.
pub data Literal : Type 0 where
  text : Text → Literal
  int : ℤ → Literal
  flag : Bool → Literal
  null : Literal

pub record RawStep : Type 0 where
  pub entity : Text
  pub match_fields : Dict Literal
  pub set_fields : Dict Literal
  pub description : Text

-- A missing list is the empty one, and `str(i)` has been applied to the identifiers.
pub record RawScenario : Type 0 where
  pub name : Option Text
  pub title : Option Text
  pub description : Text
  pub reset_first : Bool
  pub identifiers : List Text
  pub steps : List RawStep

-- The files of `packs_dir`: one by tenant and name, and the names under a tenant, sorted.
pub record ScenarioFiles : Type 0 where
  pub read : Text → Text → Option RawScenario
  pub stems : Text → List Text

pub record ScenarioStep : Type 0 where
  pub entity : Entity
  pub match_fields : Dict Literal
  pub set_fields : Dict Literal
  pub description : Text

pub record Scenario : Type 0 where
  pub name : Text
  pub title : Text
  pub description : Text
  pub reset_first : Bool
  pub identifiers : List Text
  pub steps : List ScenarioStep

-- `set(d) - names` is empty.
unfoldable pub known_keys : Dict Literal → List Text → Bool
known_keys d names = all (λ (e : Text × Literal). one_of e.0 names) d

unfoldable pub parse_step : Text → RawStep → Result ScenarioStep
unfolding known_keys
parse_step scenario_name raw = elim (lookup raw.entity entities) [
  | none ↦ raised (scenario_error (scenario_name ++ lit ": unknown entity '" ++ raw.entity))
  | some entity ↦
      if is_empty raw.set_fields
      then raised (scenario_error (scenario_name ++ lit ": step on '" ++ raw.entity))
      else (if not (known_keys raw.match_fields (model_columns entity))
          then raised
              (scenario_error (scenario_name ++ lit ": " ++ raw.entity ++ lit " has no field(s)"))
          else (if not (known_keys raw.set_fields (settable entity))
              then raised
                  (scenario_error (scenario_name ++ lit ": " ++ raw.entity ++ lit " field(s)"))
              else ok (record {
                entity = entity;
                match_fields = raw.match_fields;
                set_fields = raw.set_fields;
                description = raw.description;
              })))
]

module _ ⦃platform : Platform⦄ ⦃files : ScenarioFiles⦄ where
  unfoldable pub load_scenario : Text → Text → Result Scenario
  unfolding strip
  load_scenario tenant_slug name = elim (files.read tenant_slug name) [
    | none ↦ raised (scenario_not_found name)
    | some raw ↦
        if is_empty raw.identifiers
        then raised (scenario_error (name ++ lit ": names no subscribers to act on"))
        else (each (parse_step name) raw.steps >>= (λ steps. ok (record {
          name = get_or raw.name name;
          title = get_or raw.title name;
          description = strip raw.description;
          reset_first = raw.reset_first;
          identifiers = raw.identifiers;
          steps = steps;
        })))
  ]

  -- Python's `sorted` on texts compares code points.
  unfoldable pub list_scenarios : Text → Result (List Scenario)
  list_scenarios tenant_slug = do
    scenarios ← each (load_scenario tenant_slug) (files.stems tenant_slug)
    ok (sort_by (λ (a : Scenario) b. text_leb a.name b.name) scenarios)
