-- ===== src/Admin/Routes.antt =====
-- The console's routes (app/admin/routes.py): the control surface, and the contexts of the pages. The
-- templates are not modelled. A summary is a message and is left out.
use genesys_cx_demo_harness.Base.{ℕ, Bool, Text, List, map, length, Option, none, some}
use genesys_cx_demo_harness.Platform.{Platform}
use genesys_cx_demo_harness.Store.{
  Tenant, ScenarioEvent, Db, Session, Error, Result, ok, raised, ◌>>=◌, scenario_error,
  scenario_not_found, invalid_credentials,
}
use genesys_cx_demo_harness.Events.{Stamp}
use genesys_cx_demo_harness.Seed.Tools.{SeedTools}
use genesys_cx_demo_harness.Scenarios.Packs.{ScenarioFiles, Scenario, list_scenarios}
use genesys_cx_demo_harness.Scenarios.Statements.{Statements}
use genesys_cx_demo_harness.Scenarios.Engine.{ScenarioResult, reset, apply, scenario_log}
use genesys_cx_demo_harness.Admin.Gate.{Secrets, require_admin}
use genesys_cx_demo_harness.Admin.States.{SubscriberState, subscriber_states}
use genesys_cx_demo_harness.Admin.Activity.{Activity, activity_feed}
use genesys_cx_demo_harness.Gx.Routes.Shared.{Reply, respond}

pub record ScenarioOut : Type 0 where
  pub name : Text
  pub title : Text
  pub description : Text
  pub reset_first : Bool
  pub subscribers : List Text
  pub steps : ℕ

pub record ScenarioEventOut : Type 0 where
  pub action : Text
  pub scenario : Text
  pub rows_changed : ℕ
  pub created_at : ℕ

-- What a call answers: its result, or the error that becomes the `detail` of an HTTPException.
pub data Answer (A : Type 0) : Type 0 where
  answered : A → Answer A
  detail : Error → Answer A

abbrev scenario_out : Scenario → ScenarioOut
scenario_out s = record {
  name = s.name;
  title = s.title;
  description = s.description;
  reset_first = s.reset_first;
  subscribers = s.identifiers;
  steps = length s.steps;
}

abbrev event_out : ScenarioEvent → ScenarioEventOut
event_out e = record {
  action = e.action;
  scenario = e.scenario;
  rows_changed = e.rows_changed;
  created_at = e.created_at;
}

-- `_page_context`
pub record PageContext : Type 0 where
  pub tenant : Tenant
  pub subscribers : List SubscriberState
  pub scenarios : List Scenario
  pub events : List ScenarioEvent
  pub activity : List Activity
  pub error : Option Error

-- A call of the engine that a route catches: ScenarioNotFoundError and ScenarioError.
abbrev caught :
    {A B : Type 0}
    → Result A × Session
    → (A → Session → Reply B)
    → (ℕ → Error → Session → Reply B)
    → Reply B
caught (ok a, s) done failed = done a s
caught (raised (scenario_not_found n), s) done failed = failed 404 (scenario_not_found n) s
caught (raised (scenario_error m), s) done failed = failed 400 (scenario_error m) s
caught (raised e, s) done failed = (raised e, s)

module _ ⦃secrets : Secrets⦄ where
  -- A route that depends on `AdminUser`.
  unfoldable pub with_admin :
      {A : Type 0} → Text → Text → Session → (Session → Reply (Answer A)) → Reply (Answer A)
  unfolding require_admin
  with_admin username password s route = elim (require_admin username password) [
    | ok user ↦ route s
    | raised invalid_credentials ↦ respond 401 (detail invalid_credentials) s
    | raised e ↦ (raised e, s)
  ]

module _ ⦃platform : Platform⦄ ⦃tools : SeedTools⦄ ⦃sql : Statements⦄ ⦃files : ScenarioFiles⦄
    ⦃secrets : Secrets⦄ where
  -- A read, answered with 200.
  abbrev pub reading : {A : Type 0} → Session → Result A → Reply (Answer A)
  reading s (ok a) = respond 200 (answered a) s
  reading s (raised e) = (raised e, s)

  -- Each route depends on `AdminUser`, and takes the name and the password of the request.
  unfoldable get_scenarios : Text → Text → Tenant → Session → Reply (Answer (List ScenarioOut))
  unfolding with_admin
  get_scenarios username password tenant s =
      with_admin username password s
        (λ s. reading s (list_scenarios tenant.slug >>= (λ ss. ok (map scenario_out ss))))

  unfoldable post_apply :
      Text → Text → Tenant → Text → (ℕ → Stamp) → Session → Reply (Answer ScenarioResult)
  unfolding with_admin
  post_apply username password tenant scenario stamps s = with_admin username password s (λ s.
      caught (apply tenant scenario stamps s) (λ result. respond 200 (answered result))
        (λ code e. respond code (detail e)))

  unfoldable post_reset : Text → Text → Tenant → Stamp → Session → Reply (Answer ScenarioResult)
  unfolding with_admin
  post_reset username password tenant stamp s =
      with_admin username password s
        (λ s. let (r, s') = reset tenant (some stamp) s in reading s' r)

  unfoldable get_subscribers :
      Text → Text → Tenant → Session → Reply (Answer (List SubscriberState))
  unfolding with_admin
  get_subscribers username password tenant s =
      with_admin username password s (λ s. reading s (subscriber_states s.current tenant))

  unfoldable get_events : Text → Text → Tenant → Session → Reply (Answer (List ScenarioEventOut))
  unfolding with_admin
  get_events username password tenant s =
      with_admin username password s
        (λ s. reading s (ok (map event_out (scenario_log s.current tenant 20))))

  unfoldable get_activity : Text → Text → Tenant → Session → Reply (Answer (List Activity))
  unfolding with_admin
  get_activity username password tenant s =
      with_admin username password s (λ s. reading s (ok (activity_feed s.current tenant 30)))

  unfoldable page_context : Tenant → Option Error → Db → Result PageContext
  page_context tenant error db = do
    subscribers ← subscriber_states db tenant
    scenarios ← list_scenarios tenant.slug
    ok (record {
      tenant = tenant;
      subscribers = subscribers;
      scenarios = scenarios;
      events = scenario_log db tenant 20;
      activity = activity_feed db tenant 30;
      error = error;
    })

  -- A page, with its status.
  unfoldable page : Tenant → ℕ → Option Error → Session → Reply (Answer PageContext)
  unfolding page_context
  page tenant code error s = elim (page_context tenant error s.current) [
    | raised e ↦ (raised e, s)
    | ok context ↦ respond code (answered context) s
  ]

  -- `ui_index` and `ui_state`, which fill different templates.
  unfoldable ui_state : Text → Text → Tenant → Session → Reply (Answer PageContext)
  unfolding with_admin page
  ui_state username password tenant s = with_admin username password s (λ s. page tenant 200 none s)

  -- ScenarioNotFoundError is a ScenarioError, so that both answer 400 here.
  unfoldable ui_apply :
      Text → Text → Tenant → Text → (ℕ → Stamp) → Session → Reply (Answer PageContext)
  unfolding with_admin page
  ui_apply username password tenant scenario stamps s = with_admin username password s (λ s.
      caught (apply tenant scenario stamps s) (λ result. page tenant 200 none)
        (λ code e. page tenant 400 (some e)))

  unfoldable ui_reset : Text → Text → Tenant → Stamp → Session → Reply (Answer PageContext)
  unfolding with_admin page
  ui_reset username password tenant stamp s = with_admin username password s (λ s.
      caught (reset tenant (some stamp) s) (λ result. page tenant 200 none)
        (λ code e s'. (raised e, s')))
