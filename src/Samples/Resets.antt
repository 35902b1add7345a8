-- ===== src/Samples/Resets.antt =====
-- The theorems on resets and on orders after them, applied.
use genesys_cx_demo_harness.Seed.Tools.{key}
use genesys_cx_demo_harness.Seed.Rows.{each}
use genesys_cx_demo_harness.Base.{
  show_int, put_id, get_id, lookup, ◌≡◌, refl, true, lit, [], ◌∷◌, none, some, text_eq, one_of, ◌⊎◌,
}
use genesys_cx_demo_harness.Store.{CustomerOrder, Db, Error, scenario_error, ok, raised}
use genesys_cx_demo_harness.Scenarios.Columns.{entities, settable, model_columns}
use genesys_cx_demo_harness.Scenarios.Packs.{Scenario, parse_step, load_scenario}
use genesys_cx_demo_harness.Scenarios.Engine.{
  ScenarioResult, target_party_ids, reset, apply, load_pack, baseline_parties, restore_networks,
  reset_db, stage_db, stage,
}
use genesys_cx_demo_harness.Scenarios.Applied.{apply-raised}
use genesys_cx_demo_harness.Scenarios.Cleared.{IsCleared}
use genesys_cx_demo_harness.Scenarios.Restored.{reset_again, reset-clears}
use genesys_cx_demo_harness.Samples.{toy, acme, stuck_home, opened, first_stamp}
use genesys_cx_demo_harness.Samples.Orders.{mesh_offer}
use genesys_cx_demo_harness.Samples.Seeds.{
  toy_tools, seeded_home, acme_pack, ada_seeded, seeded_once,
}
use genesys_cx_demo_harness.Orders.Service.{find_live_order, place_order, get_order}
use genesys_cx_demo_harness.Orders.Found.{get_order-place_order}
use genesys_cx_demo_harness.Samples.Scenes.{outage_scenario, scenes, toy_sql, stamps}

abbrev reset_result : ScenarioResult
reset_result = record { action = lit "reset"; scenario = []; rows_changed = 4 }

read_pack : load_pack (lit "acme") ≡ ok acme_pack
unfolding load_pack text_eq
read_pack = refl

baseline : baseline_parties stuck_home acme acme_pack ≡ ada_seeded
unfolding baseline_parties get_id put_id key show_int
baseline = refl

restored_home : restore_networks acme acme_pack stuck_home ≡ ok (4, seeded_home)
unfolding restore_networks
restored_home = rw (restore_networks, baseline) (rw seeded_once refl)

reset_home : reset_db acme none stuck_home ≡ ok (reset_result, seeded_home)
unfolding reset_db
reset_home = rw (reset_db, read_pack) (rw restored_home refl)

reset_session : reset acme none (opened stuck_home) ≡ (ok reset_result, opened seeded_home)
unfolding reset
reset_session = rw (reset_home, reset) refl

reset_again_example : reset acme none (opened seeded_home) ≡ (ok reset_result, opened seeded_home)
reset_again_example = reset_again acme (opened stuck_home) (opened seeded_home) reset_session

reset-clears_example : (seeded_home ≡ seeded_home) × IsCleared acme none 4 stuck_home seeded_home
reset-clears_example = reset-clears acme none (opened stuck_home) (opened seeded_home) reset_session

abbrev stranger_scenario : Scenario
stranger_scenario = record outage_scenario {
  name = lit "stranger";
  title = lit "stranger";
  reset_first = true;
  identifiers = lit "bob@x.org" ∷ [];
}

loaded_stranger : load_scenario (lit "acme") (lit "stranger") ≡ ok stranger_scenario
unfolding load_scenario text_eq each parse_step lookup entities one_of model_columns settable
loaded_stranger = refl

abbrev nobody : Error
nobody = scenario_error (lit "stranger: none of")

no_targets :
    stage acme (lit "stranger") stranger_scenario stamps (opened seeded_home)
    ≡ (raised nobody, opened seeded_home)
unfolding stage stage_db target_party_ids one_of text_eq
no_targets = refl

applied_stranger :
    apply acme (lit "stranger") stamps (opened stuck_home) ≡ (raised nobody, opened seeded_home)
unfolding apply
applied_stranger = rw (apply, loaded_stranger) (rw reset_session no_targets)

-- A scenario whose subscribers are unknown raises, and the reset before it stays committed.
apply-raised_example :
    (opened seeded_home ≡ opened stuck_home)
    ⊎ ((scenario : Scenario) × (load_scenario (lit "acme") (lit "stranger") ≡ ok scenario)
        × (scenario.reset_first ≡ true)
        × (done : ScenarioResult) × (reset acme none (opened stuck_home)
            ≡ (ok done, opened seeded_home)))
apply-raised_example =
    apply-raised acme (lit "stranger") stamps (opened stuck_home) (opened seeded_home)
      applied_stranger

unordered : find_live_order stuck_home acme 2 (lit "mesh") ≡ ok none
unfolding find_live_order
unordered = refl

get_order-place_order_example :
    (order : CustomerOrder) × (db' : Db) × (place_order stuck_home acme 2 mesh_offer first_stamp
      ≡ ok (order, true, db'))
    × (get_order db' acme 2 (toy.show_uuid order.order_id) ≡ ok (some order))
get_order-place_order_example =
    get_order-place_order stuck_home acme 2 mesh_offer first_stamp unordered refl
