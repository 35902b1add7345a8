-- ===== src/Samples/Gates.antt =====
-- The theorems on the gates, the console, the schema check and the seeded parties, applied.
use genesys_cx_demo_harness.Gx.Normalize.{strip}
use genesys_cx_demo_harness.Base.{
  starts_with, one_of, ℕ, ◌≡◌, ◌⊎◌, refl, true, false, Text, lit, text_eq, text_eq→eq, some, All,
}
use genesys_cx_demo_harness.Store.{Session, Error, ok, raised, invalid_credentials}
use genesys_cx_demo_harness.Gx.Routes.Shared.{Reply, respond}
use genesys_cx_demo_harness.Gx.Ava.{
  Node, Fields, no_fields, field, object, get, has_key, is_type, forbidden_keywords, passes,
  validate_ava_schema,
}
use genesys_cx_demo_harness.Gx.Ava.Walked.{IsPlace, IsProperty}
use genesys_cx_demo_harness.Gx.Ava.Sound.{validate_ava_schema-place, validate_ava_schema-IsProperty}
use genesys_cx_demo_harness.Admin.Gate.{Secrets, is_open, dispatch}
use genesys_cx_demo_harness.Admin.Routes.{Answer, answered, detail, with_admin}
use genesys_cx_demo_harness.Admin.Guarded.{dispatch-guards, with_admin-guards}
use genesys_cx_demo_harness.Admin.States.{SubscriberState, subscriber_state, state_of}
use genesys_cx_demo_harness.Admin.Seen.{AgreesWith, subscriber_state-emits}
use genesys_cx_demo_harness.Network.Home.{home_of, load_topology}
use genesys_cx_demo_harness.Network.Telemetry.{emit_network_telemetry}
use genesys_cx_demo_harness.Samples.{toy, acme, ada, gateway, stuck_home, opened, first_stamp}
use genesys_cx_demo_harness.Samples.Seeds.{toy_tools}

compare_texts : (a b : Text) → some (text_eq a b) ≡ some true → a ≡ b
compare_texts a b h = text_eq→eq a b cc

instance abbrev toy_secrets : Secrets
toy_secrets = record {
  compare_digest = λ a b. some (text_eq a b);
  compare-same = compare_texts;
  api_key = lit "key";
  admin_user = lit "root";
  admin_password = lit "pw";
}

-- A route that answers a number.
abbrev route : Session → Reply ℕ
route s = respond 200 1 s

abbrev console_route : Session → Reply (Answer ℕ)
console_route s = respond 200 (answered 1) s

closed : is_open (lit "/gx/offers") ≡ false
unfolding is_open one_of text_eq starts_with
closed = refl

dispatch-guards_example :
    ((some (lit "wrong") ≡ some (lit "key"))
      × (dispatch (lit "/gx/offers") (some (lit "wrong")) 0 route (opened stuck_home)
          ≡ route (opened stuck_home)))
    ⊎ ((dispatch (lit "/gx/offers") (some (lit "wrong")) 0 route (opened stuck_home)
          ≡ respond 401 0 (opened stuck_home))
        ⊎ ((e : Error) × (dispatch
                (lit "/gx/offers")
                (some (lit "wrong"))
                0
                route
                (opened stuck_home)
              ≡ (raised e, opened stuck_home))))
dispatch-guards_example =
    dispatch-guards (lit "/gx/offers") (some (lit "wrong")) 0 route (opened stuck_home) closed

with_admin-guards_example :
    ((lit "root" ≡ lit "root")
      × (lit "guess" ≡ lit "pw")
      × (with_admin (lit "root") (lit "guess") (opened stuck_home) console_route
          ≡ console_route (opened stuck_home)))
    ⊎ ((with_admin (lit "root") (lit "guess") (opened stuck_home) console_route
          ≡ respond 401 (detail invalid_credentials) (opened stuck_home))
        ⊎ ((e : Error) × (with_admin (lit "root") (lit "guess") (opened stuck_home) console_route
              ≡ (raised e, opened stuck_home))))
with_admin-guards_example =
    with_admin-guards (lit "root") (lit "guess") (opened stuck_home) console_route

abbrev ada_state : SubscriberState
ada_state = state_of acme stuck_home ada (home_of stuck_home acme 2 (some gateway))

home_loaded : load_topology stuck_home acme 2 ≡ ok (home_of stuck_home acme 2 (some gateway))
unfolding load_topology
home_loaded = refl

seen : subscriber_state stuck_home acme ada ≡ ok ada_state
unfolding subscriber_state
seen = rw home_loaded refl

subscriber_state-emits_example :
    AgreesWith acme ada first_stamp stuck_home ada_state
      (emit_network_telemetry acme 2 first_stamp stuck_home)
subscriber_state-emits_example = subscriber_state-emits acme stuck_home ada first_stamp seen

abbrev offer_id_schema : Fields
offer_id_schema =
    field (lit "type") (Node.text (lit "string"))
      (field (lit "description") (Node.text (lit "The offer.")) no_fields)

abbrev property_fields : Fields
property_fields = field (lit "offer_id") (object offer_id_schema) no_fields

abbrev offer_schema : Fields
offer_schema =
    field (lit "type") (Node.text (lit "object"))
      (field (lit "properties") (object property_fields) no_fields)

offer_passes : validate_ava_schema offer_schema (lit "offers") ≡ passes
unfolding validate_ava_schema get text_eq strip
offer_passes = refl

no_array : is_type (lit "array") offer_schema ≡ false
unfolding is_type get text_eq
no_array = refl

has_properties : get (lit "properties") offer_schema ≡ some (object property_fields)
unfolding get text_eq
has_properties = refl

has_offer_id : get (lit "offer_id") property_fields ≡ some (object offer_id_schema)
unfolding get text_eq
has_offer_id = refl

offer_id-IsPlace : IsPlace true offer_schema false offer_id_schema
offer_id-IsPlace =
    IsPlace.at_property (lit "offer_id") no_array has_properties has_offer_id IsPlace.here

validate_ava_schema-place_example :
    All (λ k. has_key offer_id_schema k ≡ false) forbidden_keywords
    × ((is_type (lit "array") offer_id_schema ≡ false) ⊎ (false ≡ true))
validate_ava_schema-place_example =
    validate_ava_schema-place offer_schema (lit "offers") false offer_id_schema offer_passes
      offer_id-IsPlace

validate_ava_schema-IsProperty_example : IsProperty (lit "offer_id") (object offer_id_schema)
validate_ava_schema-IsProperty_example =
    validate_ava_schema-IsProperty offer_schema (lit "offers") true offer_schema property_fields
      (lit "offer_id") (object offer_id_schema) offer_passes IsPlace.here no_array has_properties
      has_offer_id
