-- ===== src/Samples/Callers.antt =====
-- The theorems on callers and their contacts, applied.
use genesys_cx_demo_harness.Base.{none}
use genesys_cx_demo_harness.Base.{All, none}
use genesys_cx_demo_harness.Events.Feed.{
  IsNewestFirst, is_wanted, IsAccountedFor, party_events-IsSorted,
}
use genesys_cx_demo_harness.Base.{sort_by, insert_by, Memᴰ}
use genesys_cx_demo_harness.Store.{kind_network_degraded, telemetry_kinds}
use genesys_cx_demo_harness.Events.{telemetry_events, party_events}
use genesys_cx_demo_harness.Events.Feed.{telemetry_events-owned}
use genesys_cx_demo_harness.Profile.{resolve_profile, rollup_of, best_channel}
use genesys_cx_demo_harness.Profile.Resolve.{resolve_profile-owned}
use genesys_cx_demo_harness.Samples.{ada_email, ada}
use genesys_cx_demo_harness.Store.{Event}
use genesys_cx_demo_harness.Base.{one_of}
use genesys_cx_demo_harness.Base.{
  starts_with, lookup, ◌≡◌, ◌≤◌, refl, true, false, Text, lit, text_eq, [], ◌∷◌, ◌++◌, length, some,
  ◌⊎◌, arith,
}
use genesys_cx_demo_harness.Store.{Db, ok, kind_interaction}
use genesys_cx_demo_harness.Events.{EventFields, new_event, add_event, resolve_last_channel}
use genesys_cx_demo_harness.Events.Latest.{resolve_last_channel-added}
use genesys_cx_demo_harness.Profile.{ProfileRollup}
use genesys_cx_demo_harness.Orders.Live.{IsSound}
use genesys_cx_demo_harness.Gx.Normalize.{
  phone, normalize_identifier, normalize_candidate, normalize_number, restore_eaten_plus, strip,
  to_e164, dial, national_part,
}
use genesys_cx_demo_harness.Gx.Normalize.Shape.{normalize_identifier-phone}
use genesys_cx_demo_harness.Gx.Masking.{mask_email}
use genesys_cx_demo_harness.Gx.Masking.Blind.{mask_email-blind}
use genesys_cx_demo_harness.Gx.Schemas.{
  OrderActionIn, OrderActionOut, DeviceActionIn, DeviceActionOut, VerifyCustomerIn,
  VerifyCustomerOut,
}
use genesys_cx_demo_harness.Gx.Routes.Shared.{Reply}
use genesys_cx_demo_harness.Gx.Routes.Customer.{verify_customer}
use genesys_cx_demo_harness.Gx.Routes.Order.{order_action}
use genesys_cx_demo_harness.Gx.Routes.Network.{device_action}
use genesys_cx_demo_harness.Gx.Routes.Safety.Order.{
  IsOrderWritten, order_succeeded, order_action-atomic, order_action-IsSound,
}
use genesys_cx_demo_harness.Gx.Routes.Safety.Device.{
  IsDeviceWritten, device_succeeded, device_action-atomic,
}
use genesys_cx_demo_harness.Samples.{
  toy, acme, no_mask, stuck_home, opened, first_stamp, second_stamp,
}
use genesys_cx_demo_harness.Samples.Orders.{ordered, ordered-IsSound}

abbrev place_mesh : OrderActionIn
place_mesh = record {
  identifier = lit " ADA@x.org ";
  action = lit "place";
  target = lit "mesh";
  params = [];
}

abbrev placed : Reply OrderActionOut
placed = order_action (opened ordered) acme place_mesh second_stamp

order_action-atomic_example :
    ((order_succeeded placed.0 ≡ true)
      × IsOrderWritten (opened ordered) acme place_mesh second_stamp placed.1.committed
      × (placed.1.current ≡ placed.1.committed))
    ⊎ ((order_succeeded placed.0 ≡ false) × (placed.1 ≡ opened ordered))
order_action-atomic_example =
    order_action-atomic (opened ordered) acme place_mesh second_stamp {reply = placed.0}
      {s' = placed.1} refl refl

order_action-IsSound_example : IsSound placed.1.committed
order_action-IsSound_example =
    order_action-IsSound (opened ordered) acme place_mesh second_stamp {reply = placed.0}
      {s' = placed.1} refl ordered-IsSound refl

abbrev steer_laptop : DeviceActionIn
steer_laptop = record {
  identifier = lit "ada@x.org";
  action = lit "band-steer";
  target = 20 ∷ [];
  params = [];
}

abbrev moved_laptop : Reply DeviceActionOut
moved_laptop = device_action (opened stuck_home) acme steer_laptop

device_action-atomic_example :
    ((device_succeeded moved_laptop.0 ≡ true)
      × IsDeviceWritten (opened stuck_home) acme steer_laptop moved_laptop.1.committed
      × (moved_laptop.1.current ≡ moved_laptop.1.committed))
    ⊎ ((device_succeeded moved_laptop.0 ≡ false) × (moved_laptop.1 ≡ opened stuck_home))
device_action-atomic_example =
    device_action-atomic (opened stuck_home) acme steer_laptop {reply = moved_laptop.0}
      {s' = moved_laptop.1} refl refl

abbrev right_pin : VerifyCustomerIn
right_pin = record {
  identifier = lit "ada@x.org";
  factor_type = lit "pin";
  factor_value = lit "12";
}

abbrev pin_checked : Reply VerifyCustomerOut
pin_checked = verify_customer (opened stuck_home) acme right_pin

abbrev by_voice : EventFields
by_voice = record { channel = lit "voice"; conversation_ref = []; payload = []; occurred_at = none }

abbrev called_before : Db
called_before = record stuck_home {
  events =
      new_event acme 2 kind_interaction (record by_voice { channel = lit "web" }) first_stamp ∷ [];
}

resolve_last_channel-added_example :
    resolve_last_channel
      (add_event acme 2 kind_interaction by_voice second_stamp called_before)
      acme
      2
      (lit "email")
    ≡ lit "voice"
resolve_last_channel-added_example =
    resolve_last_channel-added called_before acme 2 by_voice second_stamp (lit "email")
      (omega arith, tt) refl

is_phone : (normalize_identifier (some (lit "07700 900123")) (some (lit "GB"))).id_type ≡ phone
unfolding normalize_identifier normalize_candidate normalize_number strip restore_eaten_plus to_e164
    starts_with lookup text_eq dial national_part
is_phone = refl

normalize_identifier-phone_example :
    (digits : Text) × ((normalize_identifier (some (lit "07700 900123")) (some (lit "GB"))).value
      ≡ b'+' ∷ digits)
    × (8 ≤ length digits)
    × (length digits ≤ 15)
normalize_identifier-phone_example =
    normalize_identifier-phone (some (lit "07700 900123")) (some (lit "GB")) is_phone

mask_email-blind_example :
    mask_email (lit "ada" ++ b'@' ∷ lit "x.org") no_mask
    ≡ mask_email (lit "adele" ++ b'@' ∷ lit "x.org") no_mask
mask_email-blind_example =
    mask_email-blind no_mask (lit "ada") (lit "adele") (lit "x.org") refl refl refl refl refl

abbrev ada_rollup : ProfileRollup
ada_rollup = record { party = ada; matched_identity = ada_email; last_channel = [] }

ada_resolved : resolve_profile stuck_home acme (lit "ada@x.org") ≡ ok (some ada_rollup)
unfolding resolve_profile rollup_of best_channel text_eq sort_by
ada_resolved = refl

resolve_profile-owned_example :
    Memᴰ ada_email stuck_home.identities
    × (ada_email.tenant_id ≡ acme.tenant_id)
    × (ada_email.value ≡ lit "ada@x.org")
    × Memᴰ ada stuck_home.parties
    × (ada.party_id ≡ ada_email.party_id)
resolve_profile-owned_example = resolve_profile-owned stuck_home acme (lit "ada@x.org") ada_resolved

abbrev alarm : Event
alarm = new_event acme 2 kind_network_degraded by_voice second_stamp

abbrev alarmed : Db
alarmed = record called_before { events = alarm ∷ called_before.events }

alarm_fed : Memᴰ alarm (telemetry_events alarmed acme 2)
unfolding telemetry_events party_events sort_by insert_by one_of text_eq
alarm_fed = Memᴰ.head refl

telemetry_events-owned_example :
    (length (telemetry_events alarmed acme 2) ≤ 20)
    × Memᴰ alarm alarmed.events
    × (alarm.tenant_id ≡ acme.tenant_id)
    × (alarm.party_id ≡ 2)
    × (one_of kind_network_degraded telemetry_kinds ≡ true)
telemetry_events-owned_example = telemetry_events-owned alarmed acme 2 alarm_fed

party_events-IsSorted_example :
    IsNewestFirst (party_events alarmed acme 2 none (some 5))
    × All
        (λ e. Memᴰ e alarmed.events × (is_wanted alarmed acme 2 none e ≡ true))
        (party_events alarmed acme 2 none (some 5))
    × All
        (IsAccountedFor alarmed acme 2 none (some 5) (party_events alarmed acme 2 none (some 5)))
        alarmed.events
party_events-IsSorted_example = party_events-IsSorted alarmed acme 2 none (some 5)
