-- ===== src/Events.antt =====
-- The event store's operations (app/events/service.py).
pub mod Latest
pub mod Feed
use genesys_cx_demo_harness.Base.{
  ℕ, Bool, true, ◌&&◌, ◌||◌, Text, text_eq, one_of, Dict, List, [], ◌∷◌, filter, take, is_empty,
  Option, none, some, ltb, ◌==◌, if◌then◌else◌, sort_by, first,
}
use genesys_cx_demo_harness.Store.{
  Tenant, Event, Scalar, Db, Session, commit, kind_interaction, telemetry_kinds,
}

-- What the database fills in for a new row: a fresh id, and `now()`.
pub record Stamp : Type 0 where
  pub id : ℕ
  pub now : ℕ

-- The arguments of `record_event` that have defaults.
pub record EventFields : Type 0 where
  pub channel : Text
  pub conversation_ref : Text
  pub payload : Dict Scalar
  pub occurred_at : Option ℕ

-- The time that is given, or else the database's.
abbrev pub time_of : EventFields → Stamp → ℕ
time_of fields stamp = elim fields.occurred_at [ none ↦ stamp.now | some time ↦ time ]

abbrev pub new_event : Tenant → ℕ → Text → EventFields → Stamp → Event
new_event tenant party_id kind fields stamp = record {
  event_id = stamp.id;
  tenant_id = tenant.tenant_id;
  party_id = party_id;
  kind = kind;
  channel = fields.channel;
  conversation_ref = fields.conversation_ref;
  payload = fields.payload;
  occurred_at = time_of fields stamp;
}

-- `record_event(..., commit=False)`: the row joins the open transaction.
unfoldable pub add_event : Tenant → ℕ → Text → EventFields → Stamp → Db → Db
add_event tenant party_id kind fields stamp db = record db {
  events = new_event tenant party_id kind fields stamp ∷ db.events;
}

-- `record_event(...)`
unfoldable pub record_event : Tenant → ℕ → Text → EventFields → Stamp → Session → Session
unfolding add_event
record_event tenant party_id kind fields stamp s =
    commit (record s { current = add_event tenant party_id kind fields stamp s.current })

-- ORDER BY occurred_at DESC, event_id DESC
abbrev pub newest_first : Event → Event → Bool
newest_first a b =
    ltb b.occurred_at a.occurred_at
    || (a.occurred_at == b.occurred_at) && (ltb b.event_id a.event_id || b.event_id == a.event_id)

abbrev pub limited : Option ℕ → List Event → List Event
limited none es = es
limited (some n) es = take n es

abbrev pub of_kinds : Option (List Text) → Event → Bool
of_kinds none e = true
of_kinds (some kinds) e = one_of e.kind kinds

-- `_party_events`, and `party_events`, which calls it with the same arguments.
unfoldable pub party_events : Db → Tenant → ℕ → Option (List Text) → Option ℕ → List Event
party_events db tenant party_id kinds limit = limited limit (
    sort_by newest_first (
      filter (λ e. e.tenant_id == tenant.tenant_id && (e.party_id == party_id && of_kinds kinds e))
        db.events))

unfoldable pub telemetry_events : Db → Tenant → ℕ → List Event
unfolding party_events
telemetry_events db tenant party_id =
    party_events db tenant party_id (some telemetry_kinds) (some 20)

-- `channel or None`
abbrev pub nonempty : Text → Option Text
nonempty [] = none
nonempty (c ∷ cs) = some (c ∷ cs)

unfoldable pub last_interaction_channel : Db → Tenant → ℕ → Option Text
unfolding party_events
last_interaction_channel db tenant party_id =
    elim (first (party_events db tenant party_id (some (kind_interaction ∷ [])) (some 1))) [
      | none ↦ none
      | some e ↦ nonempty e.channel
    ]

unfoldable pub resolve_last_channel : Db → Tenant → ℕ → Text → Text
resolve_last_channel db tenant party_id fallback =
    elim (last_interaction_channel db tenant party_id) [ none ↦ fallback | some c ↦ c ]

-- Tenant-wide. Where kinds are given the limit is set first, and SQL applies it last all the same.
unfoldable pub recent_events : Db → Tenant → ℕ → Option (List Text) → List Event
recent_events db tenant limit kinds = take limit (
    sort_by newest_first
      (filter (λ e. e.tenant_id == tenant.tenant_id && of_kinds kinds e) db.events))
