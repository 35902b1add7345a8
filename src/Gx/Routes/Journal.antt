-- ===== src/Gx/Routes/Journal.antt =====
-- /gx/interaction-event, /gx/csat and /gx/telemetry (app/gx/routes.py).
use genesys_cx_demo_harness.Base.{
  Bool, true, false, ◌&&◌, Text, lit, Dict, lookup, ℤ, pos, leb_ℤ, show_int, List, [], ◌∷◌, map,
  none, some, is_empty, if◌then◌else◌,
}
use genesys_cx_demo_harness.Platform.{Platform}
use genesys_cx_demo_harness.Store.{
  Tenant, Event, Scalar, text, int, Session, kind_interaction, kind_csat,
}
use genesys_cx_demo_harness.Events.{Stamp, EventFields, record_event, telemetry_events}
use genesys_cx_demo_harness.Profile.{ProfileRollup}
use genesys_cx_demo_harness.Gx.Normalize.{strip}
use genesys_cx_demo_harness.Gx.Schemas.{
  InteractionEventIn, InteractionEventOut, CsatIn, CsatOut, TelemetryOut,
}
use genesys_cx_demo_harness.Gx.Routes.Shared.{Reply, respond, with_caller}

abbrev pub not_recorded : InteractionEventOut
not_recorded = record { ok = false; party_id = []; stored = false; last_channel = [] }

abbrev pub not_stored : CsatOut
not_stored = record { ok = false; party_id = []; stored = false }

-- `text or default`
abbrev pub or_default : Text → Text → Text
or_default [] d = d
or_default (c ∷ s) d = c ∷ s

abbrev pub interaction_fields : Text → Text → EventFields
interaction_fields channel kind = record {
  channel = channel;
  conversation_ref = [];
  occurred_at = none;
  payload = (lit "kind", text kind) ∷ [];
}

abbrev pub csat_fields : CsatIn → EventFields
csat_fields payload = record {
  channel = lit "csat";
  conversation_ref = payload.conversation_ref;
  occurred_at = none;
  payload = (lit "score", int payload.score) ∷ (lit "comment", text payload.comment) ∷ [];
}

-- `str(e.payload.get(key, ""))`
unfoldable pub shown : Dict Scalar → Text → Text
shown payload key = elim (lookup key payload) [
  | none ↦ []
  | some v ↦ elim v [ text t ↦ t | int n ↦ show_int n ]
]

module _ ⦃platform : Platform⦄ where
  -- The part of the route behind the caller.
  unfoldable pub interaction_for :
      Session → Tenant → InteractionEventIn → Stamp → ProfileRollup → Reply InteractionEventOut
  interaction_for s tenant payload stamp rollup =
      if is_empty (strip payload.channel)
      then respond 400 not_recorded s
      else respond 200
          (record {
            ok = true;
            party_id = platform.show_uuid rollup.party.party_id;
            stored = true;
            last_channel = payload.channel;
          })
          (record_event tenant rollup.party.party_id kind_interaction
            (interaction_fields payload.channel (or_default (strip payload.kind) (lit "inbound")))
            stamp s)

  unfoldable pub interaction_event :
      Session → Tenant → InteractionEventIn → Stamp → Reply InteractionEventOut
  interaction_event s tenant payload stamp =
      with_caller s tenant payload.identifier (respond 404 not_recorded s)
        (interaction_for s tenant payload stamp)

  -- `CSAT_MIN <= payload.score <= CSAT_MAX`
  abbrev pub score_in_range : ℤ → Bool
  score_in_range score = leb_ℤ (pos 1) score && leb_ℤ score (pos 5)

  unfoldable pub csat : Session → Tenant → CsatIn → Stamp → Reply CsatOut
  csat s tenant payload stamp =
      if score_in_range payload.score
      then with_caller s tenant payload.identifier (respond 404 not_stored s) (λ rollup.
        respond 200
          (record { ok = true; party_id = platform.show_uuid rollup.party.party_id; stored = true })
          (record_event tenant rollup.party.party_id kind_csat (csat_fields payload) stamp s))
      else respond 400 not_stored s

  abbrev pub telemetry_out : Event → TelemetryOut
  telemetry_out e = record {
    party_id = platform.show_uuid e.party_id;
    kind = e.kind;
    fault_type = shown e.payload (lit "fault_type");
    primary_target = shown e.payload (lit "primary_target");
    primary_target_kind = shown e.payload (lit "primary_target_kind");
    primary_target_label = shown e.payload (lit "primary_target_label");
    recommended_action = shown e.payload (lit "recommended_action");
    conversation_ref = e.conversation_ref;
    occurred_at = e.occurred_at;
  }

  unfoldable pub telemetry : Session → Tenant → Text → Reply (List TelemetryOut)
  telemetry s tenant identifier = with_caller s tenant identifier (respond 200 [] s) λ rollup.
      respond 200 (map telemetry_out (telemetry_events s.current tenant rollup.party.party_id)) s
