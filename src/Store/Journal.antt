-- ===== src/Store/Journal.antt =====
-- What requests write: orders (app/modules/orders/models.py), events (app/events/models.py) and
-- the scenario log (app/scenarios/models.py).
use genesys_cx_demo_harness.Base.{ℕ, Text, Dict, lit, ℤ, List, [], ◌∷◌, Option}

abbrev pub status_placed : Text
status_placed = lit "placed"

abbrev pub status_confirmed : Text
status_confirmed = lit "confirmed"

abbrev pub status_cancelled : Text
status_cancelled = lit "cancelled"

abbrev pub live_statuses : List Text
live_statuses = status_placed ∷ status_confirmed ∷ []

-- The price is in pence: a `Numeric(10, 2)` of pounds.
pub record CustomerOrder : Type 0 where
  pub order_id : ℕ
  pub tenant_id : ℕ
  pub party_id : ℕ
  pub offer_id : Text
  pub offer_name : Text
  pub price_gbp : ℕ
  pub status : Text
  pub eta_text : Text
  pub confirmation_message_ref : Text
  pub confirmed_at : Option ℕ
  pub created_at : ℕ

abbrev pub kind_interaction : Text
kind_interaction = lit "interaction"

abbrev pub kind_csat : Text
kind_csat = lit "csat"

abbrev pub kind_network_degraded : Text
kind_network_degraded = lit "network.degraded"

abbrev pub kind_order_confirmation_sent : Text
kind_order_confirmation_sent = lit "order.confirmation_sent"

abbrev pub telemetry_kinds : List Text
telemetry_kinds = kind_network_degraded ∷ []

-- A value of an event's JSON payload.
pub data Scalar : Type 0 where
  text : Text → Scalar
  int : ℤ → Scalar

pub record Event : Type 0 where
  pub event_id : ℕ
  pub tenant_id : ℕ
  pub party_id : ℕ
  pub kind : Text
  pub channel : Text
  pub conversation_ref : Text
  pub payload : Dict Scalar
  pub occurred_at : ℕ

pub record ScenarioEvent : Type 0 where
  pub event_id : ℕ
  pub tenant_id : ℕ
  pub action : Text
  pub scenario : Text
  pub rows_changed : ℕ
  pub created_at : ℕ
