-- ===== src/Gx/Routes/Order.antt =====
-- /gx/order-action (app/gx/routes.py).
use genesys_cx_demo_harness.Base.{true, false, Text, lookup, [], none, some, if◌then◌else◌}
use genesys_cx_demo_harness.Platform.{Platform}
use genesys_cx_demo_harness.Store.{Tenant, Db, Session, commit, rollback, Result, ok, raised}
use genesys_cx_demo_harness.Events.{Stamp}
use genesys_cx_demo_harness.Profile.{ProfileRollup}
use genesys_cx_demo_harness.Orders.Actions.{Summary, unknown_action, OrderOutcome, action_handlers}
use genesys_cx_demo_harness.Gx.Schemas.{
  OrderActionIn, OrderActionOut, Message, no_subscriber, bad_params, from_verb,
}
use genesys_cx_demo_harness.Gx.Routes.Shared.{Reply, respond, parse_params, with_caller}

-- `OrderActionOut(ok=False, action=...)` with a message.
abbrev pub order_error : Text → Message Summary → OrderActionOut
order_error action message = record {
  ok = false;
  action = action;
  order_id = [];
  status = [];
  eta_text = [];
  sent_to_masked = [];
  message_ref = [];
  result_summary = message;
}

abbrev pub order_done : Text → OrderOutcome → OrderActionOut
order_done action outcome = record {
  ok = true;
  action = action;
  order_id = outcome.order_id;
  status = outcome.status;
  eta_text = outcome.eta_text;
  sent_to_masked = outcome.sent_to_masked;
  message_ref = outcome.message_ref;
  result_summary = from_verb outcome.result_summary;
}

-- Roll back a verb that failed, or commit what it wrote.
unfoldable pub finish_order : Session → Text → Result (OrderOutcome × Db) → Reply OrderActionOut
finish_order s action (raised e) = (raised e, s)
finish_order s action (ok (outcome, db)) =
    let after = record s { current = db } in
    if outcome.ok
    then respond 200 (order_done action outcome) (commit after)
    else respond outcome.status_code (order_error action (from_verb outcome.result_summary))
        (rollback after)

module _ ⦃platform : Platform⦄ where
  -- The part of the route behind the caller.
  unfoldable pub order_action_for :
      Session → Tenant → OrderActionIn → Stamp → ProfileRollup → Reply OrderActionOut
  order_action_for s tenant payload stamp rollup = elim (lookup payload.action action_handlers) [
    | none ↦ respond 400 (order_error payload.action (from_verb (unknown_action payload.action))) s
    | some handler ↦ elim (parse_params payload.params) [
      | none ↦ respond 400 (order_error payload.action bad_params) s
      | some params ↦
          finish_order s payload.action
            (handler s.current tenant rollup.party payload.target params stamp)
    ]
  ]

  unfoldable pub order_action : Session → Tenant → OrderActionIn → Stamp → Reply OrderActionOut
  order_action s tenant payload stamp =
      with_caller s tenant payload.identifier
        (respond 404 (order_error payload.action no_subscriber) s)
        (order_action_for s tenant payload stamp)
