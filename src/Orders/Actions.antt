-- ===== src/Orders/Actions.antt =====
-- The order-action verbs (app/modules/orders/actions.py). The texts of `result_summary` are values
-- of `Summary`, with what each f-string interpolates.
use genesys_cx_demo_harness.Base.{
  ℕ, Bool, true, false, not, Text, lit, text_eq, Dict, [], ◌∷◌, filter, find, is_empty, first, none,
  some, ◌==◌, if◌then◌else◌,
}
use genesys_cx_demo_harness.Platform.{Platform, Param}
use genesys_cx_demo_harness.Store.{
  Tenant, Party, Identity, ContactPoint, CustomerOrder, Db, Result, ok, ◌>>=◌, text,
  kind_order_confirmation_sent,
}
use genesys_cx_demo_harness.Events.{Stamp, EventFields, add_event}
use genesys_cx_demo_harness.Offers.{Offer, find_offer}
use genesys_cx_demo_harness.Gx.Masking.{mask_email}
use genesys_cx_demo_harness.Orders.Service.{place_order, get_order, mark_confirmed}

pub data Summary : Type 0 where
  no_offer_id : Summary
  no_such_offer : (target : Text) → Summary
  ordered : (name : Text) (price : ℕ) (eta : Text) → Summary
  already_ordered : (name : Text) → Summary
  no_order_id : Summary
  no_such_order : (target : Text) → Summary
  no_email : Summary
  sent : (masked : Text) → Summary
  already_sent : (masked : Text) → Summary
  unknown_action : (name : Text) → Summary

pub record OrderOutcome : Type 0 where
  pub ok : Bool
  pub result_summary : Summary
  pub status_code : ℕ
  pub order_id : Text
  pub status : Text
  pub eta_text : Text
  pub sent_to_masked : Text
  pub message_ref : Text

-- The dataclass's defaults with a message and a code.
abbrev pub refused : ℕ → Summary → OrderOutcome
refused code s = record {
  ok = false;
  result_summary = s;
  status_code = code;
  order_id = [];
  status = [];
  eta_text = [];
  sent_to_masked = [];
  message_ref = [];
}

abbrev pub Handler : Type 0
Handler = Db → Tenant → Party → Text → Dict Param → Stamp → Result (OrderOutcome × Db)

abbrev pub is_email : Identity → Bool
is_email i = text_eq i.id_type (lit "email")

-- `party.identities` and `party.contact_points` are the rows with the party's id.
unfoldable pub party_email : Db → Party → Text
party_email db party =
    let emails =
      filter is_email (filter (λ (i : Identity). i.party_id == party.party_id) db.identities) in
    let points = filter (λ (c : ContactPoint). c.party_id == party.party_id) db.contact_points in
    elim (find (λ i. i.is_primary) emails) [
      | some primary ↦ primary.value
      | none ↦ elim (first emails) [
        | some i ↦ i.value
        | none ↦ elim (find (λ c. text_eq c.channel (lit "email")) points) [
          | some point ↦ point.value
          | none ↦ []
        ]
      ]
    ]

module _ ⦃platform : Platform⦄ where
  abbrev pub placed_outcome : CustomerOrder → Bool → OrderOutcome
  placed_outcome o created = record {
    ok = true;
    result_summary =
        (if created
          then ordered o.offer_name o.price_gbp o.eta_text
          else already_ordered o.offer_name);
    status_code = 200;
    order_id = platform.show_uuid o.order_id;
    status = o.status;
    eta_text = o.eta_text;
    sent_to_masked = [];
    message_ref = [];
  }

  unfoldable pub place_offer : Db → Tenant → Party → Offer → Stamp → Result (OrderOutcome × Db)
  place_offer db tenant party offer stamp =
      place_order db tenant party.party_id offer stamp >>= λ (order, created, db').
      ok (placed_outcome order created, db')

  unfoldable pub place : Handler
  place db tenant party target params stamp =
      if is_empty target
      then ok (refused 400 no_offer_id, db)
      else elim (find_offer tenant target) [
        | none ↦ ok (refused 404 (no_such_offer target), db)
        | some offer ↦ place_offer db tenant party offer stamp
      ]

  abbrev pub sent_outcome : CustomerOrder → Bool → Text → Text → OrderOutcome
  sent_outcome o before masked ref = record {
    ok = true;
    result_summary = (if before then already_sent masked else sent masked);
    status_code = 200;
    order_id = platform.show_uuid o.order_id;
    status = o.status;
    eta_text = o.eta_text;
    sent_to_masked = masked;
    message_ref = ref;
  }

  abbrev pub confirmation_fields : CustomerOrder → Text → Text → EventFields
  confirmation_fields o ref masked = record {
    channel = lit "email";
    conversation_ref = [];
    occurred_at = none;
    payload =
        (lit "order_id", text (platform.show_uuid o.order_id))
        ∷ (lit "offer_id", text o.offer_id)
        ∷ (lit "offer_name", text o.offer_name)
        ∷ (lit "message_ref", text ref)
        ∷ (lit "sent_to_masked", text masked)
        ∷ [];
  }

  -- The second half of `send_confirmation`, once the order and the address are known.
  unfoldable pub confirm_order :
      Db → Tenant → Party → CustomerOrder → Text → Stamp → OrderOutcome × Db
  confirm_order db tenant party o masked stamp =
      let before = not (is_empty o.confirmation_message_ref) in
      let (ref, o', db') = mark_confirmed db o stamp.now in
      let event =
        add_event tenant party.party_id kind_order_confirmation_sent
          (confirmation_fields o' ref masked) stamp db' in
      (sent_outcome o' before masked ref, if before then db' else event)

  unfoldable pub send_confirmation : Handler
  send_confirmation db tenant party target params stamp =
      if is_empty target
      then ok (refused 400 no_order_id, db)
      else (get_order db tenant party.party_id target >>= elim [
        | none ↦ ok (refused 404 (no_such_order target), db)
        | some o ↦
            let email = party_email db party in
            if is_empty email
            then ok (refused 400 no_email, db)
            else ok (
                confirm_order db tenant party o (mask_email email tenant.config_json.masked_email)
                  stamp)
      ])

  -- `ACTION_HANDLERS`
  abbrev pub action_handlers : Dict Handler
  action_handlers = (lit "place", place) ∷ (lit "send-confirmation", send_confirmation) ∷ []
