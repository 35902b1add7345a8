-- ===== src/Samples/Orders.antt =====
-- The theorems on orders, applied.
use genesys_cx_demo_harness.Base.{
  one_of, text_eq, is_empty, ℕ, ◌≡◌, ◌≤◌, refl, Bool, true, false, Text, lit, [], ◌∷◌, some, arith,
  Bool-cases, inl, inr, filter, length,
}
use genesys_cx_demo_harness.Store.{
  Tenant, CustomerOrder, Db, ok, status_cancelled, status_confirmed,
}
use genesys_cx_demo_harness.Offers.{Offer, offer_of}
use genesys_cx_demo_harness.Orders.Service.{
  is_live, new_order, find_live_order, place_order, get_order,
}
use genesys_cx_demo_harness.Gx.Masking.{mask_email}
use genesys_cx_demo_harness.Orders.Actions.{
  OrderOutcome, confirm_order, party_email, send_confirmation,
}
use genesys_cx_demo_harness.Orders.Live.{IsSound, IsLiveFor, place_order-again, place_order-total}
use genesys_cx_demo_harness.Orders.Confirm.{Repeats, send_confirmation-again}
use genesys_cx_demo_harness.Orders.Sound.{send_confirmation-revives}
use genesys_cx_demo_harness.Samples.{toy, acme, ada, mesh, stuck_home, first_stamp, second_stamp}

abbrev pub mesh_offer : Offer
mesh_offer = offer_of [] mesh

abbrev mesh_order : CustomerOrder
mesh_order = new_order acme 2 mesh_offer first_stamp

abbrev pub ordered : Db
ordered = record stuck_home { orders = mesh_order ∷ [] }

abbrev cancelled : CustomerOrder
cancelled = record mesh_order { status = status_cancelled }

abbrev with_cancelled : Db
with_cancelled = record stuck_home { orders = cancelled ∷ [] }

pub ordered-IsSound : IsSound ordered
unfolding one_of text_eq
ordered-IsSound = record { single = at_most_one; live = (refl, tt) }
  where
    at_most_one :
        (tenant : Tenant) (party_id : ℕ) (offer_id : Text)
        → length (filter (is_live tenant party_id offer_id) ordered.orders) ≤ 1
    at_most_one tenant party_id offer_id =
        elim (Bool-cases (is_live tenant party_id offer_id mesh_order)) [
          | inl e ↦ rw e (omega arith)
          | inr e ↦ rw e (omega arith)
        ]

placed_first : place_order stuck_home acme 2 mesh_offer first_stamp ≡ ok (mesh_order, true, ordered)
unfolding place_order find_live_order
placed_first = refl

place_order-again_example :
    place_order ordered acme 2 mesh_offer second_stamp ≡ ok (mesh_order, false, ordered)
place_order-again_example =
    place_order-again stuck_home acme 2 mesh_offer mesh_offer first_stamp second_stamp placed_first
      refl

place_order-total_example :
    (o : CustomerOrder) × (c : Bool) × (db' : Db) × (place_order ordered acme 2 mesh_offer
        second_stamp
      ≡ ok (o, c, db'))
    × (filter (is_live acme 2 mesh_offer.offer_id) db'.orders ≡ o ∷ [])
    × IsLiveFor acme 2 mesh_offer.offer_id o
place_order-total_example =
    place_order-total ordered acme 2 mesh_offer second_stamp
      (ordered-IsSound.single acme 2 mesh_offer.offer_id)

-- The first confirmation of the order, which goes out.
abbrev first_sent : OrderOutcome × Db
first_sent =
    confirm_order ordered acme ada mesh_order
      (mask_email (lit "ada@x.org") acme.config_json.masked_email) second_stamp

sent_once :
    send_confirmation ordered acme ada (7 ∷ []) [] second_stamp ≡ ok (first_sent.0, first_sent.1)
unfolding send_confirmation get_order party_email text_eq
sent_once = refl

sent_ok : first_sent.0.ok ≡ true
unfolding confirm_order
sent_ok = refl

send_confirmation-again_example :
    Repeats acme ada (7 ∷ []) [] first_stamp (first_sent.0, first_sent.1)
send_confirmation-again_example =
    send_confirmation-again acme ada (7 ∷ []) [] ordered second_stamp first_stamp sent_once sent_ok

cancelled_found : get_order with_cancelled acme 2 (7 ∷ []) ≡ ok (some cancelled)
unfolding get_order
cancelled_found = refl

has_email : is_empty (party_email with_cancelled ada) ≡ false
unfolding party_email text_eq
has_email = refl

send_confirmation-revives_example :
    (out : OrderOutcome) × (db' : Db) × (o' : CustomerOrder) × (send_confirmation with_cancelled
        acme ada
        (7 ∷ [])
        []
        second_stamp
      ≡ ok (out, db'))
    × (out.ok ≡ true)
    × (out.status ≡ status_confirmed)
    × (get_order db' acme 2 (7 ∷ []) ≡ ok (some o'))
    × (is_live acme 2 (lit "mesh") cancelled ≡ false)
    × (is_live acme 2 (lit "mesh") o' ≡ true)
send_confirmation-revives_example =
    send_confirmation-revives with_cancelled acme ada (7 ∷ []) [] second_stamp cancelled refl
      cancelled_found has_email refl refl
