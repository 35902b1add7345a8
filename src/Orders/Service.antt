-- ===== src/Orders/Service.antt =====
-- Order persistence (app/modules/orders/service.py): tenant- and party-scoped reads and writes.
use genesys_cx_demo_harness.Base.{
  ℕ, Bool, true, false, ◌&&◌, Text, lit, text_eq, one_of, List, [], ◌∷◌, ◌++◌, map, take, filter,
  is_empty, leb, Option, none, some, ◌==◌, if◌then◌else◌, sort_by,
}
use genesys_cx_demo_harness.Platform.{Platform}
use genesys_cx_demo_harness.Store.{
  Tenant, CustomerOrder, Db, Result, ok, ◌>>=◌, scalar_one_or_none, live_statuses, status_placed,
  status_confirmed,
}
use genesys_cx_demo_harness.Events.{Stamp}
use genesys_cx_demo_harness.Offers.{Offer}

abbrev pub owned : Tenant → ℕ → CustomerOrder → Bool
owned tenant party_id o = o.tenant_id == tenant.tenant_id && o.party_id == party_id

-- The order is this subscriber's, for this offer, and not cancelled.
unfoldable pub is_live : Tenant → ℕ → Text → CustomerOrder → Bool
is_live tenant party_id offer_id o =
    owned tenant party_id o && (text_eq o.offer_id offer_id && one_of o.status live_statuses)

unfoldable pub find_live_order : Db → Tenant → ℕ → Text → Result (Option CustomerOrder)
find_live_order db tenant party_id offer_id =
    scalar_one_or_none (filter (is_live tenant party_id offer_id) db.orders)

abbrev pub new_order : Tenant → ℕ → Offer → Stamp → CustomerOrder
new_order tenant party_id offer stamp = record {
  order_id = stamp.id;
  tenant_id = tenant.tenant_id;
  party_id = party_id;
  offer_id = offer.offer_id;
  offer_name = offer.name;
  price_gbp = offer.price_gbp;
  status = status_placed;
  eta_text = offer.eta_text;
  confirmation_message_ref = [];
  confirmed_at = none;
  created_at = stamp.now;
}

-- The order, whether it was created, and the tables after.
unfoldable pub place_order : Db → Tenant → ℕ → Offer → Stamp → Result (CustomerOrder × Bool × Db)
place_order db tenant party_id offer stamp =
    find_live_order db tenant party_id offer.offer_id >>= elim [
      | some existing ↦ ok (existing, false, db)
      | none ↦
          let order = new_order tenant party_id offer stamp in
          ok (order, true, record db { orders = order ∷ db.orders })
    ]

-- What `mark_confirmed` writes into the row.
abbrev pub confirmed : Text → ℕ → CustomerOrder → CustomerOrder
confirmed ref now o = record o {
  status = status_confirmed;
  confirmation_message_ref = ref;
  confirmed_at = some now;
}

unfoldable pub write_order : ℕ → (CustomerOrder → CustomerOrder) → CustomerOrder → CustomerOrder
write_order id f o = if o.order_id == id then f o else o

-- ORDER BY created_at DESC
abbrev pub latest_first : CustomerOrder → CustomerOrder → Bool
latest_first a b = leb b.created_at a.created_at

unfoldable pub party_orders : Db → Tenant → ℕ → List CustomerOrder
party_orders db tenant party_id = sort_by latest_first (filter (owned tenant party_id) db.orders)

module _ ⦃platform : Platform⦄ where
  unfoldable pub get_order : Db → Tenant → ℕ → Text → Result (Option CustomerOrder)
  get_order db tenant party_id order_id = elim (platform.parse_uuid order_id) [
    | none ↦ ok none
    | some parsed ↦
        scalar_one_or_none (filter (λ o. owned tenant party_id o && o.order_id == parsed) db.orders)
  ]

  unfoldable pub message_ref_for : CustomerOrder → Text
  message_ref_for o = lit "MSG-" ++ platform.upper (take 8 (platform.show_uuid o.order_id))

  -- The reference, the order as it now is, and the tables after.
  unfoldable pub mark_confirmed : Db → CustomerOrder → ℕ → Text × CustomerOrder × Db
  mark_confirmed db o now =
      if is_empty o.confirmation_message_ref
      then (let ref = message_ref_for o in
          (
            ref,
            confirmed ref now o,
            record db { orders = map (write_order o.order_id (confirmed ref now)) db.orders },
          ))
      else (o.confirmation_message_ref, o, db)
