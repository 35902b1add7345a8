-- ===== src/Orders/Confirm.antt =====
-- `send-confirmation` under repetition, and what it does to the orders.
use mathlib.Core.Path.{subst}
use genesys_cx_demo_harness.Base.{
  ℕ, ◌≡◌, refl, sym, ap, ◌∙◌, Bool, true, false, ◌&&◌, Text, Dict, List, [], ◌∷◌, map, filter,
  Option, none, some, is_empty, ◌==◌, inl, inr, arith, Bool-cases, &&_true, filter-head, map-filter,
}
use genesys_cx_demo_harness.Platform.{Platform, Param}
use genesys_cx_demo_harness.Store.{
  Tenant, Party, CustomerOrder, Db, ok, ◌>>=◌, scalar_one_or_none, kind_order_confirmation_sent,
}
use genesys_cx_demo_harness.Events.{Stamp, add_event}
use genesys_cx_demo_harness.Gx.Masking.{mask_email}
use genesys_cx_demo_harness.Orders.Service.{
  owned, get_order, message_ref_for, mark_confirmed, write_order, confirmed,
}
use genesys_cx_demo_harness.Orders.Actions.{
  OrderOutcome, party_email, confirm_order, send_confirmation, sent_outcome, confirmation_fields,
}

abbrev pub asked : Tenant → ℕ → ℕ → CustomerOrder → Bool
asked tenant party_id id o = owned tenant party_id o && o.order_id == id

write_order-asked :
    (tenant : Tenant) (party_id id k : ℕ) (ref : Text) (now : ℕ) (o : CustomerOrder)
    → asked tenant party_id id (write_order k (confirmed ref now) o) ≡ asked tenant party_id id o
unfolding write_order
write_order-asked tenant party_id id k ref now o = ground arith

write_order_self :
    (f : CustomerOrder → CustomerOrder) (o : CustomerOrder) → write_order o.order_id f o ≡ f o
unfolding write_order
write_order_self f o = ground arith

-- The rows that a lookup by id finds are those it found before, each as written.
filter-write_order :
    (tenant : Tenant) (party_id id k : ℕ) (ref : Text) (now : ℕ) (os : List CustomerOrder)
    → filter (asked tenant party_id id) (map (write_order k (confirmed ref now)) os)
      ≡ map (write_order k (confirmed ref now)) (filter (asked tenant party_id id) os)
filter-write_order tenant party_id id k ref now os = sym (
    map-filter (asked tenant party_id id) (write_order k (confirmed ref now))
      (write_order-asked tenant party_id id k ref now) os)

module _ ⦃platform : Platform⦄ where
  message_ref_for-ne-nil : (o : CustomerOrder) → is_empty (message_ref_for o) ≡ false
  unfolding message_ref_for
  message_ref_for-ne-nil o = refl

  -- What `get_order` found, told by the rows.
  get_order-rows :
      (db : Db) (tenant : Tenant) (party_id : ℕ) (target : Text) {o : CustomerOrder}
      → get_order db tenant party_id target ≡ ok (some o)
      → (id : ℕ) × (platform.parse_uuid target ≡ some id)
        × (filter (asked tenant party_id id) db.orders ≡ o ∷ [])
  unfolding get_order
  get_order-rows db tenant party_id target {o} h = go (platform.parse_uuid target) refl
    where
      rows : (l : List CustomerOrder) → scalar_one_or_none l ≡ ok (some o) → l ≡ o ∷ []
      rows [] e = cc
      rows (x ∷ []) e = cc
      rows (x ∷ y ∷ l) e = cc

      go :
          (p : Option ℕ)
          → platform.parse_uuid target ≡ p
          → (id : ℕ) × (platform.parse_uuid target ≡ some id)
            × (filter (asked tenant party_id id) db.orders ≡ o ∷ [])
      go none e = cc
      go (some id) e = (id, e, rows _ (rw (e, get_order) at h))

  pub get_order-owned :
      (db : Db) (tenant : Tenant) (party_id : ℕ) (target : Text) {o : CustomerOrder}
      → get_order db tenant party_id target ≡ ok (some o)
      → owned tenant party_id o ≡ true
  get_order-owned db tenant party_id target h =
      let (id, p, e) = get_order-rows db tenant party_id target h in
      (&&_true _ _ (filter-head (asked tenant party_id id) db.orders e)).0

  get_order-of_rows :
      (db : Db) (tenant : Tenant) (party_id id : ℕ) (target : Text) (o : CustomerOrder)
      → platform.parse_uuid target ≡ some id
      → filter (asked tenant party_id id) db.orders ≡ o ∷ []
      → get_order db tenant party_id target ≡ ok (some o)
  unfolding get_order
  get_order-of_rows db tenant party_id id target o p e = rw (p, e, get_order, scalar_one_or_none)

  module _ (db : Db) (tenant : Tenant) (party : Party) (o : CustomerOrder) (masked : Text)
      (stamp : Stamp) where
    abbrev pub marked : Db
    marked = record db {
      orders = map (write_order o.order_id (confirmed (message_ref_for o) stamp.now)) db.orders;
    }

    abbrev pub announced : Db
    announced =
        add_event tenant party.party_id kind_order_confirmation_sent
          (confirmation_fields (confirmed (message_ref_for o) stamp.now o) (message_ref_for o)
            masked)
          stamp marked

    pub confirm_order-first :
        is_empty o.confirmation_message_ref ≡ true
        → confirm_order db tenant party o masked stamp ≡ (
          sent_outcome (confirmed (message_ref_for o) stamp.now o) false masked (message_ref_for o),
          announced,
        )
    unfolding confirm_order mark_confirmed
    confirm_order-first e = rw (e, mark_confirmed)

    pub confirm_order-repeat :
        is_empty o.confirmation_message_ref ≡ false
        → confirm_order db tenant party o masked stamp
          ≡ (sent_outcome o true masked o.confirmation_message_ref, db)
    unfolding confirm_order mark_confirmed
    confirm_order-repeat e = rw (e, mark_confirmed)

  module _ (tenant : Tenant) (party : Party) (target : Text) (params : Dict Param) where
    abbrev pub masked_for : Db → Text
    masked_for db = mask_email (party_email db party) tenant.config_json.masked_email

    pub send_confirmation-step :
        (db : Db) (stamp : Stamp) (o : CustomerOrder)
        → is_empty target ≡ false
        → get_order db tenant party.party_id target ≡ ok (some o)
        → is_empty (party_email db party) ≡ false
        → send_confirmation db tenant party target params stamp
          ≡ ok (confirm_order db tenant party o (masked_for db) stamp)
    unfolding send_confirmation
    send_confirmation-step db stamp o et eo ee = rw (et, eo, ◌>>=◌, ee)

    pub send_confirmation-cases :
        (db : Db) (stamp : Stamp) {out : OrderOutcome} {db' : Db}
        → send_confirmation db tenant party target params stamp ≡ ok (out, db')
        → out.ok ≡ true
        → (o : CustomerOrder) × (is_empty target ≡ false)
          × (get_order db tenant party.party_id target ≡ ok (some o))
          × (is_empty (party_email db party) ≡ false)
          × (confirm_order db tenant party o (masked_for db) stamp ≡ (out, db'))
    unfolding send_confirmation
    send_confirmation-cases db stamp {out} {db'} h good = ground arith

    -- The order is found again after it was marked, as it was written.
    pub get_order-announced :
        (db : Db) (o : CustomerOrder) (masked : Text) (stamp : Stamp)
        → get_order db tenant party.party_id target ≡ ok (some o)
        → get_order (announced db tenant party o masked stamp) tenant party.party_id target
          ≡ ok (some (confirmed (message_ref_for o) stamp.now o))
    unfolding add_event
    get_order-announced db o masked stamp eo =
        let (id, p, e) = get_order-rows db tenant party.party_id target eo in
        get_order-of_rows (announced db tenant party o masked stamp) tenant party.party_id id target
          (confirmed (message_ref_for o) stamp.now o) p
          (filter-write_order tenant party.party_id id o.order_id (message_ref_for o) stamp.now
              db.orders
            ∙ (rw (e, write_order_self)))

    party_email-announced :
        (db : Db) (o : CustomerOrder) (masked : Text) (stamp : Stamp)
        → party_email (announced db tenant party o masked stamp) party ≡ party_email db party
    unfolding add_event party_email
    party_email-announced db o masked stamp = refl

    -- What a second call does in the tables that a first one left with its outcome.
    abbrev pub Repeats : Stamp → OrderOutcome × Db → Type 0
    Repeats stamp' (out, db') =
        (again : OrderOutcome) × (send_confirmation db' tenant party target params stamp'
          ≡ ok (again, db'))
        × (again.ok ≡ true)
        × (again.message_ref ≡ out.message_ref)
        × (again.sent_to_masked ≡ out.sent_to_masked)
        × (again.status ≡ out.status)

    repeat_after :
        (db : Db) (o : CustomerOrder) (out : OrderOutcome) (stamp' : Stamp)
        → is_empty target ≡ false
        → get_order db tenant party.party_id target ≡ ok (some o)
        → is_empty (party_email db party) ≡ false
        → is_empty o.confirmation_message_ref ≡ false
        → o.confirmation_message_ref ≡ out.message_ref
        → masked_for db ≡ out.sent_to_masked
        → o.status ≡ out.status
        → Repeats stamp' (out, db)
    repeat_after db o out stamp' et eo ee sent er em es = (
      sent_outcome o true (masked_for db) o.confirmation_message_ref,
      send_confirmation-step db stamp' o et eo ee
          ∙ ap ok (confirm_order-repeat db tenant party o (masked_for db) stamp' sent),
      refl,
      er,
      em,
      es,
    )

    -- A confirmation that went out is not sent again: with any stamp the second call succeeds with
    -- the same reference, address and status, and writes nothing, neither an order nor an event.
    pub send_confirmation-again :
        (db : Db) (stamp stamp' : Stamp) {out : OrderOutcome} {db' : Db}
        → send_confirmation db tenant party target params stamp ≡ ok (out, db')
        → out.ok ≡ true
        → Repeats stamp' (out, db')
    send_confirmation-again db stamp stamp' h good =
        let (o, et, eo, ee, done) = send_confirmation-cases db stamp h good in
        let masked = masked_for db in
        elim (Bool-cases (is_empty o.confirmation_message_ref)) [
          | inl fresh ↦
              subst (Repeats stamp')
                (sym (confirm_order-first db tenant party o masked stamp fresh) ∙ done)
                (repeat_after (announced db tenant party o masked stamp)
                  (confirmed (message_ref_for o) stamp.now o)
                  (sent_outcome (confirmed (message_ref_for o) stamp.now o) false masked
                    (message_ref_for o))
                  stamp' et (get_order-announced db o masked stamp eo)
                  (rw (party_email-announced db o masked stamp) ee) (message_ref_for-ne-nil o) refl
                  (ap (λ e. mask_email e tenant.config_json.masked_email)
                    (party_email-announced db o masked stamp))
                  refl)
          | inr sent ↦
              subst (Repeats stamp')
                (sym (confirm_order-repeat db tenant party o masked stamp sent) ∙ done)
                (repeat_after db o (sent_outcome o true masked o.confirmation_message_ref) stamp' et
                  eo ee sent refl refl refl)
        ]
