-- ===== src/Orders/Sound.antt =====
-- Which orders a confirmation leaves: sound ones stay sound, and a cancelled one comes back to life.
use genesys_cx_demo_harness.Base.{
  ℕ, suc, ◌≡◌, refl, sym, ap, ◌∙◌, subst, true, false, Text, text_eq, text_eq_refl, one_of, Dict,
  List, [], ◌∷◌, map, filter, length, All, some, is_empty, inl, inr, arith, Bool-cases,
  Option-cases,
}
use genesys_cx_demo_harness.Platform.{Platform, Param}
use genesys_cx_demo_harness.Store.{
  Tenant, Party, CustomerOrder, Db, Result, ok, >>=-eq-ok, live_statuses, status_cancelled,
  status_confirmed,
}
use genesys_cx_demo_harness.Events.{Stamp, add_event}
use genesys_cx_demo_harness.Offers.{Offer, find_offer}
use genesys_cx_demo_harness.Orders.Service.{
  owned, is_live, get_order, place_order, message_ref_for, write_order, confirmed,
}
use genesys_cx_demo_harness.Orders.Actions.{
  OrderOutcome, place_offer, party_email, confirm_order, send_confirmation, sent_outcome, place,
}
use genesys_cx_demo_harness.Orders.Live.{IsSound, place_order-IsSound}
use genesys_cx_demo_harness.Orders.Confirm.{
  announced, confirm_order-first, confirm_order-repeat, send_confirmation-cases,
  send_confirmation-step, get_order-announced, get_order-owned, masked_for,
}

confirmed-is_live : one_of status_confirmed live_statuses ≡ true
unfolding one_of text_eq
confirmed-is_live = refl

abbrev IsLiveStatus : CustomerOrder → Type 0
IsLiveStatus o = one_of o.status live_statuses ≡ true

cancelled-not_live :
    (tenant : Tenant) (party_id : ℕ) (offer_id : Text) (o : CustomerOrder)
    → o.status ≡ status_cancelled
    → is_live tenant party_id offer_id o ≡ false
unfolding is_live one_of text_eq
cancelled-not_live tenant party_id offer_id o e = ground arith

confirmed-live :
    (tenant : Tenant) (party_id : ℕ) (ref : Text) (now : ℕ) (o : CustomerOrder)
    → owned tenant party_id o ≡ true
    → is_live tenant party_id o.offer_id (confirmed ref now o) ≡ true
unfolding is_live
confirmed-live tenant party_id ref now o e =
    ground (arith, confirmed-is_live, text_eq_refl o.offer_id)

write_order-is_live :
    (tenant : Tenant) (party_id : ℕ) (offer_id : Text) (k : ℕ) (ref : Text) (now : ℕ)
    (o : CustomerOrder)
    → IsLiveStatus o
    → is_live tenant party_id offer_id (write_order k (confirmed ref now) o)
      ≡ is_live tenant party_id offer_id o
unfolding is_live write_order
write_order-is_live tenant party_id offer_id k ref now o live = ground (arith, confirmed-is_live)

write_order-IsLiveStatus :
    (k : ℕ) (ref : Text) (now : ℕ) (o : CustomerOrder)
    → IsLiveStatus o
    → IsLiveStatus (write_order k (confirmed ref now) o)
unfolding write_order
write_order-IsLiveStatus k ref now o live = ground (arith, confirmed-is_live)

lives-write_order :
    (tenant : Tenant) (party_id : ℕ) (offer_id : Text) (k : ℕ) (ref : Text) (now : ℕ)
    (os : List CustomerOrder)
    → All IsLiveStatus os
    → length
        (filter (is_live tenant party_id offer_id) (map (write_order k (confirmed ref now)) os))
      ≡ length (filter (is_live tenant party_id offer_id) os)
lives-write_order tenant party_id offer_id k ref now [] live = refl
lives-write_order tenant party_id offer_id k ref now (o ∷ os) live =
    rw (write_order-is_live tenant party_id offer_id k ref now o live.0)
      (elim (Bool-cases (is_live tenant party_id offer_id o)) [
        | inl e ↦ rw e (ap suc (lives-write_order tenant party_id offer_id k ref now os live.1))
        | inr e ↦ rw e (lives-write_order tenant party_id offer_id k ref now os live.1)
      ])

All-write_order :
    (k : ℕ) (ref : Text) (now : ℕ) (os : List CustomerOrder)
    → All IsLiveStatus os
    → All IsLiveStatus (map (write_order k (confirmed ref now)) os)
All-write_order k ref now [] live = tt
All-write_order k ref now (o ∷ os) live = (one, All-write_order k ref now os live.1)
  where
    one : IsLiveStatus (write_order k (confirmed ref now) o)
    one = write_order-IsLiveStatus k ref now o live.0

module _ ⦃platform : Platform⦄ where
  announced-IsSound :
      (db : Db) (tenant : Tenant) (party : Party) (o : CustomerOrder) (masked : Text)
      (stamp : Stamp)
      → IsSound db
      → IsSound (announced db tenant party o masked stamp)
  unfolding add_event
  announced-IsSound db tenant party o masked stamp sound = record {
    single = λ tenant' party' offer_id.
        rw
          (lives-write_order tenant' party' offer_id o.order_id (message_ref_for o) stamp.now
            db.orders sound.live)
          (sound.single tenant' party' offer_id);
    live = All-write_order o.order_id (message_ref_for o) stamp.now db.orders sound.live;
  }

  send_confirmation-refused :
      (db : Db) (tenant : Tenant) (party : Party) (target : Text) (params : Dict Param)
      (stamp : Stamp) {out : OrderOutcome} {db' : Db}
      → send_confirmation db tenant party target params stamp ≡ ok (out, db')
      → out.ok ≡ false
      → db' ≡ db
  unfolding send_confirmation confirm_order
  send_confirmation-refused db tenant party target params stamp h bad = ground arith

  -- `send-confirmation` keeps the orders sound, whatever it answers.
  pub send_confirmation-IsSound :
      (db : Db) (tenant : Tenant) (party : Party) (target : Text) (params : Dict Param)
      (stamp : Stamp) {out : OrderOutcome} {db' : Db}
      → IsSound db
      → send_confirmation db tenant party target params stamp ≡ ok (out, db')
      → IsSound db'
  send_confirmation-IsSound db tenant party target params stamp {out} {db'} sound h =
      elim (Bool-cases out.ok) [
        | inl good ↦
            let (o, et, eo, ee, done) =
              send_confirmation-cases tenant party target params db stamp h good in
            settle o _ done
        | inr bad ↦ rw (send_confirmation-refused db tenant party target params stamp h bad) sound
      ]
    where
      settle :
          (o : CustomerOrder) (masked : Text)
          → confirm_order db tenant party o masked stamp ≡ (out, db')
          → IsSound db'
      settle o masked done = elim (Bool-cases (is_empty o.confirmation_message_ref)) [
        | inl fresh ↦
            subst (λ (r : OrderOutcome × Db). IsSound r.1)
              (sym (confirm_order-first db tenant party o masked stamp fresh) ∙ done)
              (announced-IsSound db tenant party o masked stamp sound)
        | inr sent ↦
            subst (λ (r : OrderOutcome × Db). IsSound r.1)
              (sym (confirm_order-repeat db tenant party o masked stamp sent) ∙ done) sound
      ]

  -- `place` keeps the orders sound, whatever it answers.
  pub place-IsSound :
      (db : Db) (tenant : Tenant) (party : Party) (target : Text) (params : Dict Param)
      (stamp : Stamp) {out : OrderOutcome} {db' : Db}
      → IsSound db
      → place db tenant party target params stamp ≡ ok (out, db')
      → IsSound db'
  unfolding place place_offer
  place-IsSound db tenant party target params stamp {out} {db'} sound h =
      elim (Bool-cases (is_empty target)) [
        | inl none_given ↦ subst IsSound (same_db (rw none_given at h)) sound
        | inr given ↦ elim (Option-cases (find_offer tenant target)) [
          | inl missing ↦ subst IsSound (same_db (rw (given, missing) at h)) sound
          | inr (offer, found) ↦ placed offer (rw (given, found) at h)
        ]
      ]
    where
      same_db :
          {a : OrderOutcome} {d : Db}
          → ◌≡◌ {A = Result (OrderOutcome × Db)} (ok (a, d)) (ok (out, db'))
          → d ≡ db'
      same_db e = cc

      placed :
          (offer : Offer) → place_offer db tenant party offer stamp ≡ ok (out, db') → IsSound db'
      placed offer k =
          let ((order, created, d), e, r) =
            >>=-eq-ok (place_order db tenant party.party_id offer stamp) _ k in
          subst IsSound (same_db r)
            (place_order-IsSound db tenant party.party_id offer stamp sound e)

  -- Where the order of the call was cancelled before it was ever confirmed, and the subscriber has
  -- an address, it comes back to life: the call succeeds, reports it
  -- confirmed, and the row that was not live is live from then on.
  pub send_confirmation-revives :
      (db : Db) (tenant : Tenant) (party : Party) (target : Text) (params : Dict Param)
      (stamp : Stamp) (o : CustomerOrder)
      → is_empty target ≡ false
      → get_order db tenant party.party_id target ≡ ok (some o)
      → is_empty (party_email db party) ≡ false
      → o.status ≡ status_cancelled
      → is_empty o.confirmation_message_ref ≡ true
      → (out : OrderOutcome) × (db' : Db) × (o' : CustomerOrder) × (send_confirmation db tenant
            party target params stamp
          ≡ ok (out, db'))
        × (out.ok ≡ true)
        × (out.status ≡ status_confirmed)
        × (get_order db' tenant party.party_id target ≡ ok (some o'))
        × (is_live tenant party.party_id o.offer_id o ≡ false)
        × (is_live tenant party.party_id o.offer_id o' ≡ true)
  send_confirmation-revives db tenant party target params stamp o et eo ee cancelled fresh =
      let masked = masked_for tenant party target params db in
      (
        sent_outcome (confirmed (message_ref_for o) stamp.now o) false masked (message_ref_for o),
        announced db tenant party o masked stamp,
        confirmed (message_ref_for o) stamp.now o,
        send_confirmation-step tenant party target params db stamp o et eo ee
            ∙ ap ok (confirm_order-first db tenant party o masked stamp fresh),
        refl,
        refl,
        get_order-announced tenant party target params db o masked stamp eo,
        not_live o cancelled,
        now_live o (get_order-owned db tenant party.party_id target eo),
      )
    where
      not_live :
          (o : CustomerOrder)
          → o.status ≡ status_cancelled
          → is_live tenant party.party_id o.offer_id o ≡ false
      not_live o e = cancelled-not_live tenant party.party_id o.offer_id o e

      now_live :
          (o : CustomerOrder)
          → owned tenant party.party_id o ≡ true
          → is_live tenant party.party_id o.offer_id (confirmed (message_ref_for o) stamp.now o)
            ≡ true
      now_live o e = confirmed-live tenant party.party_id (message_ref_for o) stamp.now o e
