-- ===== src/Orders/Found.antt =====
-- Orders that are placed can be read back, and can be placed again after a reset
-- (app/modules/orders/service.py, app/scenarios/engine.py).
use genesys_cx_demo_harness.Base.{
  ℕ, ◌≡◌, refl, Bool, true, false, ◌&&◌, List, [], ◌∷◌, filter, any, none, some, ◌==◌, ==_refl,
  arith,
}
use genesys_cx_demo_harness.Platform.{Platform}
use genesys_cx_demo_harness.Store.{Tenant, CustomerOrder, Db, ok}
use genesys_cx_demo_harness.Events.{Stamp}
use genesys_cx_demo_harness.Offers.{Offer}
use genesys_cx_demo_harness.Orders.Service.{
  owned, find_live_order, new_order, place_order, get_order,
}
use genesys_cx_demo_harness.Scenarios.Baseline.{}

filter_nothing {ℓ} :
    {A : Type ℓ} (p q : A → Bool) (xs : List A)
    → any q xs ≡ false
    → ((x : A) → q x ≡ false → p x ≡ false)
    → filter p xs ≡ []
filter_nothing p q [] h apart = refl
filter_nothing p q (x ∷ xs) h apart = ground (arith, h, apart x, filter_nothing p q xs)

module _ ⦃platform : Platform⦄ where
  -- Where no order of the subscriber is live for the offer and the new id is no order's, placing it
  -- creates an order, and reading the order that was returned by its shown id gives that order.
  pub get_order-place_order :
      (db : Db) (tenant : Tenant) (party : ℕ) (offer : Offer) (stamp : Stamp)
      → find_live_order db tenant party offer.offer_id ≡ ok none
      → any (λ (o : CustomerOrder). o.order_id == stamp.id) db.orders ≡ false
      → (order : CustomerOrder) × (db' : Db) × (place_order db tenant party offer stamp
          ≡ ok (order, true, db'))
        × (get_order db' tenant party (platform.show_uuid order.order_id) ≡ ok (some order))
  unfolding place_order get_order
  get_order-place_order db tenant party offer stamp free fresh =
      let order = new_order tenant party offer stamp in
      let rest : filter (λ o. owned tenant party o && o.order_id == stamp.id) db.orders ≡ [] =
        filter_nothing _ (λ (o : CustomerOrder). o.order_id == stamp.id) db.orders fresh
          (λ o h. ground (arith, h)) in
      (
        order,
        record db { orders = order ∷ db.orders },
        rw (free, place_order) refl,
        rw (platform.parse-show stamp.id, get_order)
            (rw (==_refl tenant.tenant_id, ==_refl party, ==_refl stamp.id, rest) refl),
      )
