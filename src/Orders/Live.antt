-- ===== src/Orders/Live.antt =====
-- `place` under repetition: what `place_order` returns, and the orders that stay single.
use genesys_cx_demo_harness.Base.{
  ℕ, ◌≤◌, ◌≡◌, refl, Bool, true, false, Text, text_eq, eq→text_eq, text_eq→eq, one_of, List, [],
  ◌∷◌, filter, length, All, ◌⊎◌, inl, inr, arith, Bool-cases, &&_true, ==_iff, mem-filter_passes,
  Memᴰ, subst, sym,
}
use mathlib.Core.Path.{ap, fun_ext, ◌∙◌}
use genesys_cx_demo_harness.Store.{
  Tenant, CustomerOrder, Db, ok, raised, multiple_results_found, ◌>>=◌, scalar_one_or_none,
  live_statuses,
}
use genesys_cx_demo_harness.Events.{Stamp}
use genesys_cx_demo_harness.Offers.{Offer}
use genesys_cx_demo_harness.Orders.Service.{is_live, find_live_order, new_order, place_order}

module _ (db : Db) (tenant : Tenant) (party_id : ℕ) (offer : Offer) (stamp : Stamp) where
  abbrev lives : List CustomerOrder
  lives = filter (is_live tenant party_id offer.offer_id) db.orders

  abbrev pub created : Db
  created = record db { orders = new_order tenant party_id offer stamp ∷ db.orders }

  pub place_order-none :
      lives ≡ []
      → place_order db tenant party_id offer stamp
        ≡ ok (new_order tenant party_id offer stamp, true, created)
  unfolding place_order find_live_order
  place_order-none e = rw (e, scalar_one_or_none, ◌>>=◌)

  pub place_order-one :
      (o : CustomerOrder)
      → lives ≡ o ∷ []
      → place_order db tenant party_id offer stamp ≡ ok (o, false, db)
  unfolding place_order find_live_order
  place_order-one o e = rw (e, scalar_one_or_none, ◌>>=◌)

  pub place_order-many :
      (x y : CustomerOrder) (rest : List CustomerOrder)
      → lives ≡ x ∷ y ∷ rest
      → place_order db tenant party_id offer stamp ≡ raised multiple_results_found
  unfolding place_order find_live_order
  place_order-many x y rest e = rw (e, scalar_one_or_none, ◌>>=◌)

  pub place_order-cases :
      {o : CustomerOrder} {c : Bool} {db' : Db}
      → place_order db tenant party_id offer stamp ≡ ok (o, c, db')
      → ((lives ≡ []) × (o ≡ new_order tenant party_id offer stamp) × (c ≡ true) × (db' ≡ created))
        ⊎ ((lives ≡ o ∷ []) × (c ≡ false) × (db' ≡ db))
  place_order-cases {o} {c} {db'} h = go lives refl
    where
      go :
          (l : List CustomerOrder)
          → lives ≡ l
          → ((lives ≡ [])
              × (o ≡ new_order tenant party_id offer stamp)
              × (c ≡ true)
              × (db' ≡ created))
            ⊎ ((lives ≡ o ∷ []) × (c ≡ false) × (db' ≡ db))
      go [] e = let k = place_order-none e in inl (e, cc, cc, cc)
      go (x ∷ []) e = let k = place_order-one x e in inr (cc, cc, cc)
      go (x ∷ y ∷ rest) e = let k = place_order-many x y rest e in cc

new_order-is_live :
    (tenant : Tenant) (party_id : ℕ) (offer : Offer) (stamp : Stamp) (offer_id : Text)
    → offer_id ≡ offer.offer_id
    → is_live tenant party_id offer_id (new_order tenant party_id offer stamp) ≡ true
unfolding is_live one_of text_eq
new_order-is_live tenant party_id offer stamp offer_id e =
    ground (arith, eq→text_eq offer.offer_id offer_id)

-- A second `place` for the same offer, with any stamp and whatever the catalogue now says of it,
-- returns the order of the first, creates nothing and writes nothing.
pub place_order-again :
    (db : Db) (tenant : Tenant) (party_id : ℕ) (offer offer' : Offer) (stamp stamp' : Stamp)
    {o : CustomerOrder} {c : Bool} {db' : Db}
    → place_order db tenant party_id offer stamp ≡ ok (o, c, db')
    → offer'.offer_id ≡ offer.offer_id
    → place_order db' tenant party_id offer' stamp' ≡ ok (o, false, db')
place_order-again db tenant party_id offer offer' stamp stamp' {o} {c} {db'} h same =
    elim (place_order-cases db tenant party_id offer stamp h) [
      | inl (e, eo, ec, ed) ↦
          rw (ed, eo)
            (place_order-one (created db tenant party_id offer stamp) tenant party_id offer' stamp'
              _ (filtered e))
      | inr (e, ec, ed) ↦ rw ed (place_order-one db tenant party_id offer' stamp' o (rw same e))
    ]
  where
    filtered :
        lives db tenant party_id offer stamp ≡ []
        → lives (created db tenant party_id offer stamp) tenant party_id offer' stamp'
          ≡ new_order tenant party_id offer stamp ∷ []
    filtered e =
        let e' : lives db tenant party_id offer' stamp ≡ [] = rw same e in
        rw (new_order-is_live tenant party_id offer stamp offer'.offer_id same, e')

-- One subscriber holds at most one live order for one offer, and no order is cancelled.
pub record IsSound (db : Db) : Type 0 where
  pub single :
      (tenant : Tenant) (party_id : ℕ) (offer_id : Text)
      → length (filter (is_live tenant party_id offer_id) db.orders) ≤ 1
  pub live : All (λ (o : CustomerOrder). one_of o.status live_statuses ≡ true) db.orders

-- The order is that subscriber's, for that offer, and its status is live.
abbrev pub IsLiveFor : Tenant → ℕ → Text → CustomerOrder → Type 0
IsLiveFor tenant party_id offer_id o =
    (o.tenant_id ≡ tenant.tenant_id)
    × (o.party_id ≡ party_id)
    × (o.offer_id ≡ offer_id)
    × (one_of o.status live_statuses ≡ true)

-- What being live is.
is_live-parts :
    (tenant : Tenant) (party_id : ℕ) (offer_id : Text) (o : CustomerOrder)
    → is_live tenant party_id offer_id o ≡ true
    → IsLiveFor tenant party_id offer_id o
unfolding is_live
is_live-parts tenant party_id offer_id o h =
    let (mine, rest) = &&_true _ _ h in
    let (t, p) = &&_true _ _ mine in
    let (offered, alive) = &&_true _ _ rest in
    ((==_iff _ _).0 t, (==_iff _ _).0 p, text_eq→eq o.offer_id offer_id offered, alive)

-- Where the subscriber has at most one live order for the offer, `place_order` returns, and the order
-- that it returns is then the one live order that the subscriber has for that offer.
pub place_order-total :
    (db : Db) (tenant : Tenant) (party_id : ℕ) (offer : Offer) (stamp : Stamp)
    → length (filter (is_live tenant party_id offer.offer_id) db.orders) ≤ 1
    → (o : CustomerOrder) × (c : Bool) × (db' : Db) × (place_order db tenant party_id offer stamp
        ≡ ok (o, c, db'))
      × (filter (is_live tenant party_id offer.offer_id) db'.orders ≡ o ∷ [])
      × IsLiveFor tenant party_id offer.offer_id o
place_order-total db tenant party_id offer stamp few =
    go (lives db tenant party_id offer stamp) refl few
  where
    live : CustomerOrder → Bool
    live = is_live tenant party_id offer.offer_id

    go :
        (l : List CustomerOrder)
        → lives db tenant party_id offer stamp ≡ l
        → length (lives db tenant party_id offer stamp) ≤ 1
        → (o : CustomerOrder) × (c : Bool) × (db' : Db) × (place_order db tenant party_id offer
              stamp
            ≡ ok (o, c, db'))
          × (filter live db'.orders ≡ o ∷ [])
          × IsLiveFor tenant party_id offer.offer_id o
    go [] e n =
        let fresh = new_order-is_live tenant party_id offer stamp offer.offer_id refl in
        (
          _,
          _,
          _,
          place_order-none db tenant party_id offer stamp e,
          rw (fresh, e) refl,
          is_live-parts tenant party_id offer.offer_id _ fresh,
        )
    go (x ∷ []) e n = (
      _,
      _,
      _,
      place_order-one db tenant party_id offer stamp x e,
      e,
      is_live-parts tenant party_id offer.offer_id x (
          mem-filter_passes live db.orders
            (subst (λ (l : List CustomerOrder). Memᴰ x l) (sym e) (Memᴰ.head refl))),
    )
    go (x ∷ y ∷ rest) e n = absurd (omega (arith, rw e at n))

-- Live for another subscriber or offer is a fact about the ids alone.
new_order-live_for :
    (tenant tenant' : Tenant) (party_id party' : ℕ) (offer : Offer) (stamp : Stamp)
    (offer_id : Text)
    → is_live tenant' party' offer_id (new_order tenant party_id offer stamp) ≡ true
    → (tenant'.tenant_id ≡ tenant.tenant_id) × (party' ≡ party_id) × (offer_id ≡ offer.offer_id)
unfolding is_live one_of text_eq
new_order-live_for tenant tenant' party_id party' offer stamp offer_id h =
    ground (arith, text_eq→eq offer.offer_id offer_id)

is_live_ids :
    (tenant tenant' : Tenant) (party_id : ℕ) (offer_id : Text) (o : CustomerOrder)
    → tenant'.tenant_id ≡ tenant.tenant_id
    → is_live tenant' party_id offer_id o ≡ is_live tenant party_id offer_id o
unfolding is_live
is_live_ids tenant tenant' party_id offer_id o e = rw e

lives_ids :
    (tenant tenant' : Tenant) (party_id : ℕ) (offer_id : Text) (os : List CustomerOrder)
    → tenant'.tenant_id ≡ tenant.tenant_id
    → filter (is_live tenant' party_id offer_id) os ≡ filter (is_live tenant party_id offer_id) os
lives_ids tenant tenant' party_id offer_id os e =
    ap (λ p. filter p os) (fun_ext (λ o. is_live_ids tenant tenant' party_id offer_id o e))

-- `place` keeps the orders sound.
pub place_order-IsSound :
    (db : Db) (tenant : Tenant) (party_id : ℕ) (offer : Offer) (stamp : Stamp) {o : CustomerOrder}
    {c : Bool} {db' : Db}
    → IsSound db
    → place_order db tenant party_id offer stamp ≡ ok (o, c, db')
    → IsSound db'
unfolding one_of text_eq
place_order-IsSound db tenant party_id offer stamp {o} {c} {db'} sound h =
    elim (place_order-cases db tenant party_id offer stamp h) [
      | inl (e, eo, ec, ed) ↦ rw ed (record { single = kept e; live = (refl, sound.live) })
      | inr (e, ec, ed) ↦ rw ed sound
    ]
  where
    kept :
        lives db tenant party_id offer stamp ≡ []
        → (tenant' : Tenant) (party' : ℕ) (offer_id : Text)
        → length (
            filter
              (is_live tenant' party' offer_id)
              (created db tenant party_id offer stamp).orders)
          ≤ 1
    kept e tenant' party' offer_id =
        elim (Bool-cases
          (is_live tenant' party' offer_id (new_order tenant party_id offer stamp))) [
            | inl live ↦
                let (et, ep, ei) =
                  new_order-live_for tenant tenant' party_id party' offer stamp offer_id live in
                let z : filter (is_live tenant' party' offer_id) db.orders ≡ [] =
                  rw (ep, ei) (lives_ids tenant tenant' party_id offer.offer_id db.orders et ∙ e) in
                rw (live, z) (omega arith)
            | inr other ↦ rw other (sound.single tenant' party' offer_id)
          ]
