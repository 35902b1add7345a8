-- ===== src/Offers/Choice.antt =====
-- Which offer is made.
use genesys_cx_demo_harness.Base.{
  ◌≡◌, refl, ap, true, false, List, [], ◌∷◌, ◌++◌, All, Option, none, some, Bool-cases, ◌⊎◌, inl,
  inr,
}
use genesys_cx_demo_harness.Store.{Tenant, ok, >>=-eq-ok}
use genesys_cx_demo_harness.Network.Config.{NetworkConfig, network_config}
use genesys_cx_demo_harness.Network.Home.{Topology}
use genesys_cx_demo_harness.Offers.{Offer, catalogue, is_eligible, first_eligible, best_offer}

-- No offer of the list is eligible, and none of them raises.
abbrev pub AllIneligible : Topology → NetworkConfig → List Offer → Type 0
AllIneligible t cfg = All (λ (o : Offer). is_eligible o t cfg ≡ ok false)

-- The offer stands in the list, is eligible, and no offer before it is.
pub record IsFirstEligible (t : Topology) (cfg : NetworkConfig) (offers : List Offer) (o : Offer)
    : Type 0 where
  pub before : List Offer
  pub after : List Offer
  pub split : offers ≡ before ++ o ∷ after
  pub eligible : is_eligible o t cfg ≡ ok true
  pub none_before : AllIneligible t cfg before

first_eligible-some :
    (offers : List Offer) (t : Topology) (cfg : NetworkConfig) {o : Offer}
    → first_eligible offers t cfg ≡ ok (some o)
    → IsFirstEligible t cfg offers o
unfolding first_eligible
first_eligible-some [] t cfg h = cc
first_eligible-some (x ∷ offers) t cfg {o} h =
    let (verdict, e, k) = >>=-eq-ok (is_eligible x t cfg) _ h in
    elim (Bool-cases verdict) [
      | inl good ↦
          let same : x ≡ o = let done = rw good at k in cc in
          record {
            before = [];
            after = offers;
            split = ap (λ y. y ∷ offers) same;
            eligible = rw (← same) (rw good at e);
            none_before = tt;
          }
      | inr bad ↦
          let rest = first_eligible-some offers t cfg (rw bad at k) in
          record {
            before = x ∷ rest.before;
            after = rest.after;
            split = ap (λ l. x ∷ l) rest.split;
            eligible = rest.eligible;
            none_before = (rw bad at e, rest.none_before);
          }
    ]

first_eligible-none :
    (offers : List Offer) (t : Topology) (cfg : NetworkConfig)
    → first_eligible offers t cfg ≡ ok none
    → AllIneligible t cfg offers
unfolding first_eligible
first_eligible-none [] t cfg h = tt
first_eligible-none (x ∷ offers) t cfg h =
    let (verdict, e, k) = >>=-eq-ok (is_eligible x t cfg) _ h in
    elim (Bool-cases verdict) [
      | inl good ↦ let done = rw good at k in cc
      | inr bad ↦ (rw bad at e, first_eligible-none offers t cfg (rw bad at k))
    ]

-- If the choice returns, it is the first eligible offer of the catalogue, or none where no offer of
-- the catalogue is eligible.
pub best_offer-first :
    (tenant : Tenant) (t : Topology) {choice : Option Offer}
    → best_offer tenant t ≡ ok choice
    → ((choice ≡ none) × AllIneligible t (network_config tenant) (catalogue tenant))
      ⊎ ((o : Offer) × (choice ≡ some o)
          × IsFirstEligible t (network_config tenant) (catalogue tenant) o)
unfolding best_offer
best_offer-first tenant t {choice = none} h =
    inl (refl, first_eligible-none (catalogue tenant) t (network_config tenant) h)
best_offer-first tenant t {choice = some o} h =
    inr (o, refl, first_eligible-some (catalogue tenant) t (network_config tenant) h)
