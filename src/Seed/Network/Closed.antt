-- ===== src/Seed/Network/Closed.antt =====
-- Whose rows the seeded networks are, and what they refer to.
use genesys_cx_demo_harness.Base.{ℕ, ◌≡◌, true, List, [], ◌∷◌, ◌++◌, map, All, arith}
use genesys_cx_demo_harness.Store.{
  Gateway, AccessPoint, Radio, ConnectedDevice, Result, ok, >>=-eq-ok,
}
use genesys_cx_demo_harness.Seed.Rows.{NetworkRows, add_rows, no_rows, each}
use genesys_cx_demo_harness.Seed.Upsert.{has_id}
use genesys_cx_demo_harness.Seed.Upsert.Settled.{All-weaken}

-- The access points of the rows have that key.
unfoldable pub HasAp : List AccessPoint → ℕ → Type 0
HasAp aps id = has_id id (map (λ (a : AccessPoint). a.ap_id) aps) ≡ true

-- Every row is the tenant's, and every radio and device refers to an access point among them.
pub record IsClosed (tenant : ℕ) (rows : NetworkRows) : Type 0 where
  pub own_gateways : All (λ (g : Gateway). g.tenant_id ≡ tenant) rows.gateways
  pub own_access_points : All (λ (a : AccessPoint). a.tenant_id ≡ tenant) rows.access_points
  pub own_radios :
      All (λ (r : Radio). (r.tenant_id ≡ tenant) × HasAp rows.access_points r.ap_id) rows.radios
  pub own_devices :
      All
        (λ (d : ConnectedDevice).
          (d.tenant_id ≡ tenant) × HasAp rows.access_points d.connected_ap_id)
        rows.devices

All-append {ℓ κ} :
    {A : Type ℓ} (P : A → Type κ) (xs ys : List A) → All P xs → All P ys → All P (xs ++ ys)
All-append P [] ys h k = k
All-append P (x ∷ xs) ys h k = (h.0, All-append P xs ys h.1 k)

pub All-map_each {ℓ κ ι} :
    {A : Type ℓ} {B : Type κ} (P : B → Type ι) (f : A → B) (xs : List A)
    → ((x : A) → P (f x))
    → All P (map f xs)
All-map_each P f [] h = tt
All-map_each P f (x ∷ xs) h = (h x, All-map_each P f xs h)

-- What every call made holds of what the calls returned.
pub each-All {ℓ κ ι} :
    {A : Type ℓ} {B : Type κ} (P : B → Type ι) (f : A → Result B) (xs : List A) {ys : List B}
    → ((x : A) (y : B) → f x ≡ ok y → P y)
    → each f xs ≡ ok ys
    → All P ys
unfolding each
each-All P f [] {ys} step h = let same : ys ≡ [] = cc in rw same tt
each-All P f (x ∷ xs) {ys} step h =
    let (y, e, rest) = >>=-eq-ok (f x) _ h in
    let (zs, more, done) = >>=-eq-ok (each f xs) _ rest in
    let same : ys ≡ y ∷ zs = cc in rw same (step x y e, each-All P f xs step more)

HasAp-append_left : (xs ys : List AccessPoint) (id : ℕ) → HasAp xs id → HasAp (xs ++ ys) id
unfolding HasAp has_id
HasAp-append_left [] ys id h = cc
HasAp-append_left (x ∷ xs) ys id h = ground (arith, HasAp-append_left xs ys id, h)

HasAp-append_right : (xs ys : List AccessPoint) (id : ℕ) → HasAp ys id → HasAp (xs ++ ys) id
unfolding HasAp has_id
HasAp-append_right [] ys id h = h
HasAp-append_right (x ∷ xs) ys id h = ground (arith, HasAp-append_right xs ys id, h)

pub no_rows-IsClosed : (tenant : ℕ) → IsClosed tenant no_rows
no_rows-IsClosed tenant = record {
  own_gateways = tt;
  own_access_points = tt;
  own_radios = tt;
  own_devices = tt;
}

pub add_rows-IsClosed :
    (tenant : ℕ) (a b : NetworkRows)
    → IsClosed tenant a
    → IsClosed tenant b
    → IsClosed tenant (add_rows a b)
add_rows-IsClosed tenant a b h k = record {
  own_gateways = All-append _ a.gateways b.gateways h.own_gateways k.own_gateways;
  own_access_points =
      All-append _ a.access_points b.access_points h.own_access_points k.own_access_points;
  own_radios =
      All-append _ a.radios b.radios
        (All-weaken _ _ a.radios
          (λ r p. (p.0, HasAp-append_left a.access_points b.access_points r.ap_id p.1))
          h.own_radios)
        (All-weaken _ _ b.radios
          (λ r p. (p.0, HasAp-append_right a.access_points b.access_points r.ap_id p.1))
          k.own_radios);
  own_devices =
      All-append _ a.devices b.devices
        (All-weaken _ _ a.devices
          (λ d p. (p.0, HasAp-append_left a.access_points b.access_points d.connected_ap_id p.1))
          h.own_devices)
        (All-weaken _ _ b.devices
          (λ d p. (p.0, HasAp-append_right a.access_points b.access_points d.connected_ap_id p.1))
          k.own_devices);
}
