-- ===== src/Network/Devices/Weakest.antt =====
-- The order of the device views.
use genesys_cx_demo_harness.Base.{
  ◌≡◌, refl, true, false, leb_ℤ→le, leb_ℤ→gt, le→leb_ℤ, List, [], ◌∷◌, map, Memᴰ, mem-sort_by,
  IsSorted, sort_by-IsSorted, arith, length, insert_by, sort_by, suc, ap, ◌∙◌, All, All-step,
  All-of_mem, mem_of_mem-sort_by, subst, sym, leb_ℤ, Bool,
}
use genesys_cx_demo_harness.Platform.{Platform}
use genesys_cx_demo_harness.Store.{ConnectedDevice}
use genesys_cx_demo_harness.Network.Config.{NetworkConfig}
use genesys_cx_demo_harness.Network.Home.{Topology}
use genesys_cx_demo_harness.Network.Devices.{DeviceView, weaker_first, view_of, describe_devices}

weaker_first_total : (a b : DeviceView) → weaker_first a b ≡ false → weaker_first b a ≡ true
weaker_first_total a b h = let gt = leb_ℤ→gt a.rssi b.rssi h in le→leb_ℤ b.rssi a.rssi (omega arith)

weaker_first_trans :
    (a b c : DeviceView)
    → weaker_first a b ≡ true
    → weaker_first b c ≡ true
    → weaker_first a c ≡ true
weaker_first_trans a b c h k =
    let ab = leb_ℤ→le a.rssi b.rssi h in
    let bc = leb_ℤ→le b.rssi c.rssi k in le→leb_ℤ a.rssi c.rssi (omega arith)

mem-map {ℓ κ} :
    {A : Type ℓ} {B : Type κ} (f : A → B) (xs : List A) {x : A} → Memᴰ x xs → Memᴰ (f x) (map f xs)
mem-map f [] m = elim m [ ]
mem-map f (y ∷ xs) (Memᴰ.head e) = Memᴰ.head (rw e refl)
mem-map f (y ∷ xs) (Memᴰ.tail m) = Memᴰ.tail (mem-map f xs m)

mem_of_mem-map {ℓ κ} :
    {A : Type ℓ} {B : Type κ} (f : A → B) (xs : List A) {y : B}
    → Memᴰ y (map f xs)
    → (x : A) × Memᴰ x xs × (y ≡ f x)
mem_of_mem-map f [] m = elim m [ ]
mem_of_mem-map f (x ∷ xs) (Memᴰ.head e) = (x, Memᴰ.head refl, e)
mem_of_mem-map f (x ∷ xs) (Memᴰ.tail m) =
    let (z, there, e) = mem_of_mem-map f xs m in (z, Memᴰ.tail there, e)

length-insert_by {ℓ} :
    {A : Type ℓ} (le : A → A → Bool) (x : A) (ys : List A)
    → length (insert_by le x ys) ≡ suc (length ys)
unfolding insert_by
length-insert_by le x [] = refl
length-insert_by le x (y ∷ ys) = ground (arith, length-insert_by le x ys)

length-sort_by {ℓ} :
    {A : Type ℓ} (le : A → A → Bool) (xs : List A) → length (sort_by le xs) ≡ length xs
unfolding sort_by
length-sort_by le [] = refl
length-sort_by le (x ∷ xs) = length-insert_by le x (sort_by le xs) ∙ ap suc (length-sort_by le xs)

length-map {ℓ κ} :
    {A : Type ℓ} {B : Type κ} (f : A → B) (xs : List A) → length (map f xs) ≡ length xs
length-map f [] = refl
length-map f (x ∷ xs) = ap suc (length-map f xs)

-- No view has a weaker signal than one before it.
abbrev pub IsWeakestFirst : List DeviceView → Type 0
IsWeakestFirst [] = Unit
IsWeakestFirst (v ∷ vs) = All (λ w. leb_ℤ v.rssi w.rssi ≡ true) vs × IsWeakestFirst vs

IsSorted-IsWeakestFirst : (vs : List DeviceView) → IsSorted weaker_first vs → IsWeakestFirst vs
IsSorted-IsWeakestFirst [] h = tt
IsSorted-IsWeakestFirst (v ∷ vs) h = (All-step (λ w e. e) vs h.0, IsSorted-IsWeakestFirst vs h.1)

module _ ⦃platform : Platform⦄ where
  -- A view says of a device what the store does.
  abbrev pub Shows : DeviceView → ConnectedDevice → Type 0
  Shows v d =
      (v.device_id ≡ platform.show_uuid d.device_id)
      × (v.label ≡ d.label)
      × (v.band ≡ d.band)
      × (v.rssi ≡ d.rssi)
      × (v.steer_eligible ≡ d.steer_eligible)

  -- The views stand weakest signal first; there are as many as the home has devices, each shows a
  -- device of the home, and each device is shown.
  pub describe_devices-IsSorted :
      (t : Topology) (cfg : NetworkConfig)
      → IsWeakestFirst (describe_devices t cfg)
        × (length (describe_devices t cfg) ≡ length t.devices)
        × All (λ v. (d : ConnectedDevice) × Memᴰ d t.devices × Shows v d) (describe_devices t cfg)
        × All (λ d. (v : DeviceView) × Memᴰ v (describe_devices t cfg) × Shows v d) t.devices
  unfolding describe_devices view_of
  describe_devices-IsSorted t cfg = (
    IsSorted-IsWeakestFirst _ (
        sort_by-IsSorted weaker_first weaker_first_total weaker_first_trans
          (map (view_of t cfg) t.devices)),
    length-sort_by weaker_first _ ∙ length-map (view_of t cfg) t.devices,
    All-of_mem _ _ (λ v m.
        let (d, there, e) =
          mem_of_mem-map (view_of t cfg) t.devices (mem_of_mem-sort_by weaker_first _ m) in
        (d, there, subst (λ w. Shows w d) (sym e) (refl, refl, refl, refl, refl))),
    All-of_mem _ _ (λ d m. (
      view_of t cfg d,
      mem-sort_by weaker_first _ (mem-map (view_of t cfg) t.devices m),
      (refl, refl, refl, refl, refl),
    )),
  )
