-- ===== src/Base/Lists.antt =====
-- Lists measured by native numbers, and Python's comprehensions over a Boolean test.
use Prim.Native.Nat.{ℕ, zero, suc, ◌+◌, ◌≤◌, ◌<◌}
use mathlib.Core.Path.{◌≡◌, refl}
use mathlib.Core.Bool.{Bool, true, false, ◌&&◌, ◌||◌}
use mathlib.Core.Option.{Option, none, some}
use mathlib.Core.List.{List, [], ◌∷◌, ◌++◌, map, Memᴰ}
use mathlib.Core.Logic.{inl, inr}
use native.Mathlib.Omega.{arith}
use genesys_cx_demo_harness.Base.Tests.{if◌then◌else◌, Bool-cases}

module _ {ℓ} {A : Type ℓ} where
  abbrev pub length : List A → ℕ
  length [] = 0
  length (x ∷ xs) = suc (length xs)

  abbrev pub take : ℕ → List A → List A
  take zero xs = []
  take (suc n) [] = []
  take (suc n) (x ∷ xs) = x ∷ take n xs

  abbrev pub drop : ℕ → List A → List A
  drop zero xs = xs
  drop (suc n) [] = []
  drop (suc n) (x ∷ xs) = drop n xs

  abbrev pub replicate : ℕ → A → List A
  replicate zero a = []
  replicate (suc n) a = a ∷ replicate n a

  -- `[x for x in xs if p(x)]`
  abbrev pub filter : (A → Bool) → List A → List A
  filter p [] = []
  filter p (x ∷ xs) = let rest = filter p xs in if p x then x ∷ rest else rest

  -- `next((x for x in xs if p(x)), None)`
  abbrev pub find : (A → Bool) → List A → Option A
  find p [] = none
  find p (x ∷ xs) = let rest = find p xs in if p x then some x else rest

  -- `any(p(x) for x in xs)`
  abbrev pub any : (A → Bool) → List A → Bool
  any p [] = false
  any p (x ∷ xs) = p x || any p xs

  abbrev pub all : (A → Bool) → List A → Bool
  all p [] = true
  all p (x ∷ xs) = p x && all p xs

  abbrev pub is_empty : List A → Bool
  is_empty [] = true
  is_empty (x ∷ xs) = false

  -- `xs[0] if xs else None`
  abbrev pub first : List A → Option A
  first [] = none
  first (x ∷ xs) = some x

  -- How many elements pass the test.
  abbrev pub count : (A → Bool) → List A → ℕ
  count p [] = 0
  count p (x ∷ xs) = let rest = count p xs in if p x then suc rest else rest

  abbrev pub All {κ} : (A → Type κ) → List A → Type κ
  All P [] = Unit
  All P (x ∷ xs) = P x × All P xs

  pub length-append : (xs ys : List A) → length (xs ++ ys) ≡ length xs + length ys
  length-append [] ys = omega arith
  length-append (x ∷ xs) ys = omega (arith, length-append xs ys)

  pub length-filter : (p : A → Bool) (xs : List A) → length (filter p xs) ≡ count p xs
  length-filter p [] = refl
  length-filter p (x ∷ xs) = ground (arith, length-filter p xs)

  pub All-mem {κ} : (P : A → Type κ) {a : A} (xs : List A) → All P xs → Memᴰ a xs → P a
  All-mem P [] h m = elim m [ ]
  All-mem P (x ∷ xs) h (Memᴰ.head e) = rw e h.0
  All-mem P (x ∷ xs) h (Memᴰ.tail m) = All-mem P xs h.1 m

  -- What a filter leaves passes its test.
  pub filter-head :
      (p : A → Bool) (xs : List A) {y : A} {ys : List A} → filter p xs ≡ y ∷ ys → p y ≡ true
  filter-head p [] e = cc
  filter-head p (x ∷ xs) {y} {ys} e = elim (Bool-cases (p x)) [
    | inl passed ↦ rw (← head (rw passed at e)) passed
    | inr failed ↦ filter-head p xs (rw failed at e)
  ]
    where
      head : x ∷ filter p xs ≡ y ∷ ys → x ≡ y
      head h = cc

  pub mem_of_mem-filter : (p : A → Bool) (xs : List A) {a : A} → Memᴰ a (filter p xs) → Memᴰ a xs
  mem_of_mem-filter p [] m = m
  mem_of_mem-filter p (x ∷ xs) {a} m = elim (Bool-cases (p x)) [
    | inl passed ↦ kept (λ n. mem_of_mem-filter p xs n) (rw passed at m)
    | inr failed ↦ Memᴰ.tail (mem_of_mem-filter p xs (rw failed at m))
  ]
    where
      kept : (Memᴰ a (filter p xs) → Memᴰ a xs) → Memᴰ a (x ∷ filter p xs) → Memᴰ a (x ∷ xs)
      kept ih (Memᴰ.head e) = Memᴰ.head e
      kept ih (Memᴰ.tail n) = Memᴰ.tail (ih n)

  pub mem-filter_passes : (p : A → Bool) (xs : List A) {a : A} → Memᴰ a (filter p xs) → p a ≡ true
  mem-filter_passes p [] m = elim m [ ]
  mem-filter_passes p (x ∷ xs) {a} m = elim (Bool-cases (p x)) [
    | inl passed ↦ kept passed (λ n. mem-filter_passes p xs n) (rw passed at m)
    | inr failed ↦ mem-filter_passes p xs (rw failed at m)
  ]
    where
      kept :
          p x ≡ true → (Memᴰ a (filter p xs) → p a ≡ true) → Memᴰ a (x ∷ filter p xs) → p a ≡ true
      kept passed ih (Memᴰ.head e) = rw e passed
      kept passed ih (Memᴰ.tail n) = ih n

  -- `next` finds an element that passes.
  pub find-mem : (p : A → Bool) (xs : List A) {a : A} → find p xs ≡ some a → Memᴰ a xs
  find-mem p [] e = cc
  find-mem p (x ∷ xs) {a} e = elim (Bool-cases (p x)) [
    | inl passed ↦ Memᴰ.head (found (rw passed at e))
    | inr failed ↦ Memᴰ.tail (find-mem p xs (rw failed at e))
  ]
    where
      found : some x ≡ some a → a ≡ x
      found h = cc

  pub find_passes : (p : A → Bool) (xs : List A) {a : A} → find p xs ≡ some a → p a ≡ true
  find_passes p [] e = cc
  find_passes p (x ∷ xs) {a} e = elim (Bool-cases (p x)) [
    | inl passed ↦ rw (← found (rw passed at e)) passed
    | inr failed ↦ find_passes p xs (rw failed at e)
  ]
    where
      found : some x ≡ some a → x ≡ a
      found h = cc

  -- `next` finds something wherever an element passes.
  pub find_of_mem :
      (p : A → Bool) (xs : List A) {a : A} → Memᴰ a xs → p a ≡ true → (b : A) × (find p xs ≡ some b)
  find_of_mem p [] m h = elim m [ ]
  find_of_mem p (x ∷ xs) (Memᴰ.head e) h = (x, rw (rw e at h))
  find_of_mem p (x ∷ xs) (Memᴰ.tail m) h = elim (Bool-cases (p x)) [
    | inl passed ↦ (x, rw passed)
    | inr failed ↦ rw failed (find_of_mem p xs m h)
  ]

  pub count-pos_of_mem :
      (p : A → Bool) (xs : List A) {a : A} → Memᴰ a xs → p a ≡ true → 0 < count p xs
  count-pos_of_mem p [] m h = elim m [ ]
  count-pos_of_mem p (x ∷ xs) (Memᴰ.head e) h = rw (rw e at h) (omega arith)
  count-pos_of_mem p (x ∷ xs) (Memᴰ.tail m) h = ground (arith, count-pos_of_mem p xs m h)

  -- A change under which nothing new passes does not raise the count; it lowers it where an
  -- element that passed no longer does.
  pub count-map-le :
      (p q : A → Bool) (f : A → A) (xs : List A)
      → ((x : A) → q (f x) ≡ true → p x ≡ true)
      → count q (map f xs) ≤ count p xs
  count-map-le p q f [] keep = omega arith
  count-map-le p q f (x ∷ xs) keep = ground (arith, keep x, count-map-le p q f xs keep)

  pub count-map-lt :
      (p q : A → Bool) (f : A → A) (xs : List A) {a : A}
      → ((x : A) → q (f x) ≡ true → p x ≡ true)
      → Memᴰ a xs
      → p a ≡ true
      → q (f a) ≡ false
      → count q (map f xs) < count p xs
  count-map-lt p q f [] keep m h g = elim m [ ]
  count-map-lt p q f (x ∷ xs) keep (Memᴰ.head e) h g =
      rw (rw e at h, rw e at g) (omega (arith, count-map-le p q f xs keep))
  count-map-lt p q f (x ∷ xs) keep (Memᴰ.tail m) h g =
      ground (arith, keep x, count-map-lt p q f xs keep m h g)

-- What holds of every member holds throughout, and a consequence of it too.
pub All-of_mem {ℓ κ} :
    {A : Type ℓ} (P : A → Type κ) (xs : List A) → ((x : A) → Memᴰ x xs → P x) → All P xs
All-of_mem P [] h = tt
All-of_mem P (x ∷ xs) h = (h x (Memᴰ.head refl), All-of_mem P xs (λ y m. h y (Memᴰ.tail m)))

pub All-step {ℓ κ ι} :
    {A : Type ℓ} {P : A → Type κ} {Q : A → Type ι} (f : (x : A) → P x → Q x) (xs : List A)
    → All P xs
    → All Q xs
All-step f [] h = tt
All-step f (x ∷ xs) h = (f x h.0, All-step f xs h.1)

pub mem-filter {ℓ} :
    {A : Type ℓ} (p : A → Bool) (xs : List A) {x : A}
    → Memᴰ x xs
    → p x ≡ true
    → Memᴰ x (filter p xs)
mem-filter p [] m h = elim m [ ]
mem-filter p (y ∷ xs) (Memᴰ.head e) h = rw (rw e at h) (Memᴰ.head e)
mem-filter p (y ∷ xs) (Memᴰ.tail m) h = elim (Bool-cases (p y)) [
  | inl kept ↦ rw kept (Memᴰ.tail (mem-filter p xs m h))
  | inr dropped ↦ rw dropped (mem-filter p xs m h)
]
