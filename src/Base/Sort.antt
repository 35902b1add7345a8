-- ===== src/Base/Sort.antt =====
-- A stable sort, for Python's `sorted` and SQL's ORDER BY, with what it keeps.
use mathlib.Core.Path.{◌≡◌, refl, ap, ◌∙◌}
use mathlib.Core.Logic.{◌⊎◌, inl, inr}
use mathlib.Core.Bool.{Bool}
use mathlib.Core.List.{List, [], ◌∷◌, map, Memᴰ}
use genesys_cx_demo_harness.Base.Tests.{if◌then◌else◌, Bool-cases}
use genesys_cx_demo_harness.Base.Lists.{filter}

module _ {ℓ} {A : Type ℓ} where
  unfoldable pub insert_by : (A → A → Bool) → A → List A → List A
  insert_by le x [] = x ∷ []
  insert_by le x (y ∷ ys) = let rest = insert_by le x ys in if le x y then x ∷ y ∷ ys else y ∷ rest

  unfoldable pub sort_by : (A → A → Bool) → List A → List A
  unfolding insert_by
  sort_by le [] = []
  sort_by le (x ∷ xs) = insert_by le x (sort_by le xs)

  insert_by-mem :
      (le : A → A → Bool) (x : A) (ys : List A) {a : A}
      → Memᴰ a (insert_by le x ys)
      → (a ≡ x) ⊎ Memᴰ a ys
  unfolding insert_by
  insert_by-mem le x [] (Memᴰ.head e) = inl e
  insert_by-mem le x [] (Memᴰ.tail m) = elim m [ ]
  insert_by-mem le x (y ∷ ys) {a} m = elim (Bool-cases (le x y)) [
    | inl e ↦ front (rw e at m)
    | inr e ↦ back (λ n. insert_by-mem le x ys n) (rw e at m)
  ]
    where
      front : Memᴰ a (x ∷ y ∷ ys) → (a ≡ x) ⊎ Memᴰ a (y ∷ ys)
      front (Memᴰ.head e) = inl e
      front (Memᴰ.tail n) = inr n

      back :
          (Memᴰ a (insert_by le x ys) → (a ≡ x) ⊎ Memᴰ a ys)
          → Memᴰ a (y ∷ insert_by le x ys)
          → (a ≡ x) ⊎ Memᴰ a (y ∷ ys)
      back ih (Memᴰ.head e) = inr (Memᴰ.head e)
      back ih (Memᴰ.tail n) = elim (ih n) [ inl e ↦ inl e | inr k ↦ inr (Memᴰ.tail k) ]

  -- Sorting adds no element.
  pub mem_of_mem-sort_by :
      (le : A → A → Bool) (xs : List A) {a : A} → Memᴰ a (sort_by le xs) → Memᴰ a xs
  unfolding sort_by
  mem_of_mem-sort_by le [] m = m
  mem_of_mem-sort_by le (x ∷ xs) m = elim (insert_by-mem le x (sort_by le xs) m) [
    | inl e ↦ Memᴰ.head e
    | inr n ↦ Memᴰ.tail (mem_of_mem-sort_by le xs n)
  ]

  mem-insert_by_self : (le : A → A → Bool) (x : A) (ys : List A) → Memᴰ x (insert_by le x ys)
  unfolding insert_by
  mem-insert_by_self le x [] = Memᴰ.head refl
  mem-insert_by_self le x (y ∷ ys) = elim (Bool-cases (le x y)) [
    | inl e ↦ rw e (Memᴰ.head refl)
    | inr e ↦ rw e (Memᴰ.tail (mem-insert_by_self le x ys))
  ]

  mem-insert_by_of_mem :
      (le : A → A → Bool) (x : A) (ys : List A) {a : A} → Memᴰ a ys → Memᴰ a (insert_by le x ys)
  unfolding insert_by
  mem-insert_by_of_mem le x [] m = elim m [ ]
  mem-insert_by_of_mem le x (y ∷ ys) (Memᴰ.head p) = elim (Bool-cases (le x y)) [
    | inl e ↦ rw e (Memᴰ.tail (Memᴰ.head p))
    | inr e ↦ rw e (Memᴰ.head p)
  ]
  mem-insert_by_of_mem le x (y ∷ ys) (Memᴰ.tail m) = elim (Bool-cases (le x y)) [
    | inl e ↦ rw e (Memᴰ.tail (Memᴰ.tail m))
    | inr e ↦ rw e (Memᴰ.tail (mem-insert_by_of_mem le x ys m))
  ]

  -- Sorting loses no element.
  pub mem-sort_by : (le : A → A → Bool) (xs : List A) {a : A} → Memᴰ a xs → Memᴰ a (sort_by le xs)
  unfolding sort_by
  mem-sort_by le [] m = m
  mem-sort_by le (x ∷ xs) (Memᴰ.head e) = rw e (mem-insert_by_self le x (sort_by le xs))
  mem-sort_by le (x ∷ xs) (Memᴰ.tail m) =
      mem-insert_by_of_mem le x (sort_by le xs) (mem-sort_by le xs m)

  -- A change that the order does not see commutes with sorting.
  module _ (le : A → A → Bool) (f : A → A) (same : (x y : A) → le (f x) (f y) ≡ le x y) where
    map-insert_by :
        (x : A) (ys : List A) → map f (insert_by le x ys) ≡ insert_by le (f x) (map f ys)
    unfolding insert_by
    map-insert_by x [] = refl
    map-insert_by x (y ∷ ys) = rw (same x y) (elim (Bool-cases (le x y)) [
      | inl e ↦ rw e
      | inr e ↦ rw e (ap (λ t. f y ∷ t) (map-insert_by x ys))
    ])

    pub map-sort_by : (xs : List A) → map f (sort_by le xs) ≡ sort_by le (map f xs)
    unfolding sort_by
    map-sort_by [] = refl
    map-sort_by (x ∷ xs) =
        map-insert_by x (sort_by le xs) ∙ ap (λ t. insert_by le (f x) t) (map-sort_by xs)

  pub map-filter :
      (p : A → Bool) (f : A → A)
      → ((x : A) → p (f x) ≡ p x)
      → (xs : List A) → map f (filter p xs) ≡ filter p (map f xs)
  map-filter p f same [] = refl
  map-filter p f same (x ∷ xs) = rw (same x) (elim (Bool-cases (p x)) [
    | inl e ↦ rw e (ap (λ t. f x ∷ t) (map-filter p f same xs))
    | inr e ↦ rw e (map-filter p f same xs)
  ])
