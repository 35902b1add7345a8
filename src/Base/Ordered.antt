-- ===== src/Base/Ordered.antt =====
-- What sorting establishes: no element stands before one that belongs before it.
use Prim.Native.Nat.{ℕ, zero, suc}
use mathlib.Core.Path.{◌≡◌}
use mathlib.Core.Logic.{inl, inr}
use mathlib.Core.Bool.{Bool, true, false}
use mathlib.Core.List.{List, [], ◌∷◌}
use genesys_cx_demo_harness.Base.Tests.{Bool-cases}
use genesys_cx_demo_harness.Base.Lists.{All, take}
use genesys_cx_demo_harness.Base.Sort.{insert_by, sort_by}

module _ {ℓ} {A : Type ℓ} where
  -- Every element may stand before every later one.
  abbrev pub IsSorted : (A → A → Bool) → List A → Type 0
  IsSorted le [] = Unit
  IsSorted le (x ∷ xs) = All (λ y. le x y ≡ true) xs × IsSorted le xs

  All-insert_by {κ} :
      (P : A → Type κ) (le : A → A → Bool) (x : A) (ys : List A)
      → P x
      → All P ys
      → All P (insert_by le x ys)
  unfolding insert_by
  All-insert_by P le x [] p h = (p, tt)
  All-insert_by P le x (y ∷ ys) p h = elim (Bool-cases (le x y)) [
    | inl e ↦ rw e (p, h)
    | inr e ↦ rw e (h.0, All-insert_by P le x ys p h.1)
  ]

  All-later {κ} : (P Q : A → Type κ) (xs : List A) → ((x : A) → P x → Q x) → All P xs → All Q xs
  All-later P Q [] f h = tt
  All-later P Q (x ∷ xs) f h = (f x h.0, All-later P Q xs f h.1)

  pub IsSorted-take :
      (le : A → A → Bool) (n : ℕ) (xs : List A) → IsSorted le xs → IsSorted le (take n xs)
  IsSorted-take le zero xs h = tt
  IsSorted-take le (suc n) [] h = tt
  IsSorted-take le (suc n) (x ∷ xs) h = (All-take n xs h.0, IsSorted-take le n xs h.1)
    where
      All-take :
          (n : ℕ) (ys : List A) → All (λ y. le x y ≡ true) ys → All (λ y. le x y ≡ true) (take n ys)
      All-take zero ys h = tt
      All-take (suc n) [] h = tt
      All-take (suc n) (y ∷ ys) h = (h.0, All-take n ys h.1)

  -- A test that is total and transitive.
  module _ (le : A → A → Bool) (total : (x y : A) → le x y ≡ false → le y x ≡ true)
      (trans : (x y z : A) → le x y ≡ true → le y z ≡ true → le x z ≡ true) where
    insert_by-IsSorted : (x : A) (ys : List A) → IsSorted le ys → IsSorted le (insert_by le x ys)
    unfolding insert_by
    insert_by-IsSorted x [] h = (tt, tt)
    insert_by-IsSorted x (y ∷ ys) h = elim (Bool-cases (le x y)) [
      | inl e ↦
          rw e (
            (e, All-later (λ z. le y z ≡ true) (λ z. le x z ≡ true) ys (λ z. trans x y z e) h.0),
            h,
          )
      | inr e ↦ rw e (
        All-insert_by (λ z. le y z ≡ true) le x ys (total x y e) h.0,
        insert_by-IsSorted x ys h.1,
      )
    ]

    pub sort_by-IsSorted : (xs : List A) → IsSorted le (sort_by le xs)
    unfolding sort_by
    sort_by-IsSorted [] = tt
    sort_by-IsSorted (x ∷ xs) = insert_by-IsSorted x (sort_by le xs) (sort_by-IsSorted xs)
