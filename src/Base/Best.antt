-- ===== src/Base/Best.antt =====
-- Python's `min` and `max` with a key: the first of the elements that tie.
use mathlib.Core.Path.{◌≡◌, refl}
use mathlib.Core.Logic.{◌⊎◌, inl, inr}
use mathlib.Core.Bool.{Bool}
use mathlib.Core.Option.{Option, none, some}
use mathlib.Core.List.{List, [], ◌∷◌, Memᴰ}
use native.Mathlib.Omega.{arith}
use genesys_cx_demo_harness.Base.Tests.{if◌then◌else◌, Bool-cases}
use genesys_cx_demo_harness.Base.Lists.{All}
use genesys_cx_demo_harness.Base.Int.{ℤ, ltb_ℤ, ltb_ℤ→lt, ltb_ℤ→ge, ◌≤ℤ◌, ≤ℤ_refl}

module _ {ℓ} {A : Type ℓ} where
  -- The loop of `min` and `max`: `better x y` says that `x` takes the place of `y`.
  unfoldable pub best_from : (A → A → Bool) → A → List A → A
  best_from better a [] = a
  best_from better a (x ∷ xs) = best_from better (if better x a then x else a) xs

  -- `None` stands for the ValueError on an empty sequence, which every caller rules out.
  unfoldable pub best : (A → A → Bool) → List A → Option A
  best better [] = none
  best better (x ∷ xs) = some (best_from better x xs)

  abbrev pub lower : (A → ℤ) → A → A → Bool
  lower key x y = ltb_ℤ (key x) (key y)

  abbrev pub higher : (A → ℤ) → A → A → Bool
  higher key x y = ltb_ℤ (key y) (key x)

  -- `min(xs, key=key)`
  unfoldable pub min_by : (A → ℤ) → List A → Option A
  unfolding best best_from
  min_by key xs = best (lower key) xs

  -- `max(xs, key=key)`
  unfoldable pub max_by : (A → ℤ) → List A → Option A
  unfolding best best_from
  max_by key xs = best (higher key) xs

  pub best_from-mem :
      (better : A → A → Bool) (a : A) (xs : List A)
      → (best_from better a xs ≡ a) ⊎ Memᴰ (best_from better a xs) xs
  unfolding best_from
  best_from-mem better a [] = inl refl
  best_from-mem better a (x ∷ xs) = elim (Bool-cases (better x a)) [
    | inl e ↦
        rw e (elim (best_from-mem better x xs) [
          | inl p ↦ inr (Memᴰ.head p)
          | inr m ↦ inr (Memᴰ.tail m)
        ])
    | inr e ↦ rw e (elim (best_from-mem better a xs) [ inl p ↦ inl p | inr m ↦ inr (Memᴰ.tail m) ])
  ]

  pub best-mem : (better : A → A → Bool) (xs : List A) {b : A} → best better xs ≡ some b → Memᴰ b xs
  unfolding best
  best-mem better [] e = cc
  best-mem better (x ∷ xs) {b} e = elim (best_from-mem better x xs) [
    | inl p ↦ Memᴰ.head (cc)
    | inr m ↦ Memᴰ.tail (rw (some_inj e) at m)
  ]
    where
      some_inj : some (best_from better x xs) ≡ some b → best_from better x xs ≡ b
      some_inj e = cc

  pub best-eq-none : (better : A → A → Bool) (xs : List A) → best better xs ≡ none → xs ≡ []
  unfolding best
  best-eq-none better [] e = refl
  best-eq-none better (x ∷ xs) e = cc

  min_from-le :
      (key : A → ℤ) (a : A) (xs : List A) (m : A)
      → best_from (lower key) a xs ≡ m
      → (key m ≤ℤ key a) × All (λ x. key m ≤ℤ key x) xs
  unfolding best_from
  min_from-le key a [] m e = (rw e (≤ℤ_refl (key m)), tt)
  min_from-le key a (x ∷ xs) m e = elim (Bool-cases (ltb_ℤ (key x) (key a))) [
    | inl lt ↦
        let (h, t) = min_from-le key x xs m (rw lt at e) in
        (omega (arith, ltb_ℤ→lt (key x) (key a) lt), (h, t))
    | inr ge ↦
        let (h, t) = min_from-le key a xs m (rw ge at e) in
        (h, (omega (arith, ltb_ℤ→ge (key x) (key a) ge), t))
  ]

  -- The minimum is at most every element.
  pub min_by-le :
      (key : A → ℤ) (xs : List A) {b : A} → min_by key xs ≡ some b → All (λ x. key b ≤ℤ key x) xs
  unfolding min_by
  min_by-le key [] e = tt
  min_by-le key (y ∷ xs) {b} e = min_from-le key y xs b (cc)

  pub min_by-mem : (key : A → ℤ) (xs : List A) {b : A} → min_by key xs ≡ some b → Memᴰ b xs
  unfolding min_by
  min_by-mem key xs e = best-mem (lower key) xs e
