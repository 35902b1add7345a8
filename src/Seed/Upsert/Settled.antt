-- ===== src/Seed/Upsert/Settled.antt =====
-- What a table holds after a seeding: writing the same rows again changes nothing.
use genesys_cx_demo_harness.Base.{
  ℕ, Bool, true, false, ◌||◌, List, [], ◌∷◌, ◌++◌, map, filter, any, All, ◌==◌, ◌≡◌, refl, arith,
  Bool-cases, inl, inr, Memᴰ, sym, ◌∙◌, ap, subst, ==_iff, ==_refl, All-of_mem,
}
use mathlib.Core.List.{append_assoc, append-nil}
use genesys_cx_demo_harness.Seed.Upsert.{has_id, overwrite, put, put_all, prune, upsert}

pub All-map {ℓ κ ι} :
    {A : Type ℓ} {B : Type κ} (P : A → Type ι) (Q : B → Type ι) (f : A → B) (xs : List A)
    → ((x : A) → P x → Q (f x))
    → All P xs
    → All Q (map f xs)
All-map P Q f [] step h = tt
All-map P Q f (x ∷ xs) step h = (step x h.0, All-map P Q f xs step h.1)

pub All-weaken {ℓ κ} :
    {A : Type ℓ} (P Q : A → Type κ) (xs : List A) → ((x : A) → P x → Q x) → All P xs → All Q xs
All-weaken P Q [] step h = tt
All-weaken P Q (x ∷ xs) step h = (step x h.0, All-weaken P Q xs step h.1)

pub All-snoc {ℓ κ} :
    {A : Type ℓ} (P : A → Type κ) (xs : List A) (a : A) → All P xs → P a → All P (xs ++ (a ∷ []))
All-snoc P [] a h p = (p, tt)
All-snoc P (x ∷ xs) a h p = (h.0, All-snoc P xs a h.1 p)

map_fixed {ℓ} : {A : Type ℓ} (f : A → A) (xs : List A) → All (λ x. f x ≡ x) xs → map f xs ≡ xs
map_fixed f [] h = refl
map_fixed f (x ∷ xs) h = rw (h.0, map_fixed f xs h.1)

All-filter {ℓ κ} :
    {A : Type ℓ} (P : A → Type κ) (p : A → Bool) (xs : List A) → All P xs → All P (filter p xs)
All-filter P p [] h = tt
All-filter P p (x ∷ xs) h = elim (Bool-cases (p x)) [
  | inl e ↦ rw e (h.0, All-filter P p xs h.1)
  | inr e ↦ rw e (All-filter P p xs h.1)
]

-- A filter that is no finer than an earlier one changes nothing.
pub filter-filter {ℓ} :
    {A : Type ℓ} (p q : A → Bool) (xs : List A)
    → ((x : A) → p x ≡ true → q x ≡ true)
    → filter q (filter p xs) ≡ filter p xs
filter-filter p q [] h = refl
filter-filter p q (x ∷ xs) h = ground (arith, h x, filter-filter p q xs h)

module _ {ℓ} {Row : Type ℓ} (key : Row → ℕ) where
  unfoldable pub has : ℕ → List Row → Bool
  has k rows = any (λ y. key y == k) rows

  -- What writing the rows makes of one that is there.
  unfoldable pub final : List Row → Row → Row
  final [] y = y
  final (r ∷ rs) y = final rs (overwrite key r y)

  final-append : (rs ss : List Row) (y : Row) → final (rs ++ ss) y ≡ final ss (final rs y)
  unfolding final
  final-append [] ss y = refl
  final-append (r ∷ rs) ss y = final-append rs ss (overwrite key r y)

  pub overwrite_key : (r y : Row) → key (overwrite key r y) ≡ key y
  unfolding overwrite
  overwrite_key r y = ground arith

  final_key : (rs : List Row) (y : Row) → key (final rs y) ≡ key y
  unfolding final
  final_key [] y = refl
  final_key (r ∷ rs) y = final_key rs (overwrite key r y) ∙ overwrite_key r y

  -- Every row is as the rows written would leave it.
  unfoldable pub IsSettled : List Row → List Row → Type ℓ
  IsSettled rs rows = All (λ y. final rs y ≡ y) rows

  final-snoc :
      (done : List Row) (r y : Row) → final (done ++ (r ∷ [])) y ≡ overwrite key r (final done y)
  unfolding final
  final-snoc done r y = final-append done (r ∷ []) y

  overwrite-settled :
      (done : List Row) (r y : Row)
      → final done y ≡ y
      → final (done ++ (r ∷ [])) (overwrite key r y) ≡ overwrite key r y
  unfolding overwrite
  overwrite-settled done r y h =
      rw (final-snoc done r (overwrite key r y)) (ground (arith, final_key done r, h))

  -- Where no row has the key, nothing is overwritten.
  overwrite_absent :
      (r : Row) (rows : List Row) → has (key r) rows ≡ false → map (overwrite key r) rows ≡ rows
  unfolding has overwrite
  overwrite_absent r [] h = refl
  overwrite_absent r (y ∷ rows) h = ground (arith, overwrite_absent r rows)

  put-IsSettled :
      (done : List Row) (r : Row) (rows : List Row)
      → IsSettled done rows
      → IsSettled (done ++ (r ∷ [])) (put key r rows)
  unfolding put IsSettled has overwrite
  put-IsSettled done r rows h =
      let mapped : All (λ y. final (done ++ (r ∷ [])) y ≡ y) (map (overwrite key r) rows) =
        All-map (λ y. final done y ≡ y) (λ y. final (done ++ (r ∷ [])) y ≡ y) (overwrite key r) rows
          (overwrite-settled done r) h in
      elim (Bool-cases (has (key r) rows)) [
        | inl there ↦ rw there mapped
        | inr absent ↦ rw absent (
            All-snoc (λ y. final (done ++ (r ∷ [])) y ≡ y) rows r
              (rw (overwrite_absent r rows absent) at mapped)
              (rw (final-snoc done r r) (ground (arith, final_key done r))))
      ]

  put_all-IsSettled_from :
      (done rs rows : List Row) → IsSettled done rows → IsSettled (done ++ rs) (put_all key rs rows)
  unfolding put_all
  put_all-IsSettled_from done [] rows h =
      subst (λ (d : List Row). IsSettled d rows) (sym (append-nil done)) h
  put_all-IsSettled_from done (r ∷ rs) rows h =
      subst (λ (d : List Row). IsSettled d (put_all key rs (put key r rows)))
        (append_assoc done (r ∷ []) rs)
        (put_all-IsSettled_from (done ++ (r ∷ [])) rs (put key r rows)
          (put-IsSettled done r rows h))

  all_fixed : (rows : List Row) → IsSettled [] rows
  unfolding IsSettled final
  all_fixed [] = tt
  all_fixed (y ∷ rows) = (refl, all_fixed rows)

  pub put_all-IsSettled : (rs rows : List Row) → IsSettled rs (put_all key rs rows)
  put_all-IsSettled rs rows = put_all-IsSettled_from [] rs rows (all_fixed rows)

  has-map-overwrite :
      (k : ℕ) (r : Row) (rows : List Row) → has k (map (overwrite key r) rows) ≡ has k rows
  unfolding has overwrite
  has-map-overwrite k r [] = refl
  has-map-overwrite k r (y ∷ rows) = ground (arith, has-map-overwrite k r rows)

  has-snoc :
      (k : ℕ) (rows : List Row) (r : Row) → has k (rows ++ (r ∷ [])) ≡ (has k rows || key r == k)
  unfolding has
  has-snoc k [] r = ground arith
  has-snoc k (y ∷ rows) r = ground (arith, has-snoc k rows r)

  has-put :
      (k : ℕ) (r : Row) (rows : List Row) → has k (put key r rows) ≡ (has k rows || key r == k)
  unfolding put has
  has-put k r rows = elim (Bool-cases (has (key r) rows)) [
    | inl there ↦ rw (there, has-map-overwrite k r rows) (known there)
    | inr absent ↦ rw (absent, has-snoc k rows r) refl
  ]
    where
      known : has (key r) rows ≡ true → has k rows ≡ (has k rows || key r == k)
      known there = elim (Bool-cases (key r == k)) [
        | inl e ↦ rw (← (==_iff (key r) k).0 e, there) refl
        | inr e ↦ ground arith
      ]

  has-put_all :
      (k : ℕ) (rs rows : List Row) → has k (put_all key rs rows) ≡ (has k rows || has k rs)
  unfolding put_all has
  has-put_all k [] rows = ground arith
  has-put_all k (r ∷ rs) rows = ground (arith, has-put_all k rs (put key r rows), has-put k r rows)

  -- Over a table that has every key, writing the rows is a change of each row.
  put_all-map :
      (rs rows : List Row)
      → All (λ r. has (key r) rows ≡ true) rs
      → put_all key rs rows ≡ map (final rs) rows
  unfolding put_all final put IsSettled has
  put_all-map [] rows h = sym (map_fixed (final []) rows (all_fixed rows))
  put_all-map (r ∷ rs) rows h = rw h.0 (
      put_all-map rs (map (overwrite key r) rows) (still rs h.1)
      ∙ twice (overwrite key r) (final rs) rows)
    where
      still :
          (ss : List Row)
          → All (λ s. has (key s) rows ≡ true) ss
          → All (λ s. has (key s) (map (overwrite key r) rows) ≡ true) ss
      still [] g = tt
      still (s ∷ ss) g = (rw (has-map-overwrite (key s) r rows) g.0, still ss g.1)

      twice : (f g : Row → Row) (ys : List Row) → map g (map f ys) ≡ map (λ y. g (f y)) ys
      twice f g [] = refl
      twice f g (y ∷ ys) = rw (twice f g ys)

  has-prune :
      (mine : Row → Bool) (written : List ℕ) (k : ℕ) (rows : List Row)
      → has_id k written ≡ true
      → has k (prune key mine written rows) ≡ has k rows
  unfolding prune has
  has-prune mine written k [] h = refl
  has-prune mine written k (y ∷ rows) h = elim (Bool-cases (key y == k)) [
    | inl e ↦ rw (e, (==_iff (key y) k).0 e, h) (ground (arith, e))
    | inr e ↦ ground (arith, e, has-prune mine written k rows h)
  ]

  pub has_id-map : (k : ℕ) (rs : List Row) → has_id k (map key rs) ≡ has k rs
  unfolding has_id has
  has_id-map k [] = refl
  has_id-map k (r ∷ rs) = rw (has_id-map k rs) refl

  has_of_mem : (rs : List Row) {r : Row} → Memᴰ r rs → has (key r) rs ≡ true
  unfolding has
  has_of_mem [] m = elim m [ ]
  has_of_mem (s ∷ rs) {r} (Memᴰ.head e) = rw e (ground (arith, ==_refl (key s)))
  has_of_mem (s ∷ rs) {r} (Memᴰ.tail m) = ground (arith, has_of_mem rs m)

  -- A key that is written is in the table after.
  pub has-upsert :
      (mine : Row → Bool) (rs rows : List Row) (k : ℕ)
      → has_id k (map key rs) ≡ true
      → has k (upsert key mine rs rows) ≡ true
  unfolding upsert
  has-upsert mine rs rows k h =
      has-prune mine (map key rs) k (put_all key rs rows) h
      ∙ (has-put_all k rs rows ∙ ground (arith, sym (has_id-map k rs) ∙ h))

  has-upsert_each :
      (mine : Row → Bool) (rs rows : List Row)
      → All (λ r. has (key r) (upsert key mine rs rows) ≡ true) rs
  has-upsert_each mine rs rows =
      All-of_mem _ rs
        (λ r m. has-upsert mine rs rows (key r) (has_id-map (key r) rs ∙ has_of_mem rs m))

  pub upsert-IsSettled :
      (mine : Row → Bool) (rs rows : List Row) → IsSettled rs (upsert key mine rs rows)
  unfolding upsert prune IsSettled
  upsert-IsSettled mine rs rows = All-filter _ _ (put_all key rs rows) (put_all-IsSettled rs rows)

  -- Writing the same rows into a table that was seeded changes nothing.
  pub put_all_again :
      (mine : Row → Bool) (rs rows : List Row)
      → put_all key rs (upsert key mine rs rows) ≡ upsert key mine rs rows
  unfolding IsSettled
  put_all_again mine rs rows =
      put_all-map rs (upsert key mine rs rows) (has-upsert_each mine rs rows)
      ∙ map_fixed (final rs) _ (upsert-IsSettled mine rs rows)

  -- Seeding a table again with the same rows changes nothing.
  pub upsert_again :
      (mine mine' : Row → Bool) (rs rows : List Row)
      → ((r : Row) → mine' r ≡ true → mine r ≡ true)
      → upsert key mine' rs (upsert key mine rs rows) ≡ upsert key mine rs rows
  unfolding upsert prune IsSettled
  upsert_again mine mine' rs rows finer =
      ap (prune key mine' (map key rs)) (put_all_again mine rs rows)
      ∙ filter-filter _ _ (put_all key rs rows) (λ r kept. ground (arith, finer r, kept))
