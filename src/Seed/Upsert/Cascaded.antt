-- ===== src/Seed/Upsert/Cascaded.antt =====
-- What a cascade leaves of a table that was seeded.
use genesys_cx_demo_harness.Base.{
  ℕ, Bool, true, false, not, ◌&&◌, ◌||◌, List, [], ◌∷◌, map, filter, All, All-mem, ◌≡◌, refl, arith,
  Bool-cases, inl, inr, ap, ◌∙◌, sym, subst, Memᴰ, ◌==◌, ==_iff, All-step,
}
use genesys_cx_demo_harness.Seed.Upsert.{has_id, put_all, prune, pruned, upsert, cascade_keys}
use genesys_cx_demo_harness.Seed.Upsert.Settled.{
  has_id-map, final, IsSettled, put_all-IsSettled, put_all_again,
}
use genesys_cx_demo_harness.Seed.Upsert.Owned.{final-mem}

filter_both {ℓ} :
    {A : Type ℓ} (p q r : A → Bool) (xs : List A)
    → All (λ x. r x ≡ (p x && q x)) xs
    → filter q (filter p xs) ≡ filter r xs
filter_both p q r [] h = refl
filter_both p q r (x ∷ xs) h = ground (arith, h.0, filter_both p q r xs h.1)

filter_empty {ℓ} :
    {A : Type ℓ} (p q : A → Bool) (xs : List A)
    → ((x : A) → p x ≡ true → q x ≡ false)
    → filter q (filter p xs) ≡ []
filter_empty p q [] h = refl
filter_empty p q (x ∷ xs) h = elim (Bool-cases (p x)) [
  | inl e ↦ rw e (rw (h x e) (filter_empty p q xs h))
  | inr e ↦ rw e (filter_empty p q xs h)
]

pub cascade_keys_none {ℓ} :
    {Row : Type ℓ} (ref : Row → ℕ) (rows : List Row) → cascade_keys ref [] rows ≡ rows
unfolding cascade_keys has_id
cascade_keys_none ref [] = refl
cascade_keys_none ref (r ∷ rows) = ap (λ xs. r ∷ xs) (cascade_keys_none ref rows)

-- Rows that refer to no deleted one stay.
pub filter-cascade_keys {ℓ} :
    {Row : Type ℓ} (ref : Row → ℕ) (deleted : List ℕ) (other : Row → Bool) (rows : List Row)
    → filter other (cascade_keys ref deleted rows) ≡ cascade_keys ref deleted (filter other rows)
unfolding cascade_keys
filter-cascade_keys ref deleted other [] = refl
filter-cascade_keys ref deleted other (r ∷ rows) =
    ground (arith, filter-cascade_keys ref deleted other rows)

pub cascade_keys_apart {ℓ} :
    {Row : Type ℓ} (ref : Row → ℕ) (deleted : List ℕ) (other : Row → Bool) (rows : List Row)
    → All (λ r. other r ≡ true → has_id (ref r) deleted ≡ false) rows
    → cascade_keys ref deleted (filter other rows) ≡ filter other rows
unfolding cascade_keys
cascade_keys_apart ref deleted other [] h = refl
cascade_keys_apart ref deleted other (r ∷ rows) h = elim (Bool-cases (other r)) [
  | inl e ↦ rw e (rw (h.0 e) (ap (λ xs. r ∷ xs) (cascade_keys_apart ref deleted other rows h.1)))
  | inr e ↦ rw e (cascade_keys_apart ref deleted other rows h.1)
]

module _ {ℓ} {Row : Type ℓ} (key : Row → ℕ) where
  -- No key that is written is deleted.
  pub pruned-written :
      (mine : Row → Bool) (written : List ℕ) (k : ℕ) (rows : List Row)
      → has_id k written ≡ true
      → has_id k (pruned key mine written rows) ≡ false
  unfolding pruned has_id
  pruned-written mine written k [] h = refl
  pruned-written mine written k (y ∷ rows) h = elim (Bool-cases (key y == k)) [
    | inl e ↦
        let w : has_id (key y) written ≡ true = rw ((==_iff (key y) k).0 e) h in
        ground (arith, w, pruned-written mine written k rows h)
    | inr e ↦ ground (arith, e, pruned-written mine written k rows h)
  ]

  -- A seeded table is pruned already.
  pub pruned_again :
      (mine : Row → Bool) (rs rows : List Row)
      → pruned key mine (map key rs) (put_all key rs (upsert key mine rs rows)) ≡ []
  unfolding pruned upsert prune
  pruned_again mine rs rows =
      ap (pruned key mine (map key rs)) (put_all_again key mine rs rows)
      ∙ ap (map key) (filter_empty _ _ (put_all key rs rows) (λ y kept. ground (arith, kept)))

  -- A cascade that hits no row that is written is a coarser pruning.
  pub cascade_keys-upsert :
      (ref : Row → ℕ) (deleted : List ℕ) (mine : Row → Bool) (rs rows : List Row)
      → All (λ r. has_id (ref r) deleted ≡ false) rs
      → cascade_keys ref deleted (upsert key mine rs rows)
        ≡ upsert key (λ r. mine r || has_id (ref r) deleted) rs rows
  unfolding cascade_keys upsert prune IsSettled
  cascade_keys-upsert ref deleted mine rs rows apart =
      filter_both _ _ _ (put_all key rs rows)
        (All-step kept (put_all key rs rows) (put_all-IsSettled key rs rows))
    where
      kept :
          (y : Row)
          → final key rs y ≡ y
          → not ((mine y || has_id (ref y) deleted) && not (has_id (key y) (map key rs)))
            ≡ (not (mine y && not (has_id (key y) (map key rs))) && not (has_id (ref y) deleted))
      kept y settled = elim (Bool-cases (has_id (key y) (map key rs))) [
        | inl written ↦
            let safe : has_id (ref y) deleted ≡ false = All-mem _ rs apart (
              subst (λ (x : Row). Memᴰ x rs) settled
                (final-mem key rs y (sym (has_id-map key (key y) rs) ∙ written))) in
            ground (arith, written, safe)
        | inr unwritten ↦ ground (arith, unwritten)
      ]
