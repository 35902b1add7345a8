-- ===== src/Seed/Upsert/Owned.antt =====
-- Which rows of a table a seeding writes, and which it leaves alone.
use genesys_cx_demo_harness.Base.{
  ℕ, Bool, true, false, List, [], ◌∷◌, ◌++◌, map, filter, All, All-mem, ◌==◌, ◌≡◌, refl, arith,
  Bool-cases, inl, inr, Memᴰ, sym, ◌∙◌, subst, ==_iff, mem-filter_passes,
}
use genesys_cx_demo_harness.Seed.Upsert.{overwrite, put, put_all, prune, upsert}
use genesys_cx_demo_harness.Seed.Upsert.Settled.{
  All-map, All-snoc, All-weaken, has, has_id-map, final, overwrite_key, IsSettled, upsert-IsSettled,
}

module _ {ℓ} {Row : Type ℓ} (key : Row → ℕ) where
  final_absent : (rs : List Row) (y : Row) → has key (key y) rs ≡ false → final key rs y ≡ y
  unfolding has final overwrite
  final_absent [] y h = refl
  final_absent (r ∷ rs) y h = ground (arith, h, final_absent rs y)

  -- A row whose key is written is one of the rows written.
  pub final-mem : (rs : List Row) (y : Row) → has key (key y) rs ≡ true → Memᴰ (final key rs y) rs
  unfolding has final overwrite
  final-mem [] y h = cc
  final-mem (r ∷ rs) y h = elim (Bool-cases (has key (key y) rs)) [
    | inl later ↦ Memᴰ.tail (final-mem rs (overwrite key r y) (rw (overwrite_key key r y) later))
    | inr none_later ↦
        let same : key r == key y ≡ true = ground (arith, h, none_later) in
        let there : overwrite key r y ≡ r = ground (arith, same) in
        rw there (Memᴰ.head (final_absent rs r (rw ((==_iff (key r) (key y)).0 same) none_later)))
  ]

  -- After a seeding, the rows that it owns are the rows that it wrote.
  pub upsert-mine :
      (mine : Row → Bool) (rs rows : List Row) {r : Row}
      → Memᴰ r (upsert key mine rs rows)
      → mine r ≡ true
      → Memᴰ r rs
  unfolding upsert prune IsSettled
  upsert-mine mine rs rows {r} m own =
      let kept = mem-filter_passes _ (put_all key rs rows) m in
      let written : has key (key r) rs ≡ true =
        sym (has_id-map key (key r) rs) ∙ ground (arith, kept, own) in
      subst (λ (x : Row). Memᴰ x rs) (All-mem _ _ (upsert-IsSettled key mine rs rows) m)
        (final-mem rs r written)

  -- The rows that pass `other` are as they were, where none of them has a key that is written and
  -- the rows written are no such rows.
  module _ (other : Row → Bool) where
    unfoldable pub IsApart : List Row → List Row → Type 0
    unfolding has
    IsApart rs rows = All (λ y. other y ≡ true → has key (key y) rs ≡ false) rows

    overwrite_other :
        (r y : Row)
        → other r ≡ false
        → (other y ≡ true → key r == key y ≡ false)
        → other (overwrite key r y) ≡ other y
    unfolding overwrite
    overwrite_other r y h apart = elim (Bool-cases (other y)) [
      | inl e ↦ ground (arith, e, apart e)
      | inr e ↦ ground (arith, e, h)
    ]

    filter-overwrite :
        (r : Row) (rs rows : List Row)
        → other r ≡ false
        → IsApart (r ∷ rs) rows
        → filter other (map (overwrite key r) rows) ≡ filter other rows
    unfolding overwrite IsApart has
    filter-overwrite r rs [] h apart = refl
    filter-overwrite r rs (y ∷ rows) h apart = elim (Bool-cases (other y)) [
      | inl e ↦ ground (arith, e, apart.0 e, filter-overwrite r rs rows h apart.1)
      | inr e ↦ ground (arith, e, h, filter-overwrite r rs rows h apart.1)
    ]

    filter-snoc :
        (rows : List Row) (r : Row)
        → other r ≡ false
        → filter other (rows ++ (r ∷ [])) ≡ filter other rows
    filter-snoc [] r h = rw h refl
    filter-snoc (y ∷ rows) r h = rw (filter-snoc rows r h) refl

    filter-put :
        (r : Row) (rs rows : List Row)
        → other r ≡ false
        → IsApart (r ∷ rs) rows
        → filter other (put key r rows) ≡ filter other rows
    unfolding put
    filter-put r rs rows h apart =
        ground (arith, filter-overwrite r rs rows h apart, filter-snoc rows r h)

    put-IsApart :
        (r : Row) (rs rows : List Row)
        → other r ≡ false
        → IsApart (r ∷ rs) rows
        → IsApart rs (put key r rows)
    unfolding put IsApart has overwrite
    put-IsApart r rs rows h apart = elim (Bool-cases (has key (key r) rows)) [
      | inl there ↦ rw there (
          All-map _ _ (overwrite key r) rows
            (λ y a o.
              let mine : other y ≡ true =
                sym (overwrite_other r y h (λ p. ground (arith, a p))) ∙ o in
              rw (overwrite_key key r y) (ground (arith, a mine)))
            apart)
      | inr absent ↦ rw absent (
          All-snoc _ rows r (All-weaken _ _ rows (λ y a o. ground (arith, a o)) apart)
            (λ o. ground (arith, h, o)))
    ]

    -- The rows that pass `other` are as they were.
    pub upsert-other :
        (mine : Row → Bool) (rs rows : List Row)
        → ((y : Row) → other y ≡ true → mine y ≡ false)
        → All (λ r. other r ≡ false) rs
        → IsApart rs rows
        → filter other (upsert key mine rs rows) ≡ filter other rows
    unfolding upsert prune put_all
    upsert-other mine rs rows foreign hs apart =
        filter-finer _ (put_all key rs rows) (λ y o. rw (foreign y o) refl)
        ∙ put_all_other rs rows hs apart
      where
        filter-finer :
            (p : Row → Bool) (ys : List Row)
            → ((y : Row) → other y ≡ true → p y ≡ true)
            → filter other (filter p ys) ≡ filter other ys
        filter-finer p [] k = refl
        filter-finer p (y ∷ ys) k = elim (Bool-cases (other y)) [
          | inl e ↦ rw (k y e, filter-finer p ys k) refl
          | inr e ↦ ground (arith, e, filter-finer p ys k)
        ]

        put_all_other :
            (rs rows : List Row)
            → All (λ r. other r ≡ false) rs
            → IsApart rs rows
            → filter other (put_all key rs rows) ≡ filter other rows
        put_all_other [] rows hs apart = refl
        put_all_other (r ∷ rs) rows hs apart =
            put_all_other rs (put key r rows) hs.1 (put-IsApart r rs rows hs.0 apart)
            ∙ filter-put r rs rows hs.0 apart
