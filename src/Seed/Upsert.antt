-- ===== src/Seed/Upsert.antt =====
-- `db.merge` of a row by its primary key, and the deletion of what a seeding did not write, on one
-- table (app/seed/network.py, app/seed/generator.py).
pub mod Settled
pub mod Owned
pub mod Cascaded
use genesys_cx_demo_harness.Base.{
  ℕ, Bool, true, false, not, ◌&&◌, ◌||◌, List, [], ◌∷◌, ◌++◌, map, filter, any, All, ◌==◌,
  if◌then◌else◌, ◌≡◌, refl, arith, Bool-cases, inl, inr, Memᴰ, sym, ◌∙◌, ap,
}

-- `x in ids`
unfoldable pub has_id : ℕ → List ℕ → Bool
has_id k ids = any (λ i. i == k) ids

module _ {ℓ} {Row : Type ℓ} (key : Row → ℕ) where
  unfoldable pub overwrite : Row → Row → Row
  overwrite r y = if key y == key r then r else y

  -- `db.merge(r)`: the row of that primary key is replaced, and without one `r` is added.
  unfoldable pub put : Row → List Row → List Row
  unfolding overwrite
  put r rows = if any (λ y. key y == key r) rows then map (overwrite r) rows else rows ++ (r ∷ [])

  unfoldable pub put_all : List Row → List Row → List Row
  put_all [] rows = rows
  put_all (r ∷ rs) rows = put_all rs (put r rows)

  -- `delete(T).where(mine, T.key.notin_(written))`
  unfoldable pub prune : (Row → Bool) → List ℕ → List Row → List Row
  unfolding has_id
  prune mine written rows = filter (λ r. not (mine r && not (has_id (key r) written))) rows

  -- The keys of the rows that `prune` deletes.
  unfoldable pub pruned : (Row → Bool) → List ℕ → List Row → List ℕ
  unfolding has_id
  pruned mine written rows = map key (filter (λ r. mine r && not (has_id (key r) written)) rows)

  -- The rows that a seeding writes, then what it leaves.
  unfoldable pub upsert : (Row → Bool) → List Row → List Row → List Row
  unfolding put_all prune
  upsert mine rs rows = prune mine (map key rs) (put_all rs rows)

-- `ON DELETE CASCADE` of a foreign key: what is left when rows of those keys are deleted.
unfoldable pub cascade_keys {ℓ} : {Row : Type ℓ} → (Row → ℕ) → List ℕ → List Row → List Row
unfolding has_id
cascade_keys ref deleted rows = filter (λ r. not (has_id (ref r) deleted)) rows
