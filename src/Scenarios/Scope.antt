-- ===== src/Scenarios/Scope.antt =====
-- What an update of a scenario leaves of a table.
use genesys_cx_demo_harness.Base.{
  ℕ, ◌≡◌, refl, sym, ap, ◌∙◌, subst, Bool, true, false, ◌&&◌, Text, one_of, Dict, List, [], ◌∷◌,
  map, filter, all, All, Option, none, some, Bool-cases, inl, inr, if◌then◌else◌,
}
use genesys_cx_demo_harness.Store.{Result, ok, >>=-eq-ok, ok_injective}
use genesys_cx_demo_harness.Scenarios.Columns.{Cell, Column, Entity, settable}
use genesys_cx_demo_harness.Scenarios.Packs.{Literal}
use genesys_cx_demo_harness.Scenarios.Statements.{
  Statements, accept, column, assign_all, assign_where, where_clause, set_clause, update_rows,
}
use genesys_cx_demo_harness.Scenarios.Kept.{IsKeeping, column-IsKeeping}
use genesys_cx_demo_harness.Seed.Rows.{each}
use genesys_cx_demo_harness.Seed.Network.Again.{ok_pair}

-- What every call made holds of what the calls returned.
each-All_of {ℓ κ ι μ} :
    {A : Type ℓ} {B : Type κ} (Q : A → Type μ) (P : B → Type ι) (f : A → Result B) (xs : List A)
    {ys : List B}
    → ((x : A) (y : B) → Q x → f x ≡ ok y → P y)
    → All Q xs
    → each f xs ≡ ok ys
    → All P ys
unfolding each
each-All_of Q P f [] step q h = subst (λ ys. All P ys) (ok_injective h) tt
each-All_of Q P f (x ∷ xs) step q h =
    let (y, e, rest) = >>=-eq-ok (f x) _ h in
    let (zs, more, done) = >>=-eq-ok (each f xs) _ rest in
    subst (λ ys. All P ys) (ok_injective done) (step x y q.0 e, each-All_of Q P f xs step q.1 more)

accept-ok {ℓ} : {A : Type ℓ} (o : Option A) {a : A} → accept o ≡ ok a → o ≡ some a
accept-ok none h = cc
accept-ok (some b) h = cc

module _ {Row : Type 0} (ids : Row → ℕ × ℕ × ℕ × Text) where
  -- Storing the value in the column leaves the row's keys, its owner and its name.
  Keeps : Column Row × Cell → Type 0
  Keeps set = (r r' : Row) → set.0.put set.1 r ≡ some r' → ids r' ≡ ids r

  assign_all-Keeps :
      (sets : List (Column Row × Cell)) (r : Row) {r' : Row}
      → All Keeps sets
      → assign_all sets r ≡ ok r'
      → ids r' ≡ ids r
  unfolding assign_all Keeps
  assign_all-Keeps [] r keep h = ap ids (sym (ok_injective h))
  assign_all-Keeps ((c, cell) ∷ sets) r keep h =
      let (s, e, rest) = >>=-eq-ok (accept (c.put cell r)) _ h in
      assign_all-Keeps sets s keep.1 rest ∙ keep.0 r s (accept-ok _ e)

  -- The table after an update: the same rows by their keys, those that are not selected unchanged.
  assign_where-Keeps :
      (selected : Row → Bool) (out : ℕ × ℕ × ℕ × Text → Bool) (sets : List (Column Row × Cell))
      (rows : List Row) {rows' : List Row}
      → All Keeps sets
      → ((r : Row) → out (ids r) ≡ true → selected r ≡ false)
      → assign_where selected sets rows ≡ ok rows'
      → (map ids rows' ≡ map ids rows)
        × (filter (λ r. out (ids r)) rows' ≡ filter (λ r. out (ids r)) rows)
  unfolding assign_where
  assign_where-Keeps selected out sets [] keep apart h =
      subst (λ (rs : List Row). (map ids rs ≡ []) × (filter (λ r. out (ids r)) rs ≡ []))
        (ok_injective h) (refl, refl)
  assign_where-Keeps selected out sets (r ∷ rows) keep apart h =
      let (s, e, rest) = >>=-eq-ok (if selected r then assign_all sets r else ok r) _ h in
      let (ss, more, done) = >>=-eq-ok (assign_where selected sets rows) _ rest in
      let (keys, others) = assign_where-Keeps selected out sets rows keep apart more in
      subst
        (λ (rs : List Row).
          (map ids rs ≡ map ids (r ∷ rows))
          × (filter (λ r. out (ids r)) rs ≡ filter (λ r. out (ids r)) (r ∷ rows)))
        (ok_injective done)
        (elim (Bool-cases (selected r)) [
          | inl hit ↦
              let same : ids s ≡ ids r = assign_all-Keeps sets r keep (rw hit at e) in
              (
                rw (same, keys) refl,
                elim (Bool-cases (out (ids r))) [
                  | inl away ↦ absurd (let bad = sym hit ∙ apart r away in cc)
                  | inr near ↦ rw (same, near, others) refl
                ],
              )
          | inr miss ↦
              let same : s ≡ r = sym (ok_injective (rw miss at e)) in
              (rw (same, keys) refl, rw (same, others) refl)
        ])

module _ ⦃sql : Statements⦄ where
  -- The table after a statement on columns that may be set.
  pub update_rows-Keeps :
      {Row : Type 0} (ids : Row → ℕ × ℕ × ℕ × Text) (entity : Entity) (columns : List (Column Row))
      (owned : Row → Bool) (out : ℕ × ℕ × ℕ × Text → Bool) (match_fields set_fields : Dict Literal)
      (rows : List Row) {n : ℕ} {rows' : List Row}
      → All (IsKeeping ids (settable entity)) columns
      → All (λ (e : Text × Literal). one_of e.0 (settable entity) ≡ true) set_fields
      → ((r : Row) → out (ids r) ≡ true → owned r ≡ false)
      → update_rows entity columns owned match_fields set_fields rows ≡ ok (n, rows')
      → (map ids rows' ≡ map ids rows)
        × (filter (λ r. out (ids r)) rows' ≡ filter (λ r. out (ids r)) rows)
  unfolding update_rows set_clause Keeps
  update_rows-Keeps {Row} ids entity columns owned out match_fields set_fields rows keeping may
        apart h =
      let (sets, e, next) = >>=-eq-ok (each (set_clause entity columns) set_fields) _ h in
      let (tests, t, more) = >>=-eq-ok (each (where_clause entity columns) match_fields) _ next in
      let selected = λ (r : Row). owned r && all (λ (t : Row → Bool). t r) tests in
      let (found, w, done) = >>=-eq-ok (assign_where selected sets rows) _ more in
      let (number, table) = ok_pair done in
      subst
        (λ (rs : List Row).
          (map ids rs ≡ map ids rows)
          × (filter (λ r. out (ids r)) rs ≡ filter (λ r. out (ids r)) rows))
        table
        (assign_where-Keeps ids selected out sets rows (each-All_of _ _ _ set_fields clause may e)
          (λ r o. rw (apart r o) refl) w)
    where
      clause :
          (f : Text × Literal) (set : Column Row × Cell)
          → one_of f.0 (settable entity) ≡ true
          → set_clause entity columns f ≡ ok set
          → Keeps ids set
      clause (name, value) set may_set made =
          let (c, found, rest) = >>=-eq-ok (column columns name) _ made in
          let (cell, bound, done) = >>=-eq-ok (accept (sql.assigns entity name value)) _ rest in
          subst (λ (x : Column Row × Cell). Keeps ids x) (ok_injective done)
            (column-IsKeeping ids (settable entity) columns name keeping may_set found cell)
