-- ===== src/Profile/Resolve.antt =====
-- Whom an identifier resolves to, and when it cannot.
use genesys_cx_demo_harness.Base.{
  ◌≡◌, sym, ap, subst, ◌∙◌, true, Text, text_eq→eq, List, [], ◌∷◌, Memᴰ, filter, find, find-mem,
  find_passes, mem-filter_passes, mem_of_mem-filter, is_empty, Option, none, some, ◌==◌, ==_iff,
  &&_true, Bool-cases, Option-cases, inl, inr,
}
use genesys_cx_demo_harness.Store.{
  ContactPoint, Tenant, Party, Identity, Db, Result, ok, >>=-eq-ok, scalar_one_or_none,
}
use genesys_cx_demo_harness.Profile.{
  best_channel, ProfileRollup, has_value, rollup_of, resolve_profile,
}

module _ (db : Db) (identity : Identity) where
  -- The rollup of an identity that names this party.
  abbrev rollup_with : Party → ProfileRollup
  rollup_with party = record {
    party = party;
    matched_identity = identity;
    last_channel =
        best_channel (filter (λ (c : ContactPoint). c.party_id == party.party_id) db.contact_points)
          identity.value;
  }

  rollup_of-parts :
      {r : ProfileRollup}
      → rollup_of db identity ≡ ok (some r)
      → (r.matched_identity ≡ identity)
        × Memᴰ r.party db.parties
        × (r.party.party_id ≡ identity.party_id)
  unfolding rollup_of
  rollup_of-parts {r} h =
      let p = λ (p : Party). p.party_id == identity.party_id in
      elim (Option-cases (find p db.parties)) [
        | inl e ↦ let bad = rw (e, rollup_of) at h in cc
        | inr (party, e) ↦
            let same : rollup_with party ≡ r = let done = rw (e, rollup_of) at h in cc in
            (
              ap (λ (u : ProfileRollup). u.matched_identity) (sym same),
              subst (λ (u : ProfileRollup). Memᴰ u.party db.parties) same (find-mem p db.parties e),
              ap (λ (u : ProfileRollup). u.party.party_id) (sym same)
                  ∙ (==_iff _ _).0 (find_passes p db.parties e),
            )
      ]

-- A row that a query for one row returned is a row of the query.
mem-scalar_one_or_none {ℓ} :
    {A : Type ℓ} (xs : List A) {x : A} → scalar_one_or_none xs ≡ ok (some x) → Memᴰ x xs
mem-scalar_one_or_none [] h = cc
mem-scalar_one_or_none (y ∷ []) h = Memᴰ.head (let same = h in cc)
mem-scalar_one_or_none (y ∷ z ∷ xs) h = cc

has_value-parts :
    (tenant : Tenant) (value : Text) (i : Identity)
    → has_value tenant value i ≡ true
    → (i.tenant_id ≡ tenant.tenant_id) × (i.value ≡ value)
has_value-parts tenant value i h =
    let (mine, named) = &&_true _ _ h in ((==_iff _ _).0 mine, text_eq→eq i.value value named)

abbrev IsOwned : Db → Tenant → Text → ProfileRollup → Type 0
IsOwned db tenant value r =
    Memᴰ r.matched_identity db.identities
    × (r.matched_identity.tenant_id ≡ tenant.tenant_id)
    × (r.matched_identity.value ≡ value)
    × Memᴰ r.party db.parties
    × (r.party.party_id ≡ r.matched_identity.party_id)

rollup_of-IsOwned :
    (db : Db) (tenant : Tenant) (value : Text) (i : Identity) {r : ProfileRollup}
    → Memᴰ i (filter (has_value tenant value) db.identities)
    → rollup_of db i ≡ ok (some r)
    → IsOwned db tenant value r
rollup_of-IsOwned db tenant value i m h =
    let (same, stored, party) = rollup_of-parts db i h in
    let p = has_value tenant value in
    let (mine, named) = has_value-parts tenant value i (mem-filter_passes p db.identities m) in
    (
      rw same (mem_of_mem-filter p db.identities m),
      ap (λ (j : Identity). j.tenant_id) same ∙ mine,
      ap (λ (j : Identity). j.value) same ∙ named,
      stored,
      party ∙ ap (λ (j : Identity). j.party_id) (sym same),
    )

found-IsOwned :
    (db : Db) (tenant : Tenant) (value : Text) (o : Option Identity) {r : ProfileRollup}
    → scalar_one_or_none (filter (has_value tenant value) db.identities) ≡ ok o
    → ◌≡◌ {A = Result (Option ProfileRollup)}
        (elim o [ none ↦ ok none | some identity ↦ rollup_of db identity ])
        (ok (some r))
    → IsOwned db tenant value r
found-IsOwned db tenant value none e h = cc
found-IsOwned db tenant value (some i) e h =
    rollup_of-IsOwned db tenant value i (mem-scalar_one_or_none _ e) h

-- A value resolves only to a stored identity of the same tenant with exactly that value, and to the
-- stored party that the identity belongs to.
pub resolve_profile-owned :
    (db : Db) (tenant : Tenant) (value : Text) {r : ProfileRollup}
    → resolve_profile db tenant value ≡ ok (some r)
    → Memᴰ r.matched_identity db.identities
      × (r.matched_identity.tenant_id ≡ tenant.tenant_id)
      × (r.matched_identity.value ≡ value)
      × Memᴰ r.party db.parties
      × (r.party.party_id ≡ r.matched_identity.party_id)
unfolding resolve_profile
resolve_profile-owned db tenant value h = elim (Bool-cases (is_empty value)) [
  | inl e ↦ let bad = rw e at h in cc
  | inr e ↦
      let (o, found, rolled) =
        >>=-eq-ok (scalar_one_or_none (filter (has_value tenant value) db.identities)) _
          (rw e at h) in
      found-IsOwned db tenant value o found rolled
]
