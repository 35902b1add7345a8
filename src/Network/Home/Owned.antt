-- ===== src/Network/Home/Owned.antt =====
-- Whose rows a loaded home shows.
use genesys_cx_demo_harness.Base.{
  ℕ, ◌≡◌, subst, Bool, true, &&_true, ==_iff, List, All, Memᴰ, filter, sort_by, mem-filter_passes,
  mem_of_mem-filter, mem_of_mem-sort_by, mem-sort_by, Bool-cases, inl, inr, ◌==◌, ◌&&◌, ◌⊎◌, false,
  All-of_mem, mem-filter,
}
use genesys_cx_demo_harness.Platform.{Platform}
use genesys_cx_demo_harness.Store.{Tenant, AccessPoint, ConnectedDevice, Db, ok}
use genesys_cx_demo_harness.Network.Home.{
  Topology, scoped, by_kind_and_label, by_label, home_of, load_topology,
}
use genesys_cx_demo_harness.Network.Repair.Reload.{load-home}

scoped-parts :
    (tenant party row_tenant row_party : ℕ)
    → scoped tenant party row_tenant row_party ≡ true
    → (row_tenant ≡ tenant) × (row_party ≡ party)
scoped-parts tenant party row_tenant row_party h =
    let (t, p) = &&_true _ _ h in ((==_iff _ _).0 t, (==_iff _ _).0 p)

-- A list shows exactly the rows of a table that are the tenant's and the subscriber's.
abbrev pub ShowsOwn {ℓ} :
    {Row : Type ℓ} → (Row → ℕ) → (Row → ℕ) → ℕ → ℕ → List Row → List Row → Type ℓ
ShowsOwn tenant_of party_of tenant party table shown =
    All (λ r. Memᴰ r table × (tenant_of r ≡ tenant) × (party_of r ≡ party)) shown
    × All (λ r. ((tenant_of r == tenant && party_of r == party) ≡ false) ⊎ Memᴰ r shown) table

sorted_own {ℓ} :
    {Row : Type ℓ} (tenant_of party_of : Row → ℕ) (le : Row → Row → Bool) (tenant party : ℕ)
    (table : List Row)
    → ShowsOwn tenant_of party_of tenant party table
        (sort_by le (filter (λ r. scoped tenant party (tenant_of r) (party_of r)) table))
sorted_own {Row = Row} tenant_of party_of le tenant party table = (
  All-of_mem _ _ (λ r m.
      let kept = mem_of_mem-sort_by le _ m in
      let (t, p) =
        scoped-parts tenant party (tenant_of r) (party_of r) (mem-filter_passes mine table kept) in
      (mem_of_mem-filter mine table kept, t, p)),
  All-of_mem _ _ (λ r m. elim (Bool-cases (mine r)) [
    | inl own ↦ inr (mem-sort_by le _ (mem-filter mine table m own))
    | inr other ↦ inl other
  ]),
)
  where
    mine : Row → Bool
    mine r = scoped tenant party (tenant_of r) (party_of r)

module _ ⦃platform : Platform⦄ (db : Db) (tenant : Tenant) (party : ℕ) where
  -- The access points and the devices of a loaded home are exactly the rows of the two tables that
  -- are that tenant's and that subscriber's.
  pub load_topology-owned :
      {t : Topology}
      → load_topology db tenant party ≡ ok t
      → ShowsOwn
          (λ (a : AccessPoint). a.tenant_id)
          (λ a. a.party_id)
          tenant.tenant_id
          party
          db.access_points
          t.access_points
        × ShowsOwn
            (λ (d : ConnectedDevice). d.tenant_id)
            (λ d. d.party_id)
            tenant.tenant_id
            party
            db.devices
            t.devices
  unfolding home_of
  load_topology-owned {t} h =
      let (g, e, k) = load-home db tenant party h in
      subst
        (λ (u : Topology).
          ShowsOwn (λ (a : AccessPoint). a.tenant_id) (λ a. a.party_id) tenant.tenant_id party
            db.access_points u.access_points
          × ShowsOwn (λ (d : ConnectedDevice). d.tenant_id) (λ d. d.party_id) tenant.tenant_id party
              db.devices u.devices)
        k
        (
          sorted_own (λ (a : AccessPoint). a.tenant_id) (λ a. a.party_id) by_kind_and_label
              tenant.tenant_id party db.access_points,
          sorted_own (λ (d : ConnectedDevice). d.tenant_id) (λ d. d.party_id) by_label
              tenant.tenant_id party db.devices,
        )
