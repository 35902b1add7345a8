-- ===== src/Events/Feed.antt =====
-- What the feed of a subscriber holds.

use genesys_cx_demo_harness.Base.{
  ℕ, zero, suc, Option, none, false, IsSorted, IsSorted-take, sort_by-IsSorted, ◌≡◌, ◌≤◌, true,
  ◌&&◌, &&_true, ==_iff, ◌==◌, one_of, List, [], ◌∷◌, Memᴰ, filter, take, length, sort_by,
  mem-filter_passes, mem_of_mem-filter, mem_of_mem-sort_by, some, arith, Text, Bool, All-of_mem,
  All-step, mem-filter, All, All-mem, ◌⊎◌, inl, inr, ◌<◌, ltb, Bool-cases, refl, ap, sym,
  mem-sort_by,
}
use genesys_cx_demo_harness.Store.{Tenant, Event, Db, telemetry_kinds}
use genesys_cx_demo_harness.Events.{newest_first, of_kinds, limited, party_events, telemetry_events}

mem_of_mem-take {ℓ} : {A : Type ℓ} (n : ℕ) (xs : List A) {x : A} → Memᴰ x (take n xs) → Memᴰ x xs
mem_of_mem-take zero xs m = elim m [ ]
mem_of_mem-take (suc n) [] m = m
mem_of_mem-take (suc n) (y ∷ xs) (Memᴰ.head e) = Memᴰ.head e
mem_of_mem-take (suc n) (y ∷ xs) (Memᴰ.tail m) = Memᴰ.tail (mem_of_mem-take n xs m)

length-take_le {ℓ} : {A : Type ℓ} (n : ℕ) (xs : List A) → length (take n xs) ≤ n
length-take_le zero xs = omega arith
length-take_le (suc n) [] = omega arith
length-take_le (suc n) (x ∷ xs) = omega (arith, length-take_le n xs)

-- The telemetry feed has at most twenty events, and each of them is a stored event of that tenant and
-- subscriber, of a telemetry kind.
pub telemetry_events-owned :
    (db : Db) (tenant : Tenant) (party : ℕ) {e : Event}
    → Memᴰ e (telemetry_events db tenant party)
    → (length (telemetry_events db tenant party) ≤ 20)
      × Memᴰ e db.events
      × (e.tenant_id ≡ tenant.tenant_id)
      × (e.party_id ≡ party)
      × (one_of e.kind telemetry_kinds ≡ true)
unfolding telemetry_events party_events
telemetry_events-owned db tenant party {e} m =
    let p = λ (e : Event).
      e.tenant_id == tenant.tenant_id
      && (e.party_id == party && of_kinds (some telemetry_kinds) e) in
    let kept = mem_of_mem-sort_by newest_first (filter p db.events) (mem_of_mem-take 20 _ m) in
    let (mine, rest) = &&_true _ _ (mem-filter_passes p db.events kept) in
    let (theirs, kind) = &&_true _ _ rest in
    (
      length-take_le 20 (sort_by newest_first (filter p db.events)),
      mem_of_mem-filter p db.events kept,
      (==_iff _ _).0 mine,
      (==_iff _ _).0 theirs,
      kind,
    )

newest_first_total : (a b : Event) → newest_first a b ≡ false → newest_first b a ≡ true
newest_first_total a b h = ground arith

newest_first_trans :
    (a b c : Event) → newest_first a b ≡ true → newest_first b c ≡ true → newest_first a c ≡ true
newest_first_trans a b c h k = ground arith

-- The event is later than the other, or of the same time with no smaller id.
abbrev pub IsNewer : Event → Event → Type 0
IsNewer a b =
    (b.occurred_at < a.occurred_at) ⊎ ((a.occurred_at ≡ b.occurred_at) × (b.event_id ≤ a.event_id))

abbrev pub IsNewestFirst : List Event → Type 0
IsNewestFirst [] = Unit
IsNewestFirst (e ∷ es) = All (IsNewer e) es × IsNewestFirst es

newest_first-IsNewer : (a b : Event) → newest_first a b ≡ true → IsNewer a b
newest_first-IsNewer a b h = elim (Bool-cases (ltb b.occurred_at a.occurred_at)) [
  | inl e ↦ inl (ground (arith, e))
  | inr e ↦ inr (ground (arith, e, h), ground (arith, e, h))
]

IsSorted-IsNewestFirst : (es : List Event) → IsSorted newest_first es → IsNewestFirst es
IsSorted-IsNewestFirst [] h = tt
IsSorted-IsNewestFirst (e ∷ es) h =
    (All-step (newest_first-IsNewer e) es h.0, IsSorted-IsNewestFirst es h.1)

-- What is cut off a sorted list belongs after all that is kept.
take-cases {ℓ} :
    {A : Type ℓ} (le : A → A → Bool) (n : ℕ) (xs : List A) {x : A}
    → IsSorted le xs
    → Memᴰ x xs
    → Memᴰ x (take n xs) ⊎ (All (λ y. le y x ≡ true) (take n xs) × (length (take n xs) ≡ n))
take-cases le zero xs h m = inr (tt, refl)
take-cases le (suc n) [] h m = elim m [ ]
take-cases le (suc n) (y ∷ xs) h (Memᴰ.head e) = inl (Memᴰ.head e)
take-cases le (suc n) (y ∷ xs) h (Memᴰ.tail m) = elim (take-cases le n xs h.1 m) [
  | inl kept ↦ inl (Memᴰ.tail kept)
  | inr (before, full) ↦ inr ((All-mem _ xs h.0 m, before), ap suc full)
]

module _ (db : Db) (tenant : Tenant) (party : ℕ) (kinds : Option (List Text)) where
  -- The event is of that tenant and subscriber, and of the kinds asked for.
  abbrev pub is_wanted : Event → Bool
  is_wanted e = e.tenant_id == tenant.tenant_id && (e.party_id == party && of_kinds kinds e)

  abbrev everything : List Event
  everything = sort_by newest_first (filter is_wanted db.events)

  everything-IsSorted : IsSorted newest_first everything
  everything-IsSorted = sort_by-IsSorted newest_first newest_first_total newest_first_trans _

  -- What a read may say of an event of the store.
  abbrev pub IsAccountedFor : Option ℕ → List Event → Event → Type 0
  IsAccountedFor limit shown e =
      (is_wanted e ≡ false)
      ⊎ (Memᴰ e shown ⊎ (All (λ newer. IsNewer newer e) shown × (limit ≡ some (length shown))))

  accounted :
      (limit : Option ℕ) (e : Event)
      → Memᴰ e db.events
      → IsAccountedFor limit (limited limit everything) e
  accounted limit e m = elim (Bool-cases (is_wanted e)) [
    | inr other ↦ inl other
    | inl wanted ↦
        inr (cut limit (mem-sort_by newest_first _ (mem-filter is_wanted db.events m wanted)))
  ]
    where
      cut :
          (limit : Option ℕ)
          → Memᴰ e everything
          → Memᴰ e (limited limit everything)
            ⊎ (All (λ newer. IsNewer newer e) (limited limit everything)
                × (limit ≡ some (length (limited limit everything))))
      cut none there = inl there
      cut (some n) there = elim (take-cases newest_first n everything everything-IsSorted there) [
        | inl kept ↦ inl kept
        | inr (before, full) ↦
            inr (All-step (λ newer. newest_first-IsNewer newer e) _ before, ap some (sym full))
      ]

  -- A read of a subscriber's events shows stored events of that tenant, subscriber and kinds, the
  -- latest first and those of one time by descending id; and it shows all of them, or as many as the
  -- limit, none of them after one that is left out.
  pub party_events-IsSorted :
      (limit : Option ℕ)
      → IsNewestFirst (party_events db tenant party kinds limit)
        × All
            (λ e. Memᴰ e db.events × (is_wanted e ≡ true))
            (party_events db tenant party kinds limit)
        × All (IsAccountedFor limit (party_events db tenant party kinds limit)) db.events
  unfolding party_events
  party_events-IsSorted limit = (
    IsSorted-IsNewestFirst _ (cut limit),
    All-of_mem _ _ (λ e m.
        let kept = mem_of_mem-sort_by newest_first _ (stored limit m) in
        (mem_of_mem-filter is_wanted db.events kept, mem-filter_passes is_wanted db.events kept)),
    All-of_mem _ _ (λ e m. accounted limit e m),
  )
    where
      cut : (limit : Option ℕ) → IsSorted newest_first (limited limit everything)
      cut none = everything-IsSorted
      cut (some n) = IsSorted-take newest_first n _ everything-IsSorted

      stored :
          (limit : Option ℕ) {e : Event} → Memᴰ e (limited limit everything) → Memᴰ e everything
      stored none m = m
      stored (some n) m = mem_of_mem-take n _ m
