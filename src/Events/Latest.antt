-- ===== src/Events/Latest.antt =====
-- The newest event of a subscriber, and the channel it came in on.
use genesys_cx_demo_harness.Base.{
  ℕ, ◌≡◌, ◌<◌, refl, Bool, true, false, ◌&&◌, Text, text_eq, one_of, List, [], ◌∷◌, All, All-mem,
  Memᴰ, filter, take, first, is_empty, none, some, ◌==◌, sort_by, insert_by, mem_of_mem-sort_by,
  mem_of_mem-filter, arith,
}
use genesys_cx_demo_harness.Store.{Tenant, Event, Db, kind_interaction}
use genesys_cx_demo_harness.Events.{
  Stamp, EventFields, time_of, new_event, add_event, newest_first, party_events, of_kinds, nonempty,
  last_interaction_channel, resolve_last_channel,
}

first-insert_by {ℓ} :
    {A : Type ℓ} (le : A → A → Bool) (x : A) (ys : List A)
    → ((y : A) → Memᴰ y ys → le x y ≡ true)
    → first (take 1 (insert_by le x ys)) ≡ some x
unfolding insert_by
first-insert_by le x [] h = refl
first-insert_by le x (y ∷ ys) h = rw (h y (Memᴰ.head refl)) refl

module _ (db : Db) (tenant : Tenant) (party : ℕ) (fields : EventFields) (stamp : Stamp) where
  -- The interaction is later than every event of the store.
  abbrev IsLater : Type 0
  IsLater = All (λ (e : Event). e.occurred_at < time_of fields stamp) db.events

  newest-later :
      (e : Event)
      → e.occurred_at < time_of fields stamp
      → newest_first (new_event tenant party kind_interaction fields stamp) e ≡ true
  newest-later e h = ground arith

  first-added :
      All (λ (e : Event). e.occurred_at < time_of fields stamp) db.events
      → first (
          party_events
            (add_event tenant party kind_interaction fields stamp db)
            tenant
            party
            (some (kind_interaction ∷ []))
            (some 1))
        ≡ some (new_event tenant party kind_interaction fields stamp)
  unfolding party_events add_event sort_by one_of text_eq
  first-added later =
      let mine = λ (e : Event).
        e.tenant_id == tenant.tenant_id
        && (e.party_id == party && of_kinds (some (kind_interaction ∷ [])) e) in
      let kept : mine (new_event tenant party kind_interaction fields stamp) ≡ true =
        ground arith in
      rw kept (
        first-insert_by newest_first _ (sort_by newest_first (filter mine db.events)) λ e m.
          newest-later e (
            All-mem (λ (e : Event). e.occurred_at < time_of fields stamp) db.events later
              (mem_of_mem-filter mine db.events (mem_of_mem-sort_by newest_first _ m))))

  -- After an interaction that is later than every event of the store, the subscriber's last channel
  -- is the interaction's, if it names one, whatever the fallback.
  pub resolve_last_channel-added :
      (fallback : Text)
      → All (λ (e : Event). e.occurred_at < time_of fields stamp) db.events
      → is_empty fields.channel ≡ false
      → resolve_last_channel
          (add_event tenant party kind_interaction fields stamp db)
          tenant
          party
          fallback
        ≡ fields.channel
  unfolding resolve_last_channel last_interaction_channel
  resolve_last_channel-added fallback later named =
      rw (first-added later, resolve_last_channel, last_interaction_channel)
        (named_channel fields.channel named)
    where
      named_channel :
          (c : Text) → is_empty c ≡ false → elim (nonempty c) [ none ↦ fallback | some d ↦ d ] ≡ c
      named_channel [] h = cc
      named_channel (x ∷ c) h = refl
