-- ===== src/Admin/Seen.antt =====
-- What the console shows of a home, and what telemetry says of it.
use genesys_cx_demo_harness.Base.{
  ◌≡◌, refl, Bool, not, ◌&&◌, text_eq, Bool-cases, inl, inr, true, false, subst, sym, ◌∷◌, ◌⊎◌,
}
use genesys_cx_demo_harness.Platform.{Platform}
use genesys_cx_demo_harness.Store.{
  Tenant, Party, Event, Db, Result, kind_network_degraded, ok, >>=-eq-ok, >>=-ok, ok_injective,
}
use genesys_cx_demo_harness.Events.{Stamp, add_event}
use genesys_cx_demo_harness.Network.Config.{network_config}
use genesys_cx_demo_harness.Network.Home.{Topology, has_nothing, load_topology}
use genesys_cx_demo_harness.Network.Faults.{no_fault, build_verdict}
use genesys_cx_demo_harness.Network.Telemetry.{emit_for, emit_network_telemetry}
use genesys_cx_demo_harness.Admin.States.{SubscriberState, state_of, subscriber_state}

module _ ⦃platform : Platform⦄ where
  -- The event that telemetry writes: the subscriber's home is degraded.
  abbrev pub IsAlarm : Tenant → Party → Stamp → Event → Type 0
  IsAlarm tenant party stamp e =
      (e.event_id ≡ stamp.id)
      × (e.tenant_id ≡ tenant.tenant_id)
      × (e.party_id ≡ party.party_id)
      × (e.kind ≡ kind_network_degraded)
      × (e.occurred_at ≡ stamp.now)

  -- What telemetry answers and leaves, for a subscriber of whom the console shows that.
  abbrev pub AgreesWith :
      Tenant → Party → Stamp → Db → SubscriberState → Result (Bool × Db) → Type 0
  AgreesWith tenant party stamp db state answer =
      ((state.has_network && not state.healthy ≡ true)
        × ((e : Event) × (answer ≡ ok (true, record db { events = e ∷ db.events }))
            × IsAlarm tenant party stamp e))
      ⊎ ((state.has_network && not state.healthy ≡ false) × (answer ≡ ok (false, db)))

  -- Telemetry on a home does what its row of the console says.
  emit_for-state :
      (tenant : Tenant) (db : Db) (party : Party) (t : Topology) (stamp : Stamp)
      → AgreesWith tenant party stamp db
          (state_of tenant db party t)
          (ok (emit_for tenant party.party_id t stamp db))
  unfolding emit_for state_of add_event
  emit_for-state tenant db party t stamp = elim (Bool-cases (has_nothing t)) [
    | inl nothing ↦ rw (nothing, emit_for, state_of) (inr (refl, refl))
    | inr something ↦
        elim (Bool-cases (text_eq (build_verdict t (network_config tenant)).fault_type no_fault)) [
          | inl healthy ↦ rw (something, healthy, emit_for, state_of) (inr (refl, refl))
          | inr faulty ↦
              rw (something, faulty, emit_for, state_of)
                (inl (refl, (_, refl, (refl, refl, refl, refl, refl))))
        ]
  ]

  -- Where the console can show a subscriber, telemetry on the same store adds one event, an alarm for
  -- that subscriber, if the console shows a network that is not healthy, and else it succeeds and
  -- changes nothing.
  pub subscriber_state-emits :
      (tenant : Tenant) (db : Db) (party : Party) (stamp : Stamp) {state : SubscriberState}
      → subscriber_state db tenant party ≡ ok state
      → AgreesWith tenant party stamp db state
          (emit_network_telemetry tenant party.party_id stamp db)
  unfolding subscriber_state emit_network_telemetry
  subscriber_state-emits tenant db party stamp {state} h =
      let (t, loaded, done) = >>=-eq-ok (load_topology db tenant party.party_id) _ h in
      subst
        (λ (x : SubscriberState).
          AgreesWith tenant party stamp db x
            (emit_network_telemetry tenant party.party_id stamp db))
        (ok_injective done)
        (subst (AgreesWith tenant party stamp db (state_of tenant db party t))
          (sym (>>=-ok _ loaded)) (emit_for-state tenant db party t stamp))
