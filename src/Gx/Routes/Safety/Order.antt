-- ===== src/Gx/Routes/Safety/Order.antt =====
-- An order action commits all of what it answers for, or nothing.
use genesys_cx_demo_harness.Base.{
  ◌≡◌, refl, subst, Bool, true, false, Text, Dict, lookup, lookup-All, some, ◌⊎◌, inl, inr,
  Bool-cases,
}
use genesys_cx_demo_harness.Platform.{Platform, Param}
use genesys_cx_demo_harness.Store.{Party, Tenant, Db, Session, Result, ok, raised}
use genesys_cx_demo_harness.Events.{Stamp}
use genesys_cx_demo_harness.Profile.{ProfileRollup}
use genesys_cx_demo_harness.Orders.Live.{IsSound}
use genesys_cx_demo_harness.Orders.Sound.{place-IsSound, send_confirmation-IsSound}
use genesys_cx_demo_harness.Orders.Actions.{Handler, OrderOutcome, action_handlers}
use genesys_cx_demo_harness.Gx.Schemas.{OrderActionIn, OrderActionOut}
use genesys_cx_demo_harness.Gx.Routes.Shared.{Response, Reply, parse_params, resolve}
use genesys_cx_demo_harness.Gx.Routes.Order.{finish_order, order_action_for, order_action}
use genesys_cx_demo_harness.Gx.Routes.Safety.{IsAtomic, rollback-clean, on_option, with_caller-case}

abbrev pub order_succeeded : Result (Response OrderActionOut) → Bool
order_succeeded (raised e) = false
order_succeeded (ok r) = r.body.ok

finish_order-IsAtomic :
    (s : Session) (action : Text) (r : Result (OrderOutcome × Db)) (IsWritten : Db → Type 0)
    → s.current ≡ s.committed
    → ((out : OrderOutcome) (db' : Db) → r ≡ ok (out, db') → out.ok ≡ true → IsWritten db')
    → IsAtomic s IsWritten (order_succeeded (finish_order s action r).0) (finish_order s action r).1
unfolding finish_order
finish_order-IsAtomic s action (raised e) IsWritten clean written = inr (refl, refl)
finish_order-IsAtomic s action (ok (outcome, db)) IsWritten clean written =
    elim (Bool-cases outcome.ok) [
      | inl good ↦ rw (good, finish_order) (inl (refl, written outcome db refl good, refl))
      | inr bad ↦ rw (bad, finish_order) (inr (refl, rollback-clean s db clean))
    ]

module _ ⦃platform : Platform⦄ where
  -- The tables are those that the verb makes of the session's, for the known caller, where the verb
  -- says that it succeeded.
  abbrev pub IsOrderWritten : Session → Tenant → OrderActionIn → Stamp → Db → Type 0
  IsOrderWritten s tenant payload stamp db' =
      (rollup : ProfileRollup) × (handler : Handler) × (params : Dict Param) × (out : OrderOutcome)
      × (resolve s.current tenant payload.identifier ≡ ok (some rollup))
      × (lookup payload.action action_handlers ≡ some handler)
      × (parse_params payload.params ≡ some params)
      × (handler s.current tenant rollup.party payload.target params stamp ≡ ok (out, db'))
      × (out.ok ≡ true)

  abbrev OrderAtomic : Session → (Db → Type 0) → Reply OrderActionOut → Type 0
  OrderAtomic s IsWritten reply = IsAtomic s IsWritten (order_succeeded reply.0) reply.1

  order_action_for-atomic :
      (s : Session) (tenant : Tenant) (payload : OrderActionIn) (stamp : Stamp)
      (rollup : ProfileRollup)
      → s.current ≡ s.committed
      → resolve s.current tenant payload.identifier ≡ ok (some rollup)
      → OrderAtomic s
          (IsOrderWritten s tenant payload stamp)
          (order_action_for s tenant payload stamp rollup)
  unfolding order_action_for
  order_action_for-atomic s tenant payload stamp rollup clean known =
      let P = OrderAtomic s (IsOrderWritten s tenant payload stamp) in
      on_option P _ _ (lookup payload.action action_handlers) (inr (refl, refl)) λ handler found.
        on_option P _ _ (parse_params payload.params) (inr (refl, refl)) λ params parsed.
          finish_order-IsAtomic s payload.action _ (IsOrderWritten s tenant payload stamp) clean
            (λ out db' done good. (rollup, handler, params, out, known, found, parsed, done, good))

  -- On a session with nothing pending, an order action either succeeds, and what is committed are
  -- the tables that the action's verb made of the session's for the known caller, a verb that said it
  -- succeeded; or it answers an error or raises, and leaves the session as it was.
  pub order_action-atomic :
      (s : Session) (tenant : Tenant) (payload : OrderActionIn) (stamp : Stamp)
      {reply : Result (Response OrderActionOut)} {s' : Session}
      → s.current ≡ s.committed
      → order_action s tenant payload stamp ≡ (reply, s')
      → ((order_succeeded reply ≡ true)
          × IsOrderWritten s tenant payload stamp s'.committed
          × (s'.current ≡ s'.committed))
        ⊎ ((order_succeeded reply ≡ false) × (s' ≡ s))
  unfolding order_action
  order_action-atomic s tenant payload stamp clean h =
      let P = OrderAtomic s (IsOrderWritten s tenant payload stamp) in
      subst P h (
        with_caller-case P s tenant payload.identifier _ _ (λ e. inr (refl, refl))
          (inr (refl, refl))
          (λ rollup. order_action_for-atomic s tenant payload stamp rollup clean))

  abbrev KeepsSound : Handler → Type 0
  KeepsSound handler =
      (db : Db) (tenant : Tenant) (party : Party) (target : Text) (params : Dict Param)
      (stamp : Stamp) (out : OrderOutcome) (db' : Db)
      → IsSound db
      → handler db tenant party target params stamp ≡ ok (out, db')
      → IsSound db'

  action_handlers-KeepsSound :
      (name : Text) {handler : Handler}
      → lookup name action_handlers ≡ some handler
      → KeepsSound handler
  action_handlers-KeepsSound name h =
      lookup-All KeepsSound name action_handlers
        (
          λ db tenant party target params stamp out db'.
              place-IsSound db tenant party target params stamp,
          (
            λ db tenant party target params stamp out db'.
                send_confirmation-IsSound db tenant party target params stamp,
            tt,
          ),
        )
        h

  finish_order-IsSound :
      (s : Session) (action : Text) (r : Result (OrderOutcome × Db))
      → IsSound s.committed
      → ((out : OrderOutcome) (db' : Db) → r ≡ ok (out, db') → IsSound db')
      → IsSound (finish_order s action r).1.committed
  unfolding finish_order
  finish_order-IsSound s action (raised e) sound keeps = sound
  finish_order-IsSound s action (ok (outcome, db)) sound keeps = elim (Bool-cases outcome.ok) [
    | inl good ↦ rw good (keeps outcome db refl)
    | inr bad ↦ rw bad sound
  ]

  order_action_for-IsSound :
      (s : Session) (tenant : Tenant) (payload : OrderActionIn) (stamp : Stamp)
      (rollup : ProfileRollup)
      → s.current ≡ s.committed
      → IsSound s.committed
      → IsSound (order_action_for s tenant payload stamp rollup).1.committed
  unfolding order_action_for
  order_action_for-IsSound s tenant payload stamp rollup clean sound =
      let P = λ (reply : Reply OrderActionOut). IsSound reply.1.committed in
      on_option P _ _ (lookup payload.action action_handlers) sound λ handler found.
        on_option P _ _ (parse_params payload.params) sound λ params parsed.
          finish_order-IsSound s payload.action _ sound λ out db' done.
            action_handlers-KeepsSound payload.action found s.current tenant rollup.party
              payload.target params stamp out db' (rw clean sound) done

  -- On a session with nothing pending, an order action keeps the committed orders sound, whatever
  -- it answers.
  pub order_action-IsSound :
      (s : Session) (tenant : Tenant) (payload : OrderActionIn) (stamp : Stamp)
      {reply : Result (Response OrderActionOut)} {s' : Session}
      → s.current ≡ s.committed
      → IsSound s.committed
      → order_action s tenant payload stamp ≡ (reply, s')
      → IsSound s'.committed
  unfolding order_action
  order_action-IsSound s tenant payload stamp clean sound h =
      let P = λ (reply : Reply OrderActionOut). IsSound reply.1.committed in
      subst P h (
        with_caller-case P s tenant payload.identifier _ _ (λ e. sound) sound
          (λ rollup known. order_action_for-IsSound s tenant payload stamp rollup clean sound))
