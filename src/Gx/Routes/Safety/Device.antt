-- ===== src/Gx/Routes/Safety/Device.antt =====
-- A device action commits all of what it answers for, or nothing.
use genesys_cx_demo_harness.Base.{
  ℕ, ◌≡◌, refl, ap, ◌∙◌, subst, Bool, true, false, Text, Dict, lookup, lookup-All, filter, some,
  ◌⊎◌, inl, inr, arith, Bool-cases,
}
use genesys_cx_demo_harness.Platform.{Platform, Param}
use genesys_cx_demo_harness.Store.{
  Tenant, Db, ConnectedDevice, AccessPoint, Session, Result, ok, raised, >>=-eq-ok, ◌>>=◌,
  scalar_one_or_none, Gateway,
}
use genesys_cx_demo_harness.Profile.{ProfileRollup}
use genesys_cx_demo_harness.Network.Home.{Topology, load_topology, home_of, scoped, has_nothing}
use genesys_cx_demo_harness.Network.Faults.{build_verdict}
use genesys_cx_demo_harness.Network.Config.{NetworkConfig, network_config}
use genesys_cx_demo_harness.Network.Actions.{
  ActionOutcome, Handler as NetworkHandler, action_handlers as network_handlers, steer_device,
  cycle_extender, cycle_ap, find_device, find_ap, wanted_band, band_steer, reboot_extender,
  reboot_ap,
}
use genesys_cx_demo_harness.Gx.Schemas.{DeviceActionIn, DeviceActionOut}
use genesys_cx_demo_harness.Gx.Routes.Shared.{Response, Reply, parse_params, resolve}
use genesys_cx_demo_harness.Gx.Routes.Network.{
  finish_device, run_verb, device_action_for, device_action,
}
use genesys_cx_demo_harness.Gx.Routes.Safety.{
  IsAtomic, rollback-clean, on_option, on_result, with_caller-case,
}

abbrev pub device_succeeded : Result (Response DeviceActionOut) → Bool
device_succeeded (raised e) = false
device_succeeded (ok r) = r.body.ok

abbrev KeepsGateways : NetworkHandler → Type 0
KeepsGateways handler =
    (db : Db) (t : Topology) (target : Text) (params : Dict Param) (cfg : NetworkConfig)
    → (handler db t target params cfg).1.gateways ≡ db.gateways

steer_device-gateways :
    (db : Db) (t : Topology) (d : ConnectedDevice) (band : Text) (cfg : NetworkConfig)
    → (steer_device db t d band cfg).1.gateways ≡ db.gateways
unfolding steer_device
steer_device-gateways db t d band cfg = ground arith

cycle_extender-gateways :
    (db : Db) (a : AccessPoint) (cfg : NetworkConfig)
    → (cycle_extender db a cfg).1.gateways ≡ db.gateways
unfolding cycle_extender
cycle_extender-gateways db a cfg = ground arith

module _ ⦃platform : Platform⦄ where
  band_steer-gateways : KeepsGateways band_steer
  unfolding band_steer
  band_steer-gateways db t target params cfg =
      on_option (λ (r : ActionOutcome × Db). r.1.gateways ≡ db.gateways) _ _ (find_device t target)
        refl (λ d e. steer_device-gateways db t d (wanted_band params cfg) cfg)

  reboot_extender-gateways : KeepsGateways reboot_extender
  unfolding reboot_extender
  reboot_extender-gateways db t target params cfg =
      on_option (λ (r : ActionOutcome × Db). r.1.gateways ≡ db.gateways) _ _ (find_ap t target) refl
        (λ a e. cycle_extender-gateways db a cfg)

  reboot_ap-gateways : KeepsGateways reboot_ap
  unfolding reboot_ap cycle_ap
  reboot_ap-gateways db t target params cfg =
      on_option (λ (r : ActionOutcome × Db). r.1.gateways ≡ db.gateways) _ _ (find_ap t target) refl
        (λ a e. refl)

  action_handlers-KeepsGateways :
      (name : Text) {handler : NetworkHandler}
      → lookup name network_handlers ≡ some handler
      → KeepsGateways handler
  action_handlers-KeepsGateways name h =
      lookup-All KeepsGateways name network_handlers
        (band_steer-gateways, (reboot_extender-gateways, (reboot_ap-gateways, tt))) h

  load-same_gateways :
      (db db' : Db) (tenant : Tenant) (party : ℕ) {t : Topology}
      → db'.gateways ≡ db.gateways
      → load_topology db tenant party ≡ ok t
      → (t' : Topology) × (load_topology db' tenant party ≡ ok t')
  unfolding load_topology
  load-same_gateways db db' tenant party same h =
      let mine = filter (λ (g : Gateway). scoped tenant.tenant_id party g.tenant_id g.party_id) in
      let (g, e, k) =
        >>=-eq-ok (scalar_one_or_none (mine db.gateways)) (λ g. ok (home_of db tenant party g)) h in
      let e' : scalar_one_or_none (mine db'.gateways) ≡ ok g =
        ap (λ gs. scalar_one_or_none (mine gs)) same ∙ e in
      (home_of db' tenant party g, ap (λ r. r >>= λ g. ok (home_of db' tenant party g)) e')

  -- The tables are those that the verb makes of the session's, on the known caller's home, where the
  -- verb says that it succeeded.
  abbrev pub IsDeviceWritten : Session → Tenant → DeviceActionIn → Db → Type 0
  IsDeviceWritten s tenant payload db' =
      (rollup : ProfileRollup) × (handler : NetworkHandler) × (params : Dict Param) × (t : Topology)
      × (out : ActionOutcome) × (resolve s.current tenant payload.identifier ≡ ok (some rollup))
      × (lookup payload.action network_handlers ≡ some handler)
      × (parse_params payload.params ≡ some params)
      × (load_topology s.current tenant rollup.party.party_id ≡ ok t)
      × (handler s.current t payload.target params (network_config tenant) ≡ (out, db'))
      × (out.ok ≡ true)

  abbrev DeviceAtomic : Session → (Db → Type 0) → Reply DeviceActionOut → Type 0
  DeviceAtomic s IsWritten reply = IsAtomic s IsWritten (device_succeeded reply.0) reply.1

  finish_device-atomic :
      (s : Session) (tenant : Tenant) (payload : DeviceActionIn) (party : ℕ) (fault : Text)
      (r : ActionOutcome × Db) (IsWritten : Db → Type 0) {t : Topology}
      → s.current ≡ s.committed
      → load_topology r.1 tenant party ≡ ok t
      → (r.0.ok ≡ true → IsWritten r.1)
      → DeviceAtomic s IsWritten (finish_device s tenant payload party fault r)
  unfolding finish_device
  finish_device-atomic s tenant payload party fault (outcome, db) IsWritten clean e written =
      elim (Bool-cases outcome.ok) [
        | inl good ↦ rw (good, e, finish_device) (inl (refl, written good, refl))
        | inr bad ↦ rw (bad, finish_device) (inr (refl, rollback-clean s db clean))
      ]

  run_verb-atomic :
      (s : Session) (tenant : Tenant) (payload : DeviceActionIn) (rollup : ProfileRollup)
      (handler : NetworkHandler) (params : Dict Param)
      → s.current ≡ s.committed
      → KeepsGateways handler
      → resolve s.current tenant payload.identifier ≡ ok (some rollup)
      → lookup payload.action network_handlers ≡ some handler
      → parse_params payload.params ≡ some params
      → DeviceAtomic s
          (IsDeviceWritten s tenant payload)
          (run_verb s tenant payload rollup handler params)
  unfolding run_verb
  run_verb-atomic s tenant payload rollup handler params clean keeps known found parsed =
      on_result (DeviceAtomic s (IsDeviceWritten s tenant payload)) _ _
        (load_topology s.current tenant rollup.party.party_id) (λ e. inr (refl, refl))
        λ t loaded. elim (Bool-cases (has_nothing t)) [
          | inl empty ↦ rw empty (inr (refl, refl))
          | inr some_home ↦
              let cfg = network_config tenant in
              let r = handler s.current t payload.target params cfg in
              let (t', again) =
                load-same_gateways s.current r.1 tenant rollup.party.party_id
                  (keeps s.current t payload.target params cfg) loaded in
              rw some_home (
                finish_device-atomic s tenant payload rollup.party.party_id
                  (build_verdict t cfg).fault_type r (IsDeviceWritten s tenant payload) clean again
                  (λ good.
                    (rollup, handler, params, t, r.0, known, found, parsed, loaded, refl, good)))
        ]

  device_action_for-atomic :
      (s : Session) (tenant : Tenant) (payload : DeviceActionIn) (rollup : ProfileRollup)
      → s.current ≡ s.committed
      → resolve s.current tenant payload.identifier ≡ ok (some rollup)
      → DeviceAtomic s
          (IsDeviceWritten s tenant payload)
          (device_action_for s tenant payload rollup)
  unfolding device_action_for
  device_action_for-atomic s tenant payload rollup clean known =
      let P = DeviceAtomic s (IsDeviceWritten s tenant payload) in
      on_option P _ _ (lookup payload.action network_handlers) (inr (refl, refl)) λ handler found.
        on_option P _ _ (parse_params payload.params) (inr (refl, refl)) λ params parsed.
          run_verb-atomic s tenant payload rollup handler params clean
            (action_handlers-KeepsGateways payload.action found) known found parsed

  -- On a session with nothing pending, a device action either succeeds, and what is committed are
  -- the tables that the action's verb made of the session's on the known caller's home, a verb that
  -- said it succeeded; or it answers an error or raises, and leaves the session as it was.
  pub device_action-atomic :
      (s : Session) (tenant : Tenant) (payload : DeviceActionIn)
      {reply : Result (Response DeviceActionOut)} {s' : Session}
      → s.current ≡ s.committed
      → device_action s tenant payload ≡ (reply, s')
      → ((device_succeeded reply ≡ true)
          × IsDeviceWritten s tenant payload s'.committed
          × (s'.current ≡ s'.committed))
        ⊎ ((device_succeeded reply ≡ false) × (s' ≡ s))
  unfolding device_action
  device_action-atomic s tenant payload clean h =
      let P = DeviceAtomic s (IsDeviceWritten s tenant payload) in
      subst P h (
        with_caller-case P s tenant payload.identifier _ _ (λ e. inr (refl, refl))
          (inr (refl, refl)) (λ rollup. device_action_for-atomic s tenant payload rollup clean))
