-- ===== src/Gx/Routes/Safety.antt =====
pub mod Order
pub mod Device
-- The routes that write: what a caller sees and what is committed agree.
use genesys_cx_demo_harness.Base.{
  ℕ, ◌≡◌, refl, sym, ap, subst, Bool, true, false, Text, Dict, lookup, [], Option, none, some,
  if◌then◌else◌, ◌⊎◌, inl, inr, arith, Bool-cases,
}
use genesys_cx_demo_harness.Platform.{Platform, Param}
use genesys_cx_demo_harness.Store.{
  Tenant, Db, ConnectedDevice, AccessPoint, Session, commit, rollback, Error, Result, ok, raised,
}
use genesys_cx_demo_harness.Events.{Stamp}
use genesys_cx_demo_harness.Profile.{ProfileRollup}
use genesys_cx_demo_harness.Network.Home.{Topology, load_topology}
use genesys_cx_demo_harness.Network.Config.{NetworkConfig, network_config}
use genesys_cx_demo_harness.Network.Actions.{
  ActionOutcome, Handler as NetworkHandler, action_handlers as network_handlers, steer_device,
  cycle_extender, cycle_ap, find_device, find_ap, wanted_band, band_steer, reboot_extender,
  reboot_ap,
}
use genesys_cx_demo_harness.Orders.Actions.{OrderOutcome, action_handlers}
use genesys_cx_demo_harness.Gx.Schemas.{
  OrderActionIn, OrderActionOut, DeviceActionIn, DeviceActionOut,
}
use genesys_cx_demo_harness.Gx.Routes.Shared.{
  Response, Reply, respond, parse_params, resolve, with_caller,
}
use genesys_cx_demo_harness.Gx.Routes.Order.{finish_order, order_action_for, order_action}
use genesys_cx_demo_harness.Gx.Routes.Network.{
  finish_device, run_verb, device_action_for, device_action,
}

-- Either the request succeeded and what it wrote is committed, or it did not and the session is as
-- it was.
abbrev pub IsAtomic : Session → (Db → Type 0) → Bool → Session → Type 0
IsAtomic s IsWritten succeeded s' =
    ((succeeded ≡ true) × IsWritten s'.committed × (s'.current ≡ s'.committed))
    ⊎ ((succeeded ≡ false) × (s' ≡ s))

pub rollback-clean :
    (s : Session) (db : Db) → s.current ≡ s.committed → rollback (record s { current = db }) ≡ s
rollback-clean s db clean = ap (λ (c : Db). record s { current = c }) (sym clean)

pub on_option {ℓ κ ι} :
    {A : Type ℓ} {B : Type κ} (P : B → Type ι) (n : B) (f : A → B) (o : Option A)
    → P n
    → ((a : A) → o ≡ some a → P (f a))
    → P (elim o [ none ↦ n | some a ↦ f a ])
on_option P n f none p q = p
on_option P n f (some a) p q = q a refl

pub on_result {ℓ κ ι} :
    {A : Type ℓ} {B : Type κ} (P : B → Type ι) (n : Error → B) (f : A → B) (r : Result A)
    → ((e : Error) → P (n e))
    → ((a : A) → r ≡ ok a → P (f a))
    → P (elim r [ raised e ↦ n e | ok a ↦ f a ])
on_result P n f (raised e) p q = p e
on_result P n f (ok a) p q = q a refl

module _ ⦃platform : Platform⦄ where
  pub with_caller-case :
      {A : Type 0} (P : Reply A → Type 0) (s : Session) (tenant : Tenant) (identifier : Text)
      (missing : Reply A) (found : ProfileRollup → Reply A)
      → ((e : Error) → P (raised e, s))
      → P missing
      → ((r : ProfileRollup) → resolve s.current tenant identifier ≡ ok (some r) → P (found r))
      → P (with_caller s tenant identifier missing found)
  with_caller-case P s tenant identifier missing found r m f =
      on_result P _ _ (resolve s.current tenant identifier) r
        (λ o e. on_option P missing found o m (λ rollup is_some. f rollup (rw is_some at e)))
