-- ===== src/Store/Tables.antt =====
-- The tables, and a request's session (app/db.py): what is committed, and what the open
-- transaction sees. `scalar_one_or_none` raises MultipleResultsFound on a second row.
use genesys_cx_demo_harness.Base.{Text, List, [], ◌∷◌, Option, none, some, ◌≡◌, refl, ap}
use genesys_cx_demo_harness.Store.Spine.{Tenant, Party, Identity, Verification, ContactPoint}
use genesys_cx_demo_harness.Store.Home.{Gateway, AccessPoint, Radio, ConnectedDevice}
use genesys_cx_demo_harness.Store.Journal.{CustomerOrder, Event, ScenarioEvent}

pub record Db : Type 0 where
  pub tenants : List Tenant
  pub parties : List Party
  pub identities : List Identity
  pub verifications : List Verification
  pub contact_points : List ContactPoint
  pub gateways : List Gateway
  pub access_points : List AccessPoint
  pub radios : List Radio
  pub devices : List ConnectedDevice
  pub events : List Event
  pub orders : List CustomerOrder
  pub scenario_events : List ScenarioEvent

pub record Session : Type 0 where
  pub committed : Db
  pub current : Db

abbrev pub commit : Session → Session
commit s = record s { committed = s.current }

abbrev pub rollback : Session → Session
rollback s = record s { current = s.committed }

-- What a call may raise: a query for one row that finds two, an error that the module itself
-- raises, a statement that the database refuses, or an exception of Python that nothing catches.
pub data Error : Type 0 where
  multiple_results_found : Error
  unknown_eligibility_rule : Text → Error
  unknown_tenant : Text → Error
  dangling_party : Error
  scenario_not_found : Text → Error
  scenario_error : Text → Error
  key_error : Error
  index_error : Error
  format_error : Error
  zero_division : Error
  pack_not_found : Text → Error
  statement_error : Error
  type_error : Error
  invalid_credentials : Error
  nested_contract : Text → Error
  missing_contract_field : Text → Error
  unescaped_input : Text → Error
  optional_referenced_input : Text → Error
  ava_compliance : Text → Error

pub data Result {ℓ} (A : Type ℓ) : Type ℓ where
  ok : A → Result A
  raised : Error → Result A

infixl 5 ◌>>=◌
abbrev pub ◌>>=◌ {ℓ κ} : {A : Type ℓ} {B : Type κ} → Result A → (A → Result B) → Result B
ok a >>= f = f a
raised e >>= f = raised e

-- A chain that returned got a value from its first call and returned what the second made of it.
pub >>=-eq-ok {ℓ κ} :
    {B : Type κ} {A : Type ℓ} {result : B} (call : Result A) (next : A → Result B)
    → (call >>= next) ≡ ok result
    → (x : A) × (call ≡ ok x) × (next x ≡ ok result)
>>=-eq-ok (raised e) next done = cc
>>=-eq-ok (ok x) next done = (x, refl, done)

-- A chain whose first call returned is what the second makes of it.
pub >>=-ok {ℓ κ} :
    {A : Type ℓ} {B : Type κ} {call : Result A} {x : A} (next : A → Result B)
    → call ≡ ok x
    → (call >>= next) ≡ next x
>>=-ok next e = ap (λ c. c >>= next) e

pub ok_injective {ℓ} : {A : Type ℓ} {a b : A} → ok a ≡ ok b → a ≡ b
ok_injective h = cc

-- `.scalar_one_or_none()` on the rows of a query.
abbrev pub scalar_one_or_none {ℓ} : {A : Type ℓ} → List A → Result (Option A)
scalar_one_or_none [] = ok none
scalar_one_or_none (x ∷ []) = ok (some x)
scalar_one_or_none (x ∷ y ∷ xs) = raised multiple_results_found
