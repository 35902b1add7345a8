-- ===== src/Scenarios/Columns.antt =====
-- The entities that a scenario may address, with their columns (ENTITIES and PROTECTED_FIELDS of
-- app/scenarios/engine.py, over app/modules/network/models.py).
use genesys_cx_demo_harness.Base.{
  ℕ, Bool, true, false, not, ◌&&◌, Text, lit, one_of, Dict, ℤ, List, [], ◌∷◌, map, filter, Option,
  none, some,
}
use genesys_cx_demo_harness.Store.{Gateway, AccessPoint, Radio, ConnectedDevice}

-- A column's value. `updated_at` has no field, so its value is known by the row's key.
pub data Cell : Type 0 where
  id : ℕ → Cell
  text : Text → Cell
  int : ℤ → Cell
  flag : Bool → Cell
  touched : ℕ → Cell

-- A column of a table: whether it is the primary key or a foreign key, how it is read, and how a
-- row is with another value in it (`none` where the value is not of the column's type).
pub record Column (Row : Type 0) : Type 0 where
  pub name : Text
  pub primary_key : Bool
  pub foreign_key : Bool
  pub get : Row → Cell
  pub put : Cell → Row → Option Row

module _ {Row : Type 0} where
  abbrev key_column : Text → Bool → (Row → ℕ) → (ℕ → Row → Row) → Column Row
  key_column name primary get put = record {
    name = name;
    primary_key = primary;
    foreign_key = not primary;
    get = λ r. Cell.id (get r);
    put = λ c r. elim c [ Cell.id n ↦ some (put n r) | _ ↦ none ];
  }

  abbrev plain : Text → (Row → Cell) → (Cell → Row → Option Row) → Column Row
  plain name get put = record {
    name = name;
    primary_key = false;
    foreign_key = false;
    get = get;
    put = put;
  }

  abbrev text_column : Text → (Row → Text) → (Text → Row → Row) → Column Row
  text_column name get put =
      plain name (λ r. Cell.text (get r))
        (λ c r. elim c [ Cell.text t ↦ some (put t r) | _ ↦ none ])

  abbrev int_column : Text → (Row → ℤ) → (ℤ → Row → Row) → Column Row
  int_column name get put =
      plain name (λ r. Cell.int (get r)) (λ c r. elim c [ Cell.int n ↦ some (put n r) | _ ↦ none ])

  abbrev flag_column : Text → (Row → Bool) → (Bool → Row → Row) → Column Row
  flag_column name get put =
      plain name (λ r. Cell.flag (get r))
        (λ c r. elim c [ Cell.flag b ↦ some (put b r) | _ ↦ none ])

  abbrev pub updated_at : (Row → ℕ) → Column Row
  updated_at key =
      plain (lit "updated_at") (λ r. Cell.touched (key r))
        (λ c r. elim c [ Cell.touched n ↦ some r | _ ↦ none ])

abbrev pub gateway_columns : List (Column Gateway)
gateway_columns =
    key_column (lit "gateway_id") true (λ r. r.gateway_id) (λ v r. record r { gateway_id = v })
    ∷ key_column (lit "tenant_id") false (λ r. r.tenant_id) (λ v r. record r { tenant_id = v })
    ∷ key_column (lit "party_id") false (λ r. r.party_id) (λ v r. record r { party_id = v })
    ∷ text_column (lit "seed_key") (λ r. r.seed_key) (λ v r. record r { seed_key = v })
    ∷ text_column (lit "model") (λ r. r.model) (λ v r. record r { model = v })
    ∷ text_column (lit "wan_status") (λ r. r.wan_status) (λ v r. record r { wan_status = v })
    ∷ int_column (lit "uptime_s") (λ r. r.uptime_s) (λ v r. record r { uptime_s = v })
    ∷ updated_at (λ r. r.gateway_id)
    ∷ []

abbrev pub access_point_columns : List (Column AccessPoint)
access_point_columns =
    key_column (lit "ap_id") true (λ r. r.ap_id) (λ v r. record r { ap_id = v })
    ∷ key_column (lit "tenant_id") false (λ r. r.tenant_id) (λ v r. record r { tenant_id = v })
    ∷ key_column (lit "party_id") false (λ r. r.party_id) (λ v r. record r { party_id = v })
    ∷ text_column (lit "seed_key") (λ r. r.seed_key) (λ v r. record r { seed_key = v })
    ∷ text_column (lit "label") (λ r. r.label) (λ v r. record r { label = v })
    ∷ text_column (lit "kind") (λ r. r.kind) (λ v r. record r { kind = v })
    ∷ text_column (lit "model") (λ r. r.model) (λ v r. record r { model = v })
    ∷ text_column (lit "status") (λ r. r.status) (λ v r. record r { status = v })
    ∷ int_column (lit "backhaul_quality") (λ r. r.backhaul_quality)
        (λ v r. record r { backhaul_quality = v })
    ∷ updated_at (λ r. r.ap_id)
    ∷ []

abbrev pub radio_columns : List (Column Radio)
radio_columns =
    key_column (lit "radio_id") true (λ r. r.radio_id) (λ v r. record r { radio_id = v })
    ∷ key_column (lit "tenant_id") false (λ r. r.tenant_id) (λ v r. record r { tenant_id = v })
    ∷ key_column (lit "party_id") false (λ r. r.party_id) (λ v r. record r { party_id = v })
    ∷ key_column (lit "ap_id") false (λ r. r.ap_id) (λ v r. record r { ap_id = v })
    ∷ text_column (lit "seed_key") (λ r. r.seed_key) (λ v r. record r { seed_key = v })
    ∷ text_column (lit "band") (λ r. r.band) (λ v r. record r { band = v })
    ∷ int_column (lit "channel") (λ r. r.channel) (λ v r. record r { channel = v })
    ∷ int_column (lit "utilization") (λ r. r.utilization) (λ v r. record r { utilization = v })
    ∷ []

abbrev pub connected_device_columns : List (Column ConnectedDevice)
connected_device_columns =
    key_column (lit "device_id") true (λ r. r.device_id) (λ v r. record r { device_id = v })
    ∷ key_column (lit "tenant_id") false (λ r. r.tenant_id) (λ v r. record r { tenant_id = v })
    ∷ key_column (lit "party_id") false (λ r. r.party_id) (λ v r. record r { party_id = v })
    ∷ key_column (lit "connected_ap_id") false (λ r. r.connected_ap_id)
        (λ v r. record r { connected_ap_id = v })
    ∷ text_column (lit "seed_key") (λ r. r.seed_key) (λ v r. record r { seed_key = v })
    ∷ text_column (lit "label") (λ r. r.label) (λ v r. record r { label = v })
    ∷ text_column (lit "kind") (λ r. r.kind) (λ v r. record r { kind = v })
    ∷ text_column (lit "mac") (λ r. r.mac) (λ v r. record r { mac = v })
    ∷ text_column (lit "band") (λ r. r.band) (λ v r. record r { band = v })
    ∷ int_column (lit "rssi") (λ r. r.rssi) (λ v r. record r { rssi = v })
    ∷ flag_column (lit "steer_eligible") (λ r. r.steer_eligible)
        (λ v r. record r { steer_eligible = v })
    ∷ updated_at (λ r. r.device_id)
    ∷ []

-- The keys of ENTITIES.
pub data Entity : Type 0 where
  gateway : Entity
  access_point : Entity
  radio : Entity
  connected_device : Entity

unfoldable pub entities : Dict Entity
entities =
    (lit "gateway", gateway)
    ∷ (lit "access_point", access_point)
    ∷ (lit "radio", radio)
    ∷ (lit "connected_device", connected_device)
    ∷ []

abbrev protected_fields : List Text
protected_fields = lit "tenant_id" ∷ lit "party_id" ∷ lit "seed_key" ∷ lit "updated_at" ∷ []

abbrev names : {Row : Type 0} → List (Column Row) → List Text
names cs = map (λ c. c.name) cs

-- `_model_columns`
unfoldable pub model_columns : Entity → List Text
model_columns gateway = names gateway_columns
model_columns access_point = names access_point_columns
model_columns radio = names radio_columns
model_columns connected_device = names connected_device_columns

abbrev may_set : {Row : Type 0} → Column Row → Bool
may_set c = not c.primary_key && (not c.foreign_key && not (one_of c.name protected_fields))

-- `_settable`
unfoldable pub settable : Entity → List Text
settable gateway = names (filter may_set gateway_columns)
settable access_point = names (filter may_set access_point_columns)
settable radio = names (filter may_set radio_columns)
settable connected_device = names (filter may_set connected_device_columns)
