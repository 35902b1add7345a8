-- ===== src/Scenarios/Kept.antt =====
-- What assigning a column that may be set leaves of a row.
use genesys_cx_demo_harness.Base.{
  ℕ, ◌≡◌, refl, Bool, true, Text, one_of, text_eq, text_eq→eq, ℤ, List, find, All, All-mem,
  find-mem, find_passes, Option, none, some, Option-cases, inl, inr, subst,
}
use mathlib.Core.Bool.{false≢true}
use genesys_cx_demo_harness.Store.{Gateway, AccessPoint, Radio, ConnectedDevice, ok}
use genesys_cx_demo_harness.Scenarios.Columns.{
  Cell, Column, gateway, access_point, radio, connected_device, settable, gateway_columns,
  access_point_columns, radio_columns, connected_device_columns,
}
use genesys_cx_demo_harness.Scenarios.Statements.{column}

module _ {Row : Type 0} (ids : Row → ℕ × ℕ × ℕ × Text) where
  text_put :
      (put : Text → Row → Row)
      → ((v : Text) (r : Row) → ids (put v r) ≡ ids r)
      → (cell : Cell) (r r' : Row)
      → (elim cell as (λ c. Option Row) [ Cell.text v ↦ some (put v r) | _ ↦ none ]) ≡ some r'
      → ids r' ≡ ids r
  text_put put same (Cell.text v) r r' e =
      let it : put v r ≡ r' = cc in subst (λ (x : Row). ids x ≡ ids r) it (same v r)
  text_put put same (Cell.id v) r r' e = cc
  text_put put same (Cell.int v) r r' e = cc
  text_put put same (Cell.flag v) r r' e = cc
  text_put put same (Cell.touched v) r r' e = cc

  int_put :
      (put : ℤ → Row → Row)
      → ((v : ℤ) (r : Row) → ids (put v r) ≡ ids r)
      → (cell : Cell) (r r' : Row)
      → (elim cell as (λ c. Option Row) [ Cell.int v ↦ some (put v r) | _ ↦ none ]) ≡ some r'
      → ids r' ≡ ids r
  int_put put same (Cell.int v) r r' e =
      let it : put v r ≡ r' = cc in subst (λ (x : Row). ids x ≡ ids r) it (same v r)
  int_put put same (Cell.id v) r r' e = cc
  int_put put same (Cell.text v) r r' e = cc
  int_put put same (Cell.flag v) r r' e = cc
  int_put put same (Cell.touched v) r r' e = cc

  flag_put :
      (put : Bool → Row → Row)
      → ((v : Bool) (r : Row) → ids (put v r) ≡ ids r)
      → (cell : Cell) (r r' : Row)
      → (elim cell as (λ c. Option Row) [ Cell.flag v ↦ some (put v r) | _ ↦ none ]) ≡ some r'
      → ids r' ≡ ids r
  flag_put put same (Cell.flag v) r r' e =
      let it : put v r ≡ r' = cc in subst (λ (x : Row). ids x ≡ ids r) it (same v r)
  flag_put put same (Cell.id v) r r' e = cc
  flag_put put same (Cell.text v) r r' e = cc
  flag_put put same (Cell.int v) r r' e = cc
  flag_put put same (Cell.touched v) r r' e = cc

module _ {Row : Type 0} (ids : Row → ℕ × ℕ × ℕ × Text) (allowed : List Text) where
  -- Assigning the column, where that is allowed, leaves the row's keys, its owner and its name.
  unfoldable pub IsKeeping : Column Row → Type 0
  IsKeeping c =
      one_of c.name allowed ≡ true
      → (cell : Cell) (r r' : Row) → c.put cell r ≡ some r'
      → ids r' ≡ ids r

  -- The column of a name that may be set leaves them.
  pub column-IsKeeping :
      (cs : List (Column Row)) (name : Text) {c : Column Row}
      → All IsKeeping cs
      → one_of name allowed ≡ true
      → column cs name ≡ ok c
      → (cell : Cell) (r r' : Row) → c.put cell r ≡ some r'
      → ids r' ≡ ids r
  unfolding column IsKeeping
  column-IsKeeping cs name {c} keeping may h =
      elim (Option-cases (find (λ (c : Column Row). text_eq c.name name) cs)) [
        | inl missing ↦ absurd (let bad = rw missing at h in cc)
        | inr (d, found) ↦
            let it : d ≡ c = (let e = rw found at h in cc) in
            let hit = rw it at found in
            All-mem _ cs keeping (find-mem _ cs hit)
              (rw (text_eq→eq c.name name (find_passes _ cs hit)) may)
      ]

abbrev pub gateway_ids : Gateway → ℕ × ℕ × ℕ × Text
gateway_ids g = (g.gateway_id, g.tenant_id, g.party_id, g.seed_key)

abbrev pub access_point_ids : AccessPoint → ℕ × ℕ × ℕ × Text
access_point_ids a = (a.ap_id, a.tenant_id, a.party_id, a.seed_key)

abbrev pub radio_ids : Radio → ℕ × ℕ × ℕ × Text
radio_ids r = (r.radio_id, r.tenant_id, r.party_id, r.seed_key)

abbrev pub device_ids : ConnectedDevice → ℕ × ℕ × ℕ × Text
device_ids d = (d.device_id, d.tenant_id, d.party_id, d.seed_key)

pub gateways-keep : All (IsKeeping gateway_ids (settable gateway)) gateway_columns
unfolding settable IsKeeping one_of text_eq
gateways-keep = (
  (λ m c r s e. absurd (false≢true m)),
  (
    (λ m c r s e. absurd (false≢true m)),
    (
      (λ m c r s e. absurd (false≢true m)),
      (
        (λ m c r s e. absurd (false≢true m)),
        (
          (λ m. text_put gateway_ids (λ v r. record r { model = v }) (λ v r. refl)),
          (
            (λ m. text_put gateway_ids (λ v r. record r { wan_status = v }) (λ v r. refl)),
            (
              (λ m. int_put gateway_ids (λ v r. record r { uptime_s = v }) (λ v r. refl)),
              ((λ m c r s e. absurd (false≢true m)), tt),
            ),
          ),
        ),
      ),
    ),
  ),
)

pub access_points-keep :
    All (IsKeeping access_point_ids (settable access_point)) access_point_columns
unfolding settable IsKeeping one_of text_eq
access_points-keep = (
  (λ m c r s e. absurd (false≢true m)),
  (
    (λ m c r s e. absurd (false≢true m)),
    (
      (λ m c r s e. absurd (false≢true m)),
      (
        (λ m c r s e. absurd (false≢true m)),
        (
          (λ m. text_put access_point_ids (λ v r. record r { label = v }) (λ v r. refl)),
          (
            (λ m. text_put access_point_ids (λ v r. record r { kind = v }) (λ v r. refl)),
            (
              (λ m. text_put access_point_ids (λ v r. record r { model = v }) (λ v r. refl)),
              (
                (λ m. text_put access_point_ids (λ v r. record r { status = v }) (λ v r. refl)),
                (
                  (λ m.
                      int_put access_point_ids (λ v r. record r { backhaul_quality = v })
                        (λ v r. refl)),
                  ((λ m c r s e. absurd (false≢true m)), tt),
                ),
              ),
            ),
          ),
        ),
      ),
    ),
  ),
)

pub radios-keep : All (IsKeeping radio_ids (settable radio)) radio_columns
unfolding settable IsKeeping one_of text_eq
radios-keep = (
  (λ m c r s e. absurd (false≢true m)),
  (
    (λ m c r s e. absurd (false≢true m)),
    (
      (λ m c r s e. absurd (false≢true m)),
      (
        (λ m c r s e. absurd (false≢true m)),
        (
          (λ m c r s e. absurd (false≢true m)),
          (
            (λ m. text_put radio_ids (λ v r. record r { band = v }) (λ v r. refl)),
            (
              (λ m. int_put radio_ids (λ v r. record r { channel = v }) (λ v r. refl)),
              ((λ m. int_put radio_ids (λ v r. record r { utilization = v }) (λ v r. refl)), tt),
            ),
          ),
        ),
      ),
    ),
  ),
)

pub devices-keep : All (IsKeeping device_ids (settable connected_device)) connected_device_columns
unfolding settable IsKeeping one_of text_eq
devices-keep = (
  (λ m c r s e. absurd (false≢true m)),
  (
    (λ m c r s e. absurd (false≢true m)),
    (
      (λ m c r s e. absurd (false≢true m)),
      (
        (λ m c r s e. absurd (false≢true m)),
        (
          (λ m c r s e. absurd (false≢true m)),
          (
            (λ m. text_put device_ids (λ v r. record r { label = v }) (λ v r. refl)),
            (
              (λ m. text_put device_ids (λ v r. record r { kind = v }) (λ v r. refl)),
              (
                (λ m. text_put device_ids (λ v r. record r { mac = v }) (λ v r. refl)),
                (
                  (λ m. text_put device_ids (λ v r. record r { band = v }) (λ v r. refl)),
                  (
                    (λ m. int_put device_ids (λ v r. record r { rssi = v }) (λ v r. refl)),
                    (
                      (λ m.
                          flag_put device_ids (λ v r. record r { steer_eligible = v })
                            (λ v r. refl)),
                      ((λ m c r s e. absurd (false≢true m)), tt),
                    ),
                  ),
                ),
              ),
            ),
          ),
        ),
      ),
    ),
  ),
)
