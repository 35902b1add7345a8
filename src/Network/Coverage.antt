-- ===== src/Network/Coverage.antt =====
-- The coverage assessment (app/modules/network/coverage.py). The texts of `note` are values of
-- `Note`, with what each f-string interpolates.
use genesys_cx_demo_harness.Base.{
  ℕ, ◌+◌, Bool, true, false, not, ◌||◌, Text, text_eq, ℤ, pos, ltb_ℤ, leb_ℤ, ltb, leb, min_by, best,
  List, [], ◌∷◌, ◌++◌, map, filter, any, length, is_empty, Option, none, some, get_or, ◌==◌, ◌&&◌,
  if◌then◌else◌, IdDict, get_id, put_id,
}
use genesys_cx_demo_harness.Store.{AccessPoint, ConnectedDevice}
use genesys_cx_demo_harness.Network.Config.{NetworkConfig}
use genesys_cx_demo_harness.Network.Home.{Topology, extenders}

pub data Level : Type 0 where
  good weak : Level

-- `silent` is the empty text; `many` speaks of a number of devices, `single` of one.
pub data Note : Type 0 where
  silent : Note
  many : (count : ℕ) (area : Text) → Note
  single : (area : Text) → Note

pub record CoverageAssessment : Type 0 where
  pub level : Level
  pub note : Note
  pub device_count : ℕ
  pub worst_area : Text

-- `CoverageAssessment.is_weak`
abbrev pub is_weak : CoverageAssessment → Bool
is_weak a = elim a.level [ weak ↦ true | good ↦ false ]

-- `_is_edge`
unfoldable pub is_edge : NetworkConfig → ConnectedDevice → Bool
is_edge cfg d = ltb_ℤ d.rssi (
    if text_eq d.band cfg.steer_target_band
    then cfg.coverage.edge_rssi_5ghz_dbm
    else cfg.coverage.edge_rssi_24ghz_dbm)

abbrev pub id_in : ℕ → List ℕ → Bool
id_in i ids = any (λ j. i == j) ids

-- `{ap.ap_id: ap.label for ap in extenders}`: a later entry takes the place of an earlier one.
unfoldable pub labels_from : List AccessPoint → IdDict Text → IdDict Text
labels_from [] labels = labels
labels_from (ap ∷ aps) labels = labels_from aps (put_id ap.ap_id ap.label labels)

-- The loop that groups devices by extender.
unfoldable pub group_from :
    List ℕ → List ConnectedDevice → IdDict (List ConnectedDevice) → IdDict (List ConnectedDevice)
group_from ids [] groups = groups
group_from ids (d ∷ ds) groups = group_from ids ds (
    if id_in d.connected_ap_id ids
    then put_id d.connected_ap_id (get_or (get_id d.connected_ap_id groups) [] ++ d ∷ []) groups
    else groups)

-- `min(d.rssi for d in ds)`; no group is empty.
abbrev pub worst_rssi : List ConnectedDevice → ℤ
worst_rssi ds = elim (min_by (λ (d : ConnectedDevice). d.rssi) ds) [
  | none ↦ pos 0
  | some d ↦ d.rssi
]

-- The order of the keys `(len(ds), -min(rssi))`.
abbrev pub bigger_cluster : ℕ × List ConnectedDevice → ℕ × List ConnectedDevice → Bool
bigger_cluster (_, xs) (_, ys) =
    ltb (length ys) (length xs) || (length xs == length ys) && ltb_ℤ (worst_rssi xs) (worst_rssi ys)

abbrev pub weaker_signal : ℕ × ℤ → ℕ × ℤ → Bool
weaker_signal (_, x) (_, y) = ltb_ℤ x y

abbrev pub key_of {ℓ} : {V : Type ℓ} → Option (ℕ × V) → ℕ
key_of none = 0
key_of (some (k, _)) = k

unfoldable pub total_length : IdDict (List ConnectedDevice) → ℕ
total_length [] = 0
total_length ((_, ds) ∷ groups) = length ds + total_length groups

-- `{k: [d for d in ds if edge(d)] for k, ds in groups.items()}`, without the empty ones.
unfoldable pub edge_groups :
    NetworkConfig → IdDict (List ConnectedDevice) → IdDict (List ConnectedDevice)
edge_groups cfg groups =
    filter (λ (_, ds). not (is_empty ds)) (map (λ (k, ds). (k, filter (is_edge cfg) ds)) groups)

unfoldable pub cluster_hits :
    NetworkConfig → IdDict (List ConnectedDevice) → IdDict (List ConnectedDevice)
cluster_hits cfg edges =
    filter (λ (_, ds). leb_ℤ cfg.coverage.min_cluster_size (pos (length ds))) edges

unfoldable pub single_worst_hits : NetworkConfig → IdDict (List ConnectedDevice) → IdDict ℤ
single_worst_hits cfg groups =
    filter (λ (_, rssi). ltb_ℤ rssi cfg.coverage.single_worst_rssi_dbm)
      (map (λ (k, ds). (k, worst_rssi ds)) groups)

abbrev pub all_clear : CoverageAssessment
all_clear = record { level = good; note = silent; device_count = 0; worst_area = [] }

-- The extender that the weakness is reported for.
unfoldable pub area_id : IdDict (List ConnectedDevice) → IdDict ℤ → ℕ
area_id clusters singles =
    if is_empty clusters
    then key_of (best weaker_signal singles)
    else key_of (best bigger_cluster clusters)

abbrev pub note_for : ℕ → Text → Note
note_for n area = if leb 2 n then many n area else single area

unfoldable pub report : ℕ → Text → CoverageAssessment
report n area = record { level = weak; note = note_for n area; device_count = n; worst_area = area }

unfoldable pub assess_groups :
    NetworkConfig → IdDict Text → IdDict (List ConnectedDevice) → CoverageAssessment
assess_groups cfg labels groups =
    let edges = edge_groups cfg groups in
    let clusters = cluster_hits cfg edges in
    let singles = single_worst_hits cfg groups in
    let edge_count = total_length edges in
    if is_empty clusters && is_empty singles
    then all_clear
    else report (if edge_count == 0 then length singles else edge_count)
        (get_or (get_id (area_id clusters singles) labels) [])

unfoldable pub assess_coverage : Topology → NetworkConfig → CoverageAssessment
assess_coverage t cfg =
    let ids = map (λ (ap : AccessPoint). ap.ap_id) (extenders t) in
    assess_groups cfg (labels_from (extenders t) []) (group_from ids t.devices [])
