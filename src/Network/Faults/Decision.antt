-- ===== src/Network/Faults/Decision.antt =====
-- The verdict is the first configured fault whose detector fires.
use genesys_cx_demo_harness.Base.{
  ◌≡◌, refl, sym, ap, ◌∙◌, get_or, true, Text, lit, text_eq, text_eq→eq, Dict, lookup, insert,
  lookup-insert, List, [], ◌∷◌, ◌++◌, All, Option, none, some, Option-cases, Bool-cases, ◌⊎◌, inl,
  inr, arith,
}
use genesys_cx_demo_harness.Platform.{Platform}
use genesys_cx_demo_harness.Network.Config.{NetworkConfig}
use genesys_cx_demo_harness.Network.Home.{Topology}
use genesys_cx_demo_harness.Network.Faults.{
  no_fault, Finding, Detector, wan_degraded, device_band_stuck, extender_flapping, detectors,
  collect, detect_all, choose, build_verdict,
}

-- No name of the table stands there twice.
abbrev IsDistinct : Dict Detector → Type 0
IsDistinct [] = Unit
IsDistinct ((name, _) ∷ table) = (lookup name table ≡ none) × IsDistinct table

-- What the detector of a name finds; nothing, for a name that no detector has.
abbrev pub found_by : Dict Detector → Text → Topology → NetworkConfig → Option Finding
found_by table name t cfg = elim (lookup name table) [ none ↦ none | some d ↦ d t cfg ]

abbrev or_else : Option Finding → Option Finding → Option Finding
or_else none g = g
or_else (some f) g = some f

absent :
    (table : Dict Detector) (n name : Text)
    → text_eq name n ≡ true
    → lookup n table ≡ none
    → lookup name table ≡ none
absent table n name e h = rw (text_eq→eq name n e) h

lookup-collect :
    (t : Topology) (cfg : NetworkConfig) (table : Dict Detector) (findings : Dict Finding)
    (name : Text)
    → IsDistinct table
    → lookup name (collect t cfg table findings)
      ≡ or_else (found_by table name t cfg) (lookup name findings)
unfolding collect lookup
lookup-collect t cfg [] findings name h = refl
lookup-collect t cfg ((n, d) ∷ table) findings name h =
    let ih = λ (fs : Dict Finding). lookup-collect t cfg table fs name h.1 in
    let named = λ (e : text_eq name n ≡ true). absent table n name e h.0 in
    elim (Option-cases (d t cfg)) [
      | inl quiet ↦ elim (Bool-cases (text_eq name n)) [
        | inl e ↦ let k = named e in ground (arith, ih findings)
        | inr e ↦ ground (arith, ih findings)
      ]
      | inr (f, fires) ↦ elim (Bool-cases (text_eq name n)) [
        | inl e ↦
            let k = named e in
            ground (arith, ih (insert n f findings), lookup-insert n name f findings)
        | inr e ↦ ground (arith, ih (insert n f findings), lookup-insert n name f findings)
      ]
    ]

or_else-none : (f : Option Finding) → or_else f none ≡ f
or_else-none none = refl
or_else-none (some f) = refl

module _ ⦃platform : Platform⦄ where
  detectors-IsDistinct : IsDistinct detectors
  unfolding lookup text_eq
  detectors-IsDistinct = (refl, (refl, (refl, tt)))

  -- `detect_all` holds under each name exactly what the detector of that name finds.
  pub lookup-detect_all :
      (t : Topology) (cfg : NetworkConfig) (name : Text)
      → lookup name (detect_all t cfg) ≡ found_by detectors name t cfg
  unfolding detect_all
  lookup-detect_all t cfg name =
      lookup-collect t cfg detectors [] name detectors-IsDistinct
      ∙ (unfold lookup in or_else-none (found_by detectors name t cfg))

  wan_degraded-name :
      (t : Topology) (cfg : NetworkConfig) {f : Finding}
      → wan_degraded t cfg ≡ some f
      → f.fault_type ≡ lit "wan_degraded"
  unfolding wan_degraded
  wan_degraded-name t cfg h = ground arith

  device_band_stuck-name :
      (t : Topology) (cfg : NetworkConfig) {f : Finding}
      → device_band_stuck t cfg ≡ some f
      → f.fault_type ≡ lit "device_band_stuck"
  unfolding device_band_stuck
  device_band_stuck-name t cfg h = ground arith

  extender_flapping-name :
      (t : Topology) (cfg : NetworkConfig) {f : Finding}
      → extender_flapping t cfg ≡ some f
      → f.fault_type ≡ lit "extender_flapping"
  unfolding extender_flapping
  extender_flapping-name t cfg h = ground arith

  -- A finding carries the name of its detector.
  pub found_by-name :
      (t : Topology) (cfg : NetworkConfig) (name : Text) {f : Finding}
      → found_by detectors name t cfg ≡ some f
      → f.fault_type ≡ name
  unfolding lookup
  found_by-name t cfg name {f} h = elim (Bool-cases (text_eq name (lit "wan_degraded"))) [
    | inl e ↦ wan_degraded-name t cfg (rw (e, found_by) at h) ∙ sym (text_eq→eq _ _ e)
    | inr e ↦ elim (Bool-cases (text_eq name (lit "device_band_stuck"))) [
      | inl e' ↦ device_band_stuck-name t cfg (rw (e, e', found_by) at h) ∙ sym (text_eq→eq _ _ e')
      | inr e' ↦ elim (Bool-cases (text_eq name (lit "extender_flapping"))) [
        | inl x ↦
            extender_flapping-name t cfg (rw (e, e', x, found_by) at h) ∙ sym (text_eq→eq _ _ x)
        | inr x ↦ nothing (rw (e, e', x, found_by) at h)
      ]
    ]
  ]
    where
      nothing : ◌≡◌ {A = Option Finding} none (some f) → f.fault_type ≡ name
      nothing k = cc

  -- No detector of these names fires.
  abbrev pub Quiet : Topology → NetworkConfig → List Text → Type 0
  Quiet t cfg names = All (λ name. found_by detectors name t cfg ≡ none) names

  -- The first name that fires, with those before it quiet.
  pub record FirstFault (t : Topology) (cfg : NetworkConfig) (names : List Text) (f : Finding)
      : Type 0 where
    pub before : List Text
    pub name : Text
    pub after : List Text
    pub split : names ≡ before ++ name ∷ after
    pub quiet_before : Quiet t cfg before
    pub fires : found_by detectors name t cfg ≡ some f
    pub named : f.fault_type ≡ name

  choose-cases :
      (t : Topology) (cfg : NetworkConfig) (names : List Text)
      → ((choose names (detect_all t cfg) ≡ none) × Quiet t cfg names)
        ⊎ ((f : Finding) × (choose names (detect_all t cfg) ≡ some f) × FirstFault t cfg names f)
  unfolding choose
  choose-cases t cfg [] = inl (refl, tt)
  choose-cases t cfg (n ∷ names) = elim (Option-cases (found_by detectors n t cfg)) [
    | inr (f, fires) ↦ inr (
      f,
      rw (lookup-detect_all t cfg n ∙ fires, choose),
      record {
        before = [];
        name = n;
        after = names;
        split = refl;
        quiet_before = tt;
        fires = fires;
        named = found_by-name t cfg n fires;
      },
    )
    | inl quiet ↦
        rw (lookup-detect_all t cfg n ∙ quiet, choose)
          (elim (choose-cases t cfg names) [
            | inl (e, q) ↦ inl (e, (quiet, q))
            | inr (f, e, d) ↦ inr (
              f,
              e,
              record {
                before = n ∷ d.before;
                name = d.name;
                after = d.after;
                split = ap (λ l. n ∷ l) d.split;
                quiet_before = (quiet, d.quiet_before);
                fires = d.fires;
                named = d.named;
              },
            )
          ])
  ]

  -- Either no configured fault fires, and the verdict is `none` with no target, or the verdict is
  -- the first fault of the configured order whose detector fires, with the detector's target and
  -- the action that is configured for it.
  pub build_verdict-decides :
      (t : Topology) (cfg : NetworkConfig)
      → let v = build_verdict t cfg in
        ((v.fault_type ≡ no_fault) × (v.primary_target ≡ []) × Quiet t cfg cfg.fault_precedence)
        ⊎ ((f : Finding) × FirstFault t cfg cfg.fault_precedence f
            × (v.fault_type ≡ f.fault_type)
            × (v.primary_target ≡ f.target)
            × (v.primary_target_kind ≡ f.target_kind)
            × (v.primary_target_label ≡ f.target_label)
            × (v.recommended_action
                ≡ get_or (lookup f.fault_type cfg.recommended_actions) (lit "none")))
  unfolding build_verdict
  build_verdict-decides t cfg = elim (choose-cases t cfg cfg.fault_precedence) [
    | inl (e, q) ↦ inl (ground arith, ground arith, q)
    | inr (f, e, d) ↦
        inr (f, d, ground arith, ground arith, ground arith, ground arith, ground arith)
  ]
