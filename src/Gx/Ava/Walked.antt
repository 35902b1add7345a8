-- ===== src/Gx/Ava/Walked.antt =====
-- What a check that passed found at each place that it reaches.
use genesys_cx_demo_harness.Base.{
  ◌≡◌, refl, sym, ◌∙◌, subst, Bool, true, false, Text, lit, text_eq, text_eq→eq, List, [], ◌∷◌,
  ◌++◌, any, All, some, Bool-cases, inl, inr, ◌⊎◌, if◌then◌else◌, ◌==◌,
}
use mathlib.Core.Bool.{false≢true}
use genesys_cx_demo_harness.Platform.{Platform}
use genesys_cx_demo_harness.Gx.Ava.{
  Node, object, array, text, scalar, null, Fields, no_fields, field, get, forbidden_keywords,
  has_key, is_type, is_true, Problem, Check, passes, fails, ◌and_then◌, is_name,
  check_property_name, check_keywords, is_described, check_item, check_property, check_properties,
  walk, walk_items, walk_properties, walk_named, walk_each,
}

-- A place of a schema that the check reaches: the root, the single schema of an array's items, and a
-- property of a node that is no array.
pub data IsPlace : Bool → Fields → Bool → Fields → Type 0 where
  here : {is_root : Bool} {fs : Fields} → IsPlace is_root fs is_root fs
  at_items :
      {is_root last : Bool} {fs gs hs : Fields}
      → is_type (lit "array") fs ≡ true
      → get (lit "items") fs ≡ some (object gs)
      → IsPlace false gs last hs
      → IsPlace is_root fs last hs
  at_property :
      {is_root last : Bool} {fs ps gs hs : Fields} (name : Text)
      → is_type (lit "array") fs ≡ false
      → get (lit "properties") fs ≡ some (object ps)
      → get name ps ≡ some (object gs)
      → IsPlace false gs last hs
      → IsPlace is_root fs last hs

-- A property that AVA takes: a safe name, and a schema with a description that is no array.
pub record IsProperty ⦃platform : Platform⦄ (name : Text) (spec : Node) : Type 0 where
  pub fields : Fields
  pub is_schema : spec ≡ object fields
  pub safe_name : is_name name ≡ true
  pub no_dot : any (λ c. c == b'.') name ≡ false
  pub described : is_described fields ≡ true
  pub no_array : is_type (lit "array") fields ≡ false

and_then-passes : (c d : Check) → (c and_then d) ≡ passes → (c ≡ passes) × (d ≡ passes)
and_then-passes passes d h = (refl, h)
and_then-passes (fails w p) d h = cc

check_keywords-passes :
    (w : Text) (fs : Fields) (ks : List Text)
    → check_keywords w fs ks ≡ passes
    → All (λ k. has_key fs k ≡ false) ks
unfolding check_keywords
check_keywords-passes w fs [] h = tt
check_keywords-passes w fs (k ∷ ks) h = elim (Bool-cases (has_key fs k)) [
  | inl present ↦ absurd (let bad = rw present at h in cc)
  | inr missing ↦ (missing, check_keywords-passes w fs ks (rw missing at h))
]

pub check_property_name-passes :
    (name w : Text)
    → check_property_name name w ≡ passes
    → (any (λ c. c == b'.') name ≡ false) × (is_name name ≡ true)
unfolding check_property_name
check_property_name-passes name w h = elim (Bool-cases (any (λ c. c == b'.') name)) [
  | inl dotted ↦ absurd (let no_way = rw dotted at h in cc)
  | inr plain ↦ elim (Bool-cases (is_name name)) [
    | inl safe ↦ (plain, safe)
    | inr unsafe ↦ absurd (let no_way = rw (plain, unsafe) at h in cc)
  ]
]

module _ ⦃platform : Platform⦄ where
  walk_items-passes :
      (w : Text) (fs : Fields) {v : Node}
      → walk_items w fs ≡ passes
      → get (lit "items") fs ≡ some v
      → check_item w v (walk false (w ++ lit ".items") v) ≡ passes
  unfolding walk_items get
  walk_items-passes w no_fields h found = cc
  walk_items-passes w (field k u fs) {v} h found = elim (Bool-cases (text_eq (lit "items") k)) [
    | inl hit ↦
        let same : u ≡ v = (let it = rw (hit, get) at found in cc) in
        subst (λ (n : Node). check_item w n (walk false (w ++ lit ".items") n) ≡ passes) same
          (rw (hit, walk_items) at h)
    | inr miss ↦ walk_items-passes w fs (rw (miss, walk_items) at h) (rw (miss, get) at found)
  ]

  walk_properties-passes :
      (w : Text) (fs : Fields) {ps : Fields}
      → walk_properties w fs ≡ passes
      → get (lit "properties") fs ≡ some (object ps)
      → walk_each w ps ≡ passes
  unfolding walk_properties get
  walk_properties-passes w no_fields h found = cc
  walk_properties-passes w (field k u fs) {ps} h found =
      elim (Bool-cases (text_eq (lit "properties") k)) [
        | inl hit ↦
            let same : u ≡ object ps = (let it = rw (hit, get) at found in cc) in
            subst (λ (n : Node). walk_named w n ≡ passes) same (rw (hit, walk_properties) at h)
        | inr miss ↦
            walk_properties-passes w fs (rw (miss, walk_properties) at h) (rw (miss, get) at found)
      ]

  walk_each-passes :
      (w : Text) (ps : Fields) (name : Text) {spec : Node}
      → walk_each w ps ≡ passes
      → get name ps ≡ some spec
      → (check_property_name name w ≡ passes)
        × (check_property (w ++ b'.' ∷ name) spec (walk false (w ++ b'.' ∷ name) spec) ≡ passes)
  unfolding walk_each get
  walk_each-passes w no_fields name h found = cc
  walk_each-passes w (field k u ps) name {spec} h found =
      let (named, more) = and_then-passes (check_property_name k w) _ h in
      let (checked, rest) =
        and_then-passes (check_property (w ++ b'.' ∷ k) u (walk false (w ++ b'.' ∷ k) u)) _ more in
      elim (Bool-cases (text_eq name k)) [
        | inl hit ↦
            let same : u ≡ spec = (let it = rw (hit, get) at found in cc) in
            let at_name : (n : Text)
                → n ≡ k
                → (check_property_name n w ≡ passes)
                  × (check_property (w ++ b'.' ∷ n) u (walk false (w ++ b'.' ∷ n) u) ≡ passes) =
              λ n e. rw e (named, checked) in
            subst
              (λ (x : Node).
                (check_property_name name w ≡ passes)
                × (check_property (w ++ b'.' ∷ name) x (walk false (w ++ b'.' ∷ name) x) ≡ passes))
              same (at_name name (text_eq→eq name k hit))
        | inr miss ↦ walk_each-passes w ps name rest (rw (miss, get) at found)
      ]

  check_item-passes :
      (w : Text) (gs : Fields) (inner : Check)
      → check_item w (object gs) inner ≡ passes
      → inner ≡ passes
  check_item-passes w gs inner h = elim (Bool-cases (is_type (lit "array") gs)) [
    | inl bad ↦ absurd (let no_way = rw bad at h in cc)
    | inr fine ↦ rw fine at h
  ]

  pub check_property-passes :
      (name child : Text) (spec : Node) (inner : Check)
      → check_property child spec inner ≡ passes
      → (gs : Fields) × (spec ≡ object gs)
        × (is_type (lit "array") gs ≡ false)
        × (is_described gs ≡ true)
        × (inner ≡ passes)
  check_property-passes name child (object gs) inner h =
      elim (Bool-cases (is_type (lit "array") gs)) [
        | inl bad ↦ absurd (let no_way = rw bad at h in cc)
        | inr fine ↦ elim (Bool-cases (is_described gs)) [
          | inl told ↦ (gs, refl, fine, told, rw (fine, told) at h)
          | inr blank ↦ absurd (let no_way = rw (fine, blank) at h in cc)
        ]
      ]
  check_property-passes name child (array xs) inner h = cc
  check_property-passes name child (text t) inner h = cc
  check_property-passes name child (scalar p) inner h = cc
  check_property-passes name child null inner h = cc

  -- The parts of a check that passed.
  pub walk-parts :
      (is_root : Bool) (w : Text) (fs : Fields)
      → walk is_root w (object fs) ≡ passes
      → All (λ k. has_key fs k ≡ false) forbidden_keywords
        × (((is_type (lit "array") fs ≡ true) × (is_root ≡ true) × (walk_items w fs ≡ passes))
            ⊎ ((is_type (lit "array") fs ≡ false)
                × (check_properties w fs (get (lit "properties") fs) (walk_properties w fs)
                    ≡ passes)))
  unfolding walk
  walk-parts is_root w fs h =
      let (keywords, rest) = and_then-passes (check_keywords w fs forbidden_keywords) _ h in
      (
        check_keywords-passes w fs forbidden_keywords keywords,
        elim (Bool-cases (is_type (lit "array") fs)) [
          | inl yes_array ↦
              let (r, k) = root is_root (rw yes_array at rest) in inl (yes_array, r, k)
          | inr no_array ↦ inr (no_array, rw no_array at rest)
        ],
      )
    where
      root :
          (r : Bool)
          → (if r then walk_items w fs else fails w Problem.nested_array) ≡ passes
          → (r ≡ true) × (walk_items w fs ≡ passes)
      root true k = (refl, k)
      root false k = cc

  pub properties-passes :
      (is_root : Bool) (w : Text) (fs ps : Fields) (name : Text) {spec : Node}
      → walk is_root w (object fs) ≡ passes
      → is_type (lit "array") fs ≡ false
      → get (lit "properties") fs ≡ some (object ps)
      → get name ps ≡ some spec
      → (check_property_name name w ≡ passes)
        × (check_property (w ++ b'.' ∷ name) spec (walk false (w ++ b'.' ∷ name) spec) ≡ passes)
  properties-passes is_root w fs ps name h no_array found has_name =
      elim (walk-parts is_root w fs h).1 [
        | inl (yes_array, at_root, items) ↦ absurd (false≢true (sym no_array ∙ yes_array))
        | inr (same, checked) ↦
            let inner : (if is_true (object ps)
                  then walk_properties w fs
                  else fails w Problem.empty_object)
                ≡ passes =
              rw found at checked in
            elim (Bool-cases (is_true (object ps))) [
              | inl some_property ↦
                  walk_each-passes w ps name
                    (walk_properties-passes w fs (rw some_property at inner) found) has_name
              | inr empty ↦ absurd (let no_way = rw empty at inner in cc)
            ]
      ]

  -- The check passed at every place that it reaches.
  pub walk-place :
      (is_root : Bool) (w : Text) {fs : Fields} {last : Bool} {hs : Fields}
      → IsPlace is_root fs last hs
      → walk is_root w (object fs) ≡ passes
      → (w' : Text) × (walk last w' (object hs) ≡ passes)
  walk-place is_root w IsPlace.here h = (w, h)
  walk-place is_root w {fs} (IsPlace.at_items {gs = gs} yes_array found place) h =
      elim (walk-parts is_root w fs h).1 [
        | inl (same, at_root, items) ↦
            walk-place false (w ++ lit ".items") place
              (check_item-passes w gs _ (walk_items-passes w fs items found))
        | inr (no_array, rest) ↦ absurd (false≢true (sym no_array ∙ yes_array))
      ]
  walk-place is_root w {fs} (IsPlace.at_property {ps = ps} {gs} name no_array found has_name place)
        h =
      let (named, checked) = properties-passes is_root w fs ps name h no_array found has_name in
      let (ks, same, flat, told, inner) = check_property-passes name _ (object gs) _ checked in
      walk-place false (w ++ b'.' ∷ name) place inner
