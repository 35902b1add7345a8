-- ===== src/Gx/Contracts/Templates.antt =====
-- The Velocity templates of a request: how an input is escaped, and the two patterns that look for
-- inputs (app/gx/contracts.py). The patterns' classes of characters do not overlap with what follows
-- them, so that the longest match is the only one.
use genesys_cx_demo_harness.Base.{
  ℕ, zero, suc, Bool, not, ◌&&◌, ◌||◌, Text, lit, text_eq, List, [], ◌∷◌, ◌++◌, filter, length,
  is_empty, Option, none, some, leb, ◌==◌, ◌-◌, if◌then◌else◌,
}

-- `$esc.url("${input.name}")` after `name=`, and the same with `jsonString` after `"name": `.
unfoldable pub query_part : Text → Text
query_part name = name ++ lit "=$esc.url(\"${input." ++ name ++ lit "}\")"

unfoldable pub body_part : Bool → Text → Text
body_part bare name =
    let escaped = lit "$esc.jsonString(\"${input." ++ name ++ lit "}\")" in
    b'"' ∷ name ++ lit "\": " ++ (if bare then escaped else b'"' ∷ escaped ++ lit "\"")

-- `sep.join(parts)`
unfoldable pub join_with : ℕ → List Text → Text
join_with sep [] = []
join_with sep (p ∷ []) = p
join_with sep (p ∷ q ∷ ps) = p ++ sep ∷ join_with sep (q ∷ ps)

-- What follows a prefix.
unfoldable after_prefix : Text → Text → Option Text
after_prefix [] s = some s
after_prefix (c ∷ p) [] = none
after_prefix (c ∷ p) (d ∷ s) = let rest = after_prefix p s in if c == d then rest else none

abbrev is_letter : ℕ → Bool
is_letter c = leb b'A' c && leb c b'Z' || leb b'a' c && leb c b'z'

abbrev is_word : ℕ → Bool
is_word c = is_letter c || leb b'0' c && leb c b'9' || c == b'_'

-- The longest run of such characters, and what follows it.
unfoldable run_of : (ℕ → Bool) → Text → Text × Text
run_of p [] = ([], [])
run_of p (c ∷ s) = let (taken, rest) = run_of p s in if p c then (c ∷ taken, rest) else ([], c ∷ s)

-- What follows a run of at least one.
abbrev after_run : (ℕ → Bool) → Text → Option Text
after_run p s = let (taken, rest) = run_of p s in if is_empty taken then none else some rest

abbrev then_after : Option Text → (Text → Option Text) → Option Text
then_after none f = none
then_after (some s) f = f s

-- What follows a match of _ESCAPED_INPUT_REF at the start.
unfoldable after_escaped : Text → Option Text
unfolding after_prefix run_of
after_escaped s = then_after (after_prefix (lit "$esc.") s) (λ a.
    then_after (after_run is_letter a) (λ b.
      then_after (after_prefix (lit "(\"${input.") b)
        (λ c. then_after (after_run is_word c) (after_prefix (lit "}\")")))))

-- `_ESCAPED_INPUT_REF.sub("", s)`; the number is how much of a match is still to be skipped.
unfoldable without_escaped : ℕ → Text → Text
unfolding after_escaped
without_escaped n [] = []
without_escaped (suc n) (c ∷ s) = without_escaped n s
without_escaped zero (c ∷ s) = elim (after_escaped (c ∷ s)) [
  | none ↦ c ∷ without_escaped zero s
  | some rest ↦ without_escaped (length s - length rest) s
]

-- `_INPUT_MENTION.findall(s)`, with the same skipping.
unfoldable pub mentions : ℕ → Text → List Text
unfolding after_prefix run_of
mentions n [] = []
mentions (suc n) (c ∷ s) = mentions n s
mentions zero (c ∷ s) = elim (after_prefix (lit "input.") (c ∷ s)) [
  | none ↦ mentions zero s
  | some named ↦
      let (name, rest) = run_of is_word named in
      if is_empty name then mentions zero s else name ∷ mentions (length s - length rest) s
]

-- The inputs that are mentioned, without _TEMPLATE_BUILTINS.
unfoldable pub referenced : Text → List Text
unfolding mentions
referenced template =
    filter (λ name. not (text_eq name (lit "rawRequest"))) (mentions zero template)

-- Those outside every escaped reference.
unfoldable pub unescaped : Text → List Text
unfolding without_escaped referenced
unescaped template = referenced (without_escaped zero template)
