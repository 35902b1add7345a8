-- ===== src/Gx/Normalize/Shape.antt =====
-- The shape of a recognized phone number, and that a recognized value is never empty.
use genesys_cx_demo_harness.Base.{
  ◌≡◌, ◌≤◌, refl, Bool, true, false, Text, lookup, [], ◌∷◌, ◌++◌, length, is_empty, Option, none,
  some, get_or, if◌then◌else◌, ◌==◌, inl, inr, arith, Option-cases, any, starts_with, lit,
}
use genesys_cx_demo_harness.Platform.{Platform}
use genesys_cx_demo_harness.Gx.Normalize.{
  phone, NormalizedIdentifier, DialRule, dial, national_part, to_e164, normalize_number,
  normalize_candidate, normalize_identifier, matches_email, matches_account, country_dial_rules,
  without_separators, remove_plus, digits_only, or_rejected, strip, restore_eaten_plus,
}

-- A `+` and eight to fifteen characters.
abbrev IsE164 : Text → Type 0
IsE164 v = (digits : Text) × (v ≡ b'+' ∷ digits) × (8 ≤ length digits) × (length digits ≤ 15)

dial-IsE164 :
    (rule : DialRule) (national : Text) {v : Text} → dial rule national ≡ some v → IsE164 v
unfolding dial
dial-IsE164 rule national {v} h =
    (rule.dial_code ++ national, ground arith, ground arith, ground arith)

module _ ⦃platform : Platform⦄ where
  to_e164-IsE164 :
      (digits : Text) (has_plus : Bool) (country : Option Text) {v : Text}
      → to_e164 digits has_plus country ≡ some v
      → IsE164 v
  unfolding to_e164
  to_e164-IsE164 digits true country h = (digits, ground arith, ground arith, ground arith)
  to_e164-IsE164 digits false country h =
      elim (Option-cases (lookup (platform.upper (get_or country [])) country_dial_rules)) [
        | inl e ↦ let bad = rw (e, to_e164) at h in cc
        | inr (rule, e) ↦ dial-IsE164 rule (national_part rule digits) (rw (e, to_e164) at h)
      ]

  abbrev HasShape : NormalizedIdentifier → Type 0
  HasShape n = n.id_type ≡ phone → IsE164 n.value

  on_if :
      (c : Bool) (a b : NormalizedIdentifier)
      → HasShape a
      → HasShape b
      → HasShape (if c then a else b)
  on_if true a b p q = p
  on_if false a b p q = q

  or_rejected-HasShape :
      (candidate : Text) (o : Option Text)
      → ((v : Text) → o ≡ some v → IsE164 v)
      → HasShape (or_rejected candidate o)
  or_rejected-HasShape candidate none h = λ e. cc
  or_rejected-HasShape candidate (some v) h = λ e. h v refl

  normalize_number-HasShape :
      (candidate : Text) (country : Option Text) → HasShape (normalize_number candidate country)
  unfolding normalize_number
  normalize_number-HasShape candidate country =
      let has_plus = starts_with candidate (lit "+") in
      let stripped = without_separators (remove_plus candidate) in
      on_if (digits_only stripped) _ _
        (or_rejected-HasShape candidate _ (λ v. to_e164-IsE164 stripped has_plus country))
        (on_if has_plus _ _ (λ e. cc) (on_if (matches_account candidate) _ _ (λ e. cc) (λ e. cc)))

  normalize_candidate-HasShape :
      (candidate : Text) (country : Option Text) → HasShape (normalize_candidate candidate country)
  unfolding normalize_candidate
  normalize_candidate-HasShape candidate country =
      on_if (is_empty candidate) _ _ (λ e. cc)
        (on_if (any (λ c. c == b'@') candidate) _ _
          (on_if (matches_email (platform.lower candidate)) _ _ (λ e. cc) (λ e. cc))
          (normalize_number-HasShape candidate country))

  -- An identifier that is recognized as a phone number is `+` followed by eight to fifteen
  -- characters.
  pub normalize_identifier-phone :
      (raw country : Option Text)
      → (normalize_identifier raw country).id_type ≡ phone
      → (digits : Text) × ((normalize_identifier raw country).value ≡ b'+' ∷ digits)
        × (8 ≤ length digits)
        × (length digits ≤ 15)
  unfolding normalize_identifier
  normalize_identifier-phone none country h = cc
  normalize_identifier-phone (some raw) country h =
      normalize_candidate-HasShape (strip (restore_eaten_plus raw)) country h
