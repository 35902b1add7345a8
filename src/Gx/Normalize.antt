-- ===== src/Gx/Normalize.antt =====
-- Identifier normalization (app/gx/normalize.py). The patterns are written out over code points;
-- `$` also matches before a trailing newline, which no text here has, since each was stripped.
pub mod Shape
use genesys_cx_demo_harness.Base.{
  ℕ, zero, suc, ◌+◌, Bool, true, false, not, ◌&&◌, ◌||◌, Text, lit, Dict, lookup, starts_with, List,
  [], ◌∷◌, ◌++◌, filter, all, any, drop, length, is_empty, ltb, leb, Option, none, some, get_or,
  ◌==◌, if◌then◌else◌,
}
use genesys_cx_demo_harness.Platform.{Platform}

pub data IdType : Type 0 where
  phone email account_no unrecognized : IdType

pub record NormalizedIdentifier : Type 0 where
  pub value : Text
  pub id_type : IdType
  pub recognized : Bool

-- `NormalizedIdentifier.unrecognized(value)`
abbrev pub rejected : Text → NormalizedIdentifier
rejected value = record { value = value; id_type = unrecognized; recognized = false }

abbrev pub accepted : IdType → Text → NormalizedIdentifier
accepted id_type value = record { value = value; id_type = id_type; recognized = true }

pub record DialRule : Type 0 where
  pub dial_code : Text
  pub trunk_prefix : Text

-- `COUNTRY_DIAL_RULES`
abbrev pub country_dial_rules : Dict DialRule
country_dial_rules =
    (lit "GB", record { dial_code = lit "44"; trunk_prefix = lit "0" })
    ∷ (lit "US", record { dial_code = lit "1"; trunk_prefix = lit "1" })
    ∷ (lit "IE", record { dial_code = lit "353"; trunk_prefix = lit "0" })
    ∷ (lit "AU", record { dial_code = lit "61"; trunk_prefix = lit "0" })
    ∷ []

-- `_MIN_E164_DIGITS <= n <= _MAX_E164_DIGITS`
abbrev pub plausible : ℕ → Bool
plausible n = leb 8 n && leb n 15

abbrev pub is_ascii_alnum : ℕ → Bool
is_ascii_alnum c =
    leb b'0' c && leb c b'9' || (leb b'A' c && leb c b'Z' || leb b'a' c && leb c b'z')

abbrev pub is_account_char : ℕ → Bool
is_account_char c = is_ascii_alnum c || (c == b'_' || c == b'-')

-- `_ACCOUNT_NO`: `^[A-Za-z0-9][A-Za-z0-9_-]{2,31}$`
unfoldable pub matches_account : Text → Bool
matches_account [] = false
matches_account (c ∷ s) =
    is_ascii_alnum c && (all is_account_char s && (leb 2 (length s) && leb (length s) 31))

-- A dot with a character behind it.
unfoldable pub dot_before_last : Text → Bool
dot_before_last [] = false
dot_before_last (c ∷ []) = false
dot_before_last (c ∷ d ∷ s) = c == b'.' || dot_before_last (d ∷ s)

-- A dot with a character on each side.
unfoldable pub inner_dot : Text → Bool
unfolding dot_before_last
inner_dot [] = false
inner_dot (c ∷ s) = dot_before_last s

-- The national part of a number without `+`.
unfoldable pub national_part : DialRule → Text → Text
national_part rule digits =
    if starts_with digits rule.dial_code && ltb (length rule.dial_code + 4) (length digits)
    then drop (length rule.dial_code) digits
    else if starts_with digits rule.trunk_prefix
    then drop (length rule.trunk_prefix) digits
    else digits

-- `+{dial_code}{national}`, if there is a national part and the length is plausible.
unfoldable pub dial : DialRule → Text → Option Text
dial rule national =
    if is_empty national
    then none
    else if plausible (length (rule.dial_code ++ national))
    then some (b'+' ∷ (rule.dial_code ++ national))
    else none

module _ ⦃platform : Platform⦄ where
  -- `s.lstrip()`, `s.rstrip()` and `s.strip()`
  unfoldable pub lstrip : Text → Text
  lstrip [] = []
  lstrip (c ∷ s) = let rest = lstrip s in if platform.is_space c then rest else c ∷ s

  unfoldable pub rstrip : Text → Text
  rstrip [] = []
  rstrip (c ∷ s) =
      let rest = rstrip s in if platform.is_space c && is_empty rest then [] else c ∷ rest

  unfoldable pub strip : Text → Text
  unfolding lstrip rstrip
  strip s = rstrip (lstrip s)

  -- `_DIGITS_ONLY`: `^\d+$`
  abbrev pub digits_only : Text → Bool
  digits_only s = not (is_empty s) && all platform.is_digit s

  -- `_PHONE_SEPARATORS`: `[\s()\-.]`
  abbrev pub is_separator : ℕ → Bool
  is_separator c = platform.is_space c || (c == b'(' || (c == b')' || (c == b'-' || c == b'.')))

  abbrev pub without_separators : Text → Text
  without_separators = filter (λ c. not (is_separator c))

  -- `[^@\s]`
  abbrev pub is_email_char : ℕ → Bool
  is_email_char c = not (c == b'@') && not (platform.is_space c)

  -- What follows the local part: `@[^@\s]+\.[^@\s]+`.
  abbrev pub matches_domain : Text → Bool
  matches_domain s = all is_email_char s && inner_dot s

  -- `_EMAIL`: `^[^@\s]+@[^@\s]+\.[^@\s]+$`, with the number of characters of the local part so far.
  unfoldable pub matches_email_from : Bool → Text → Bool
  matches_email_from begun [] = false
  matches_email_from begun (c ∷ s) =
      let rest = matches_email_from true s in
      if c == b'@' then begun && matches_domain s else not (platform.is_space c) && rest

  unfoldable pub matches_email : Text → Bool
  unfolding matches_email_from
  matches_email s = matches_email_from false s

  unfoldable pub restore_eaten_plus : Text → Text
  restore_eaten_plus [] = []
  restore_eaten_plus (c ∷ s) = if c == b' ' && digits_only (strip s) then b'+' ∷ strip s else c ∷ s

  unfoldable pub to_e164 : Text → Bool → Option Text → Option Text
  to_e164 digits has_plus country =
      if has_plus
      then (if plausible (length digits) then some (b'+' ∷ digits) else none)
      else elim (lookup (platform.upper (get_or country [])) country_dial_rules) [
        | none ↦ none
        | some rule ↦ dial rule (national_part rule digits)
      ]

  -- `candidate.removeprefix("+")`
  abbrev pub remove_plus : Text → Text
  remove_plus [] = []
  remove_plus (c ∷ s) = if c == b'+' then s else c ∷ s

  abbrev pub or_rejected : Text → Option Text → NormalizedIdentifier
  or_rejected candidate none = rejected candidate
  or_rejected candidate (some e164) = accepted phone e164

  -- What is no email.
  unfoldable pub normalize_number : Text → Option Text → NormalizedIdentifier
  normalize_number candidate country =
      let has_plus = starts_with candidate (lit "+") in
      let stripped = without_separators (remove_plus candidate) in
      if digits_only stripped
      then or_rejected candidate (to_e164 stripped has_plus country)
      else if has_plus
      then rejected candidate
      else if matches_account candidate
      then accepted account_no (platform.upper candidate)
      else rejected candidate

  -- A candidate that was restored and stripped.
  unfoldable pub normalize_candidate : Text → Option Text → NormalizedIdentifier
  normalize_candidate candidate country =
      if is_empty candidate
      then rejected []
      else if any (λ c. c == b'@') candidate
      then (if matches_email (platform.lower candidate)
          then accepted email (platform.lower candidate)
          else rejected candidate)
      else normalize_number candidate country

  unfoldable pub normalize_identifier : Option Text → Option Text → NormalizedIdentifier
  normalize_identifier none country = rejected []
  normalize_identifier (some raw) country =
      normalize_candidate (strip (restore_eaten_plus raw)) country
