-- ===== src/Platform.antt =====
-- What the code takes from its platform: Python's `uuid` module (`str(u)` and `uuid.UUID(text)`,
-- where `none` is its ValueError; an id is a number that is only compared), the Unicode tables
-- behind `str.isspace`, `\d`, `str.lower` and `str.upper`, the collation by which the database sorts
-- text, hashlib's SHA-256 as a hexadecimal digest, and `json.loads`.
use genesys_cx_demo_harness.Base.{ℕ, ◌≡◌, Option, some, Text, Bool, Dict}

-- A value of a JSON object, as `bool(value)` and `str(value)`.
pub record Param : Type 0 where
  pub truth : Bool
  pub shown : Text

-- What `json.loads` returns: an object, or any other value.
pub data Json : Type 0 where
  object : Dict Param → Json
  other : Json

pub record Platform : Type 0 where
  pub show_uuid : ℕ → Text
  pub parse_uuid : Text → Option ℕ
  pub parse-show : (u : ℕ) → parse_uuid (show_uuid u) ≡ some u
  pub is_space : ℕ → Bool
  pub is_digit : ℕ → Bool
  pub lower : Text → Text
  pub upper : Text → Text
  pub text_le : Text → Text → Bool
  pub sha256_hex : Text → Text
  pub json_loads : Text → Option Json
