-- ===== src/Admin/Gate.antt =====
-- The API-key middleware (app/auth/middleware.py) and the console's Basic auth (app/admin/auth.py).
-- `hmac.compare_digest` is a parameter: it raises TypeError (`none`) on a text that is not ASCII, and
-- else answers whether the two are equal.
use genesys_cx_demo_harness.Base.{
  Bool, true, ◌&&◌, ◌||◌, Text, lit, one_of, starts_with, List, [], ◌∷◌, Option, none, some, ◌≡◌,
  if◌then◌else◌, any,
}
use genesys_cx_demo_harness.Store.{
  Session, Result, ok, raised, ◌>>=◌, type_error, invalid_credentials,
}
use genesys_cx_demo_harness.Gx.Routes.Shared.{Reply, respond}

pub record Secrets : Type 0 where
  pub compare_digest : Text → Text → Option Bool
  pub compare-same : (a b : Text) → compare_digest a b ≡ some true → a ≡ b
  pub api_key : Text
  pub admin_user : Text
  pub admin_password : Text

abbrev public_paths : List Text
public_paths = lit "/health" ∷ lit "/docs" ∷ lit "/openapi.json" ∷ []

abbrev unchecked_prefixes : List Text
unchecked_prefixes = lit "/admin" ∷ []

-- The paths that the middleware lets through.
unfoldable pub is_open : Text → Bool
is_open path = one_of path public_paths || any (λ p. starts_with path p) unchecked_prefixes

module _ ⦃secrets : Secrets⦄ where
  -- `compare_digest`, which may raise.
  unfoldable pub same_secret : Text → Text → Result Bool
  same_secret supplied expected = elim (secrets.compare_digest supplied expected) [
    | none ↦ raised type_error
    | some same ↦ ok same
  ]

  -- `dispatch`: `call_next` is the route, `refused` the body of a 401.
  unfoldable pub dispatch :
      {A : Type 0} → Text → Option Text → A → (Session → Reply A) → Session → Reply A
  unfolding is_open
  dispatch path header refused call_next s = if is_open path then call_next s else elim header [
    | none ↦ respond 401 refused s
    | some supplied ↦ elim (same_secret supplied secrets.api_key) [
      | raised e ↦ (raised e, s)
      | ok same ↦ if same then call_next s else respond 401 refused s
    ]
  ]

  unfoldable pub require_admin : Text → Text → Result Text
  unfolding same_secret
  require_admin username password = do
    user_ok ← same_secret username secrets.admin_user
    password_ok ← same_secret password secrets.admin_password
    if user_ok && password_ok then ok username else raised invalid_credentials
