-- ===== src/Admin/Guarded.antt =====
-- Whom the gates let through.
use genesys_cx_demo_harness.Base.{
  ◌≡◌, refl, sym, ap, ◌∙◌, true, false, ◌&&◌, &&_true, Text, Option, none, some, Bool-cases,
  Option-cases, inl, inr, ◌⊎◌,
}
use genesys_cx_demo_harness.Store.{
  Session, Error, Result, ok, raised, >>=-eq-ok, ok_injective, type_error, invalid_credentials,
}
use genesys_cx_demo_harness.Gx.Routes.Shared.{Reply, respond}
use genesys_cx_demo_harness.Admin.Gate.{Secrets, is_open, same_secret, dispatch, require_admin}
use genesys_cx_demo_harness.Admin.Routes.{Answer, detail, with_admin}
use genesys_cx_demo_harness.Scenarios.Applied.{Result-cases}

raised_injective {ℓ} : {A : Type ℓ} {e f : Error} → ◌≡◌ {A = Result A} (raised e) (raised f) → e ≡ f
raised_injective h = cc

module _ ⦃secrets : Secrets⦄ where
  -- Two secrets that compare the same are the same.
  same_secret-eq : (a b : Text) → same_secret a b ≡ ok true → a ≡ b
  unfolding same_secret
  same_secret-eq a b h = elim (Option-cases (secrets.compare_digest a b)) [
    | inl bad ↦ absurd (let no_way = rw (bad, same_secret) at h in cc)
    | inr (same, e) ↦
        secrets.compare-same a b (e ∙ ap some (ok_injective (rw (e, same_secret) at h)))
  ]

  -- On a path that is not open, a request that does not carry the API key is answered 401 or raises,
  -- and leaves the session as it was; one that carries it may still be refused, and else is answered
  -- by the route.
  pub dispatch-guards :
      {A : Type 0} (path : Text) (header : Option Text) (refused : A)
      (call_next : Session → Reply A) (s : Session)
      → is_open path ≡ false
      → ((header ≡ some secrets.api_key) × (dispatch path header refused call_next s ≡ call_next s))
        ⊎ ((dispatch path header refused call_next s ≡ respond 401 refused s)
            ⊎ ((e : Error) × (dispatch path header refused call_next s ≡ (raised e, s))))
  unfolding dispatch
  dispatch-guards path none refused call_next s closed = inr (inl (rw (closed, dispatch) refl))
  dispatch-guards path (some supplied) refused call_next s closed =
      elim (Result-cases (same_secret supplied secrets.api_key)) [
        | inl (e, bad) ↦ inr (inr (e, rw (closed, bad, dispatch) refl))
        | inr (true, same) ↦ inl (
          ap some (same_secret-eq supplied secrets.api_key same),
          rw (closed, same, dispatch) refl,
        )
        | inr (false, differ) ↦ inr (inl (rw (closed, differ, dispatch) refl))
      ]

  require_admin-eq :
      (username password : Text) {user : Text}
      → require_admin username password ≡ ok user
      → (username ≡ secrets.admin_user) × (password ≡ secrets.admin_password)
  unfolding require_admin
  require_admin-eq username password h =
      let (u, e, next) = >>=-eq-ok (same_secret username secrets.admin_user) _ h in
      let (p, f, done) = >>=-eq-ok (same_secret password secrets.admin_password) _ next in
      elim (Bool-cases (u && p)) [
        | inl both ↦
            let (user_ok, password_ok) = &&_true u p both in
            (
              same_secret-eq username secrets.admin_user (e ∙ ap ok user_ok),
              same_secret-eq password secrets.admin_password (f ∙ ap ok password_ok),
            )
        | inr neither ↦ absurd (let no_way = rw neither at done in cc)
      ]

  same_secret-raised : (a b : Text) {e : Error} → same_secret a b ≡ raised e → e ≡ type_error
  unfolding same_secret
  same_secret-raised a b {e} h = elim (Option-cases (secrets.compare_digest a b)) [
    | inl bad ↦ raised_injective (sym (rw (bad, same_secret) at h))
    | inr (same, found) ↦ absurd (let no_way = rw (found, same_secret) at h in cc)
  ]

  require_admin-raised :
      (username password : Text) {e : Error}
      → require_admin username password ≡ raised e
      → (e ≡ type_error) ⊎ (e ≡ invalid_credentials)
  unfolding require_admin
  require_admin-raised username password {e} h =
      elim (Result-cases (same_secret username secrets.admin_user)) [
        | inl (f, bad) ↦
            inl (raised_injective (sym (rw (bad, require_admin) at h)) ∙ same_secret-raised _ _ bad)
        | inr (u, user_ok) ↦ elim (Result-cases (same_secret password secrets.admin_password)) [
          | inl (f, bad) ↦ inl (
              raised_injective (sym (rw (user_ok, bad, require_admin) at h))
              ∙ same_secret-raised _ _ bad)
          | inr (p, password_ok) ↦ elim (Bool-cases (u && p)) [
            | inl both ↦
                absurd (let no_way = rw (user_ok, password_ok, both, require_admin) at h in cc)
            | inr neither ↦
                inr
                  (raised_injective (sym (rw (user_ok, password_ok, neither, require_admin) at h)))
          ]
        ]
      ]

  -- A console route runs only for the administrator's name and password; any other request is
  -- answered 401 or raises, and leaves the session as it was.
  pub with_admin-guards :
      {A : Type 0} (username password : Text) (s : Session) (route : Session → Reply (Answer A))
      → ((username ≡ secrets.admin_user)
          × (password ≡ secrets.admin_password)
          × (with_admin username password s route ≡ route s))
        ⊎ ((with_admin username password s route ≡ respond 401 (detail invalid_credentials) s)
            ⊎ ((e : Error) × (with_admin username password s route ≡ (raised e, s))))
  unfolding with_admin
  with_admin-guards username password s route =
      elim (Result-cases (require_admin username password)) [
        | inr (user, admitted) ↦
            let (u, p) = require_admin-eq username password admitted in
            inl (u, p, rw (admitted, with_admin) refl)
        | inl (e, refused) ↦ elim (require_admin-raised username password refused) [
          | inl e_type ↦
              let it = rw e_type at refused in inr (inr (type_error, rw (it, with_admin) refl))
          | inr e_credentials ↦
              let it = rw e_credentials at refused in inr (inl (rw (it, with_admin) refl))
        ]
      ]
