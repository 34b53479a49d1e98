-- ===== src/Web/Sessions/Login.antt =====
-- Who can sign in with a password.
use callfxo.Prelude.{
  true, ◌||◌, none, some, ◌≡◌, refl, ap, sym, ◌∙◌, is_nil, Bool-cases, inl, inr, if_of_true,
  if_of_false,
}
use callfxo.Text.{trim_space}
use callfxo.Store.Schema.{
  UserCredential, Store, Error, not_found, constraint, engine, unsupported_field, ok,
}
use callfxo.Store.Users.{get_user_credential_by_username}
use callfxo.Web.Http.{Site, World, Request, Issued, Response, with_payload}
use callfxo.Web.Sessions.{LoginRequest, login_refused, check_password, handle_login}
use callfxo.Web.Sessions.Inversion.{
  issued_of, answer_issued-inv, answer_result-inv, issue_device_session-Stored,
}
use callfxo.Web.Sessions.Rotation.{Holds, Stored-Holds}

login_refused-none : (e : Error) → issued_of (login_refused e).body ≡ none
unfolding login_refused
login_refused-none not_found = refl
login_refused-none constraint = refl
login_refused-none engine = refl
login_refused-none unsupported_field = refl

module _ (site : Site) (w : World) (r : Request) (req : LoginRequest) {i : Issued} {a : Response}
    {s' : Store} where
  -- A login that signs somebody in found the account of the name, without the blanks around it, was given
  -- the password of the account's hash, and stores the hash of the refresh token that it hands out.
  pub handle_login-checked :
      (s : Store)
      → handle_login site w r (some req) s ≡ (a, s')
      → issued_of a.body ≡ some i
      → (uc : UserCredential) × (s₁ : Store) × (get_user_credential_by_username
            (trim_space req.username)
            s
          ≡ (ok uc, s₁))
        × (site.compare uc.password_hash req.password ≡ true)
        × Holds site i s'
  unfolding handle_login with_payload
  handle_login-checked s h k =
      elim (Bool-cases (is_nil (trim_space req.username) || is_nil req.password)) [
        | inl blank ↦ cc (
          ap (λ (p : Response × Store). issued_of (p.0).body) (sym (if_of_true _ _ blank) ∙ h),
          k,
        )
        | inr there ↦
            let (uc, s₁, looked, rest) =
              answer_result-inv (get_user_credential_by_username (trim_space req.username) s)
                login_refused (check_password site w r req) login_refused-none
                (sym (if_of_false _ _ there) ∙ h) k in
            let (right, held) = checked uc s₁ rest in (uc, s₁, looked, right, held)
      ]
    where
      checked :
          (uc : UserCredential) (s₁ : Store)
          → check_password site w r req uc s₁ ≡ (a, s')
          → (site.compare uc.password_hash req.password ≡ true) × Holds site i s'
      checked uc s₁ l = elim (Bool-cases (site.compare uc.password_hash req.password)) [
        | inl right ↦ (
          right,
          Stored-Holds site w i s₁ s' (
              issue_device_session-Stored site w uc req.device_token req.client_type req.device_name
                s₁ (answer_issued-inv site w r uc _ (sym (if_of_true _ _ right) ∙ l) k)),
        )
        | inr wrong ↦ cc (
          ap (λ (p : Response × Store). issued_of (p.0).body) (sym (if_of_false _ _ wrong) ∙ l),
          k,
        )
      ]
