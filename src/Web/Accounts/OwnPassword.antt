-- ===== src/Web/Accounts/OwnPassword.antt =====
-- The refresh sessions that end where users change their own password.
use callfxo.Prelude.{
  ℕ, ◌||◌, true, false, Option, none, some, [], ◌≡◌, arith, ap, sym, subst, ◌∙◌, is_nil,
  if◌then◌else◌, Bool-cases, inl, inr, if_of_true, if_of_false,
}
use callfxo.Prelude.Integers.{ℤ}
use callfxo.Prelude.Equality.{◌==◌, nat_eq, list_eq, int_eq}
use callfxo.Prelude.Rows.{first}
use callfxo.Text.{Text, txt}
use callfxo.Store.Schema.{UserDevice, Store, Result, ok}
use callfxo.Store.Statements.{mapped-faults}
use callfxo.Store.Users.{update_user_password_hash_by_id}
use callfxo.Store.Devices.{device_by_token}
use callfxo.Web.Http.{Site, World, Request, Response, with_payload, missing_or}
use callfxo.Auth.{Session}
use callfxo.Web.Http.{
  reply, refuse, with_session, failure, relogin, clear_token_cookies, answer_result,
}
use callfxo.Store.Schema.{UserCredential, found}
use callfxo.Store.Users.{get_user_credential_by_id, scan_credential}
use callfxo.Web.Accounts.{ChangePasswordRequest, change_own_checked, handle_change_own_password}
use callfxo.Web.Http.Results.{missing_or-not_ok, answer_result-good}
use callfxo.Web.Values.{normalize_device_token}
use callfxo.Web.Sessions.{RefreshRequest, handle_refresh}
use callfxo.Web.Accounts.{forget_devices, change_own_hashed}
use callfxo.Web.Accounts.Revocation.{
  Revoked, forget_devices-Revoked, Revoked-refused, update_password-faults,
}

change_own-Revoked :
    (site : Site) (w : World) (r : Request) (session : Session) (o : Option Text) (s : Store)
    {a : Response} {s' : Store}
    → s.faults ≡ []
    → change_own_hashed site w r session o s ≡ (a, s')
    → a.status ≡ 200
    → Revoked session.user_id s'
change_own-Revoked site w r session none s healthy h k =
    let e : ◌≡◌ {A = ℕ} 500 200 = ap (λ (p : Response × Store). (p.0).status) h ∙ k in
    absurd (omega arith)
change_own-Revoked site w r session (some hash) s {s'} healthy h k =
    let (u, s₁, updated, rest) =
      answer_result-good (update_user_password_hash_by_id session.user_id hash s)
        (λ e. reply 500 (failure e))
        (λ u s₂. (
          record {
            status = 200;
            body = relogin;
            cookies = clear_token_cookies r site.cfg.auth.cookie_name;
          },
          forget_devices session.user_id w.now s₂,
        ))
        (λ e. λ (bad : ◌≡◌ {A = ℕ} 500 200). absurd (omega arith)) h k in
    subst (Revoked session.user_id) (ap (λ (p : Response × Store). p.1) rest) (
      forget_devices-Revoked session.user_id w.now s₁
        (update_password-faults session.user_id hash s healthy updated))

lookup-faults :
    (id : ℤ) (s : Store) {r : Result UserCredential} {s' : Store}
    → s.faults ≡ []
    → get_user_credential_by_id id s ≡ (r, s')
    → s'.faults ≡ []
unfolding get_user_credential_by_id
lookup-faults id s healthy h =
    ap (λ (p : Result UserCredential × Store). (p.1).faults) (sym h)
    ∙ mapped-faults (λ t. found (first (λ (u : UserCredential). u.id == id) t.users))
        scan_credential s healthy

module _ (site : Site) (w : World) (r : Request) {a : Response} {s' : Store} where
  own_checked-Revoked :
      (session : Session) (req : ChangePasswordRequest) (uc : UserCredential) (s : Store)
      → s.faults ≡ []
      → change_own_checked site w r session req uc s ≡ (a, s')
      → a.status ≡ 200
      → (site.compare uc.password_hash req.old_password ≡ true) × Revoked session.user_id s'
  own_checked-Revoked session req uc s healthy h k =
      elim (Bool-cases (site.compare uc.password_hash req.old_password)) [
        | inl right ↦ (
          right,
          change_own-Revoked site w r session (w.generate req.new_password) s healthy
              (sym (if_of_true _ _ right) ∙ h) k,
        )
        | inr wrong ↦
            let e : ◌≡◌ {A = ℕ} 401 200 =
              ap (λ (p : Response × Store). (p.0).status) (sym (if_of_false _ _ wrong) ∙ h) ∙ k in
            absurd (omega arith)
      ]

  own_password-Revoked :
      (session : Session) (req : ChangePasswordRequest) (s : Store)
      → s.faults ≡ []
      → (if is_nil req.old_password || is_nil req.new_password
          then (refuse 400 (txt "old_password/new_password required"), s)
          else answer_result
              (get_user_credential_by_id session.user_id s)
              (missing_or (txt "user not found"))
              (change_own_checked site w r session req))
        ≡ (a, s')
      → a.status ≡ 200
      → (uc : UserCredential) × (s₁ : Store) × (get_user_credential_by_id session.user_id s
          ≡ (ok uc, s₁))
        × (site.compare uc.password_hash req.old_password ≡ true)
        × Revoked session.user_id s'
  own_password-Revoked session req s healthy h k =
      elim (Bool-cases (is_nil req.old_password || is_nil req.new_password)) [
        | inl blank ↦
            let e : ◌≡◌ {A = ℕ} 400 200 =
              ap (λ (p : Response × Store). (p.0).status) (sym (if_of_true _ _ blank) ∙ h) ∙ k in
            absurd (omega arith)
        | inr there ↦
            let (uc, s₁, looked, rest) =
              answer_result-good (get_user_credential_by_id session.user_id s)
                (missing_or (txt "user not found")) (change_own_checked site w r session req)
                (missing_or-not_ok (txt "user not found")) (sym (if_of_false _ _ there) ∙ h) k in
            let (right, gone) =
              own_checked-Revoked session req uc s₁ (lookup-faults session.user_id s healthy looked)
                rest k in
            (uc, s₁, looked, right, gone)
      ]

  -- Once users have changed their own password, the old password that they gave was right and, where the
  -- engine does not fail, every refresh for one of their devices is answered with 401.
  pub handle_change_own_password_revokes :
      (session : Session) (req : ChangePasswordRequest) (s : Store)
      → s.faults ≡ []
      → handle_change_own_password site w r (some req) (some session) s ≡ (a, s')
      → a.status ≡ 200
      → ((uc : UserCredential) × (s₁ : Store) × (get_user_credential_by_id session.user_id s
            ≡ (ok uc, s₁))
          × (site.compare uc.password_hash req.old_password ≡ true))
        × ((later : World) (r' : Request) (again : RefreshRequest) (d : UserDevice)
            → is_nil (normalize_device_token again.device_token) ≡ false
            → device_by_token again.device_token s'.tables ≡ some d
            → d.user_id ≡ session.user_id
            → (handle_refresh site later r' again s').0.status ≡ 401)
  unfolding handle_change_own_password with_session with_payload
  handle_change_own_password_revokes session req s healthy h k =
      let (uc, s₁, looked, right, gone) = own_password-Revoked session req s healthy h k in
      (
        (uc, s₁, looked, right),
        λ later r' again d. Revoked-refused site later r' again s' session.user_id d gone,
      )
