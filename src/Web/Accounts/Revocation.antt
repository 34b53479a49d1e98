-- ===== src/Web/Accounts/Revocation.antt =====
-- The refresh sessions that end with a new password: those of the account whose password an administrator
-- changes.
use callfxo.Prelude.{
  ℕ, Bool, false, Option, none, some, List, [], ◌∷◌, ◌≡◌, refl, arith, ap, sym, subst, ◌∙◌, is_nil,
  if◌then◌else◌, Bool-cases, inl, inr, if_of_true, if_of_false,
}
use callfxo.Prelude.Integers.{ℤ}
use callfxo.Prelude.Equality.{◌==◌, nat_eq, list_eq, int_eq, ==_iff}
use callfxo.Prelude.Rows.{update_where, first}
use callfxo.Text.{Text, txt, trim_space}
use callfxo.Store.Schema.{UserDevice, Tables, Store, Result, ok}
use callfxo.Store.Statements.{statement_healthy}
use callfxo.Store.Users.{update_user_password_hash_by_id}
use callfxo.Store.Devices.{without_auth, clear_user_device_auth_by_user_id, device_by_token}
use callfxo.Web.Http.{Site, World, Request, Response, parse_id_param, with_payload, missing_or}
use callfxo.Web.Http.{reply, refuse, success}
use callfxo.Web.Http.Results.{with_id-eq, missing_or-not_ok, answer_result-good}
use callfxo.Web.Values.{normalize_device_token}
use callfxo.Web.Sessions.{RefreshRequest, handle_refresh, presented_token}
use callfxo.Web.Sessions.Rotation.{refresh-refused, hashless_refused}
use callfxo.Web.Accounts.{forget_devices, admin_change_hashed, handle_admin_change_user_password}

module _ (id : ℤ) (now : ℕ) (test : UserDevice → Bool)
    (blind : (d : UserDevice) → test (without_auth now d) ≡ test d) where
  first-cleared :
      (ds : List UserDevice) {d : UserDevice}
      → first test (update_where (λ (d : UserDevice). d.user_id == id) (without_auth now) ds)
        ≡ some d
      → d.user_id ≡ id
      → d.refresh_token_hash ≡ []
  unfolding first update_where
  first-cleared [] h k = cc
  first-cleared (x ∷ xs) {d} h k =
      ground (arith, first-cleared xs {d = d}, blind x, ==_iff x.user_id id)

-- No device of the user has a refresh session.
abbrev pub Revoked : ℤ → Store → Type 0
Revoked id s =
    (token : Text) (d : UserDevice)
    → device_by_token token s.tables ≡ some d
    → d.user_id ≡ id
    → d.refresh_token_hash ≡ []

cleared_rows : ℤ → ℕ → Tables → Result (Unit {0}) × Tables
cleared_rows id now t = (
  ok tt,
  record t {
    devices = update_where (λ (d : UserDevice). d.user_id == id) (without_auth now) t.devices;
  },
)

pub forget_devices-Revoked :
    (id : ℤ) (now : ℕ) (s : Store) → s.faults ≡ [] → Revoked id (forget_devices id now s)
unfolding cleared_rows forget_devices clear_user_device_auth_by_user_id device_by_token
forget_devices-Revoked id now s healthy token d h k =
    let cleared =
      ap (λ (p : Result (Unit {0}) × Store). (p.1).tables)
        (statement_healthy (cleared_rows id now) s healthy) in
    first-cleared id now (λ (x : UserDevice). x.device_token == trim_space token) (λ x. refl)
      s.tables.devices (sym (ap (λ (t : Tables). device_by_token token t) cleared) ∙ h) k

-- Once the sessions of the user are revoked, every refresh for one of the user's devices is refused.
pub Revoked-refused :
    (site : Site) (w : World) (r : Request) (req : RefreshRequest) (s : Store) (id : ℤ)
    (d : UserDevice)
    → Revoked id s
    → is_nil (normalize_device_token req.device_token) ≡ false
    → device_by_token req.device_token s.tables ≡ some d
    → d.user_id ≡ id
    → (handle_refresh site w r req s).0.status ≡ 401
Revoked-refused site w r req s id d revoked there at his =
    (refresh-refused site w r req s d there at
      (hashless_refused site w.now d (presented_token req r) (revoked req.device_token d at his))).0

pub update_password-faults :
    (id : ℤ) (hash : Text) (s : Store) {s' : Store} {u : Unit {0}}
    → s.faults ≡ []
    → update_user_password_hash_by_id id hash s ≡ (ok u, s')
    → s'.faults ≡ []
unfolding update_user_password_hash_by_id
update_password-faults id hash s healthy h =
    sym (
      ap (λ (p : Result (Unit {0}) × Store). (p.1).faults)
        (sym (statement_healthy _ s healthy) ∙ h))

admin_change-Revoked :
    (w : World) (id : ℤ) (o : Option Text) (s : Store) {a : Response} {s' : Store}
    → s.faults ≡ []
    → admin_change_hashed w id o s ≡ (a, s')
    → a.status ≡ 200
    → Revoked id s'
admin_change-Revoked w id none s healthy h k =
    let e : ◌≡◌ {A = ℕ} 500 200 = ap (λ (p : Response × Store). (p.0).status) h ∙ k in
    absurd (omega arith)
admin_change-Revoked w id (some hash) s {s'} healthy h k =
    let (u, s₁, updated, rest) =
      answer_result-good (update_user_password_hash_by_id id hash s)
        (missing_or (txt "user not found"))
        (λ u s₂. (reply 200 success, forget_devices id w.now s₂))
        (missing_or-not_ok (txt "user not found")) h k in
    subst (Revoked id) (ap (λ (p : Response × Store). p.1) rest)
      (forget_devices-Revoked id w.now s₁ (update_password-faults id hash s healthy updated))

module _ (w : World) (s : Store) {a : Response} {s' : Store} (healthy : s.faults ≡ []) where
  admin_password-Revoked :
      (password : Text) (id : ℤ)
      → (if is_nil password
          then (refuse 400 (txt "new_password required"), s)
          else admin_change_hashed w id (w.generate password) s)
        ≡ (a, s')
      → a.status ≡ 200
      → Revoked id s'
  admin_password-Revoked password id h k = elim (Bool-cases (is_nil password)) [
    | inl blank ↦
        let e : ◌≡◌ {A = ℕ} 400 200 =
          ap (λ (p : Response × Store). (p.0).status) (sym (if_of_true _ _ blank) ∙ h) ∙ k in
        absurd (omega arith)
    | inr there ↦
        admin_change-Revoked w id (w.generate password) s healthy (sym (if_of_false _ _ there) ∙ h)
          k
  ]

  -- Once an administrator has changed the password of an account, where the engine does not fail, every
  -- refresh for a device of the account is answered with 401, whatever token it brings.
  pub handle_admin_change_user_password_revokes :
      (raw password : Text) (id : ℤ)
      → parse_id_param raw ≡ some id
      → handle_admin_change_user_password w raw (some password) s ≡ (a, s')
      → a.status ≡ 200
      → (site : Site) (later : World) (r : Request) (req : RefreshRequest) (d : UserDevice)
      → is_nil (normalize_device_token req.device_token) ≡ false
      → device_by_token req.device_token s'.tables ≡ some d
      → d.user_id ≡ id
      → (handle_refresh site later r req s').0.status ≡ 401
  unfolding handle_admin_change_user_password with_payload
  handle_admin_change_user_password_revokes raw password id parsed h k site later r req d =
      Revoked-refused site later r req s' id d
        (admin_password-Revoked password id (sym (with_id-eq raw id _ s parsed) ∙ h) k)
