-- ===== src/Startup.antt =====
-- main.go, lines 73 to 162: what the program prepares before it serves. The settings and accounts are
-- those of `Store`; what the operating system, bcrypt and the source of random numbers answer is given.
mod Accounts
mod Admin
mod Secret
mod Tests
use callfxo.Prelude.{ℕ, Bool, true, false, ◌||◌, Option, none, some, ltb, is_nil, if◌then◌else◌}
use callfxo.Prelude.Equality.{◌==◌, nat_eq, list_eq}
use callfxo.Text.{Text, txt, trim_space, is_blank}
use callfxo.Store.Schema.{
  User, UserCredential, Store, Error, not_found, constraint, engine, unsupported_field, Result, ok,
  err, role_admin,
}
use callfxo.Store.Settings.{get_setting, upsert_setting}
use callfxo.Store.Users.{
  get_user_credential_by_username, set_user_role_by_username, count_admins, create_user,
}

pub data StartError : Type 0 where
  store_failed : Error → StartError
  no_random no_hash no_path is_directory stat_failed : StartError

pub data Start (A : Type 0) : Type 0 where
  ready : A → Start A
  failed : StartError → Start A

-- What os.Stat answers.
pub data FileInfo : Type 0 where
  regular directory missing unreadable : FileInfo

abbrev pub fresh_info : FileInfo → Start Bool
fresh_info regular = ready false
fresh_info directory = failed is_directory
fresh_info missing = ready true
fresh_info unreadable = failed stat_failed

unfoldable pub is_fresh_db : Text → FileInfo → Start Bool
unfolding is_blank
is_fresh_db path info = if is_blank path then failed no_path else fresh_info info

abbrev pub setting_auth_session_secret_key : Text
setting_auth_session_secret_key = txt "auth.session_secret"

abbrev pub stored_secret : Text → Result (Unit {0}) × Store → Start (Text × Bool) × Store
stored_secret secret (ok u, s) = (ready (secret, true), s)
stored_secret secret (err e, s) = (failed (store_failed e), s)

-- `random` is what randomToken(48) returns.
unfoldable pub make_secret : Option Text → ℕ → Store → Start (Text × Bool) × Store
make_secret none now s = (failed no_random, s)
make_secret (some secret) now s =
    stored_secret secret (upsert_setting setting_auth_session_secret_key secret now s)

abbrev pub secret_from : Option Text → ℕ → Result Text × Store → Start (Text × Bool) × Store
secret_from random now (ok value, s) =
    if is_nil (trim_space value)
    then make_secret random now s
    else (ready (trim_space value, false), s)
secret_from random now (err not_found, s) = make_secret random now s
secret_from random now (err constraint, s) = (failed (store_failed constraint), s)
secret_from random now (err engine, s) = (failed (store_failed engine), s)
secret_from random now (err unsupported_field, s) = (failed (store_failed unsupported_field), s)

unfoldable pub ensure_session_secret : Option Text → ℕ → Store → Start (Text × Bool) × Store
unfolding make_secret
ensure_session_secret random now s =
    secret_from random now (get_setting setting_auth_session_secret_key s)

-- The password of the new administrator, and whether it was generated; `random` is randomToken(16).
unfoldable pub bootstrap_password : Bool → Text → Option Text → Option (Text × Bool)
unfolding trim_space
bootstrap_password fresh_db configured random =
    if fresh_db || is_nil (trim_space configured)
    then elim random [ none ↦ none | some password ↦ some (password, true) ]
    else some (trim_space configured, false)

abbrev pub created : Text × Bool → Result User × Store → Start (Text × Bool) × Store
created password (ok user, s) = (ready password, s)
created password (err e, s) = (failed (store_failed e), s)

abbrev pub create_admin_hashed :
    Text → Text × Bool → Option Text → ℕ → Store → Start (Text × Bool) × Store
create_admin_hashed username password none now s = (failed no_hash, s)
create_admin_hashed username password (some hash) now s =
    created password (create_user username hash role_admin now s)

-- `generate` is bcrypt.GenerateFromPassword.
abbrev pub create_admin :
    (Text → Option Text) → Text → Option (Text × Bool) → ℕ → Store → Start (Text × Bool) × Store
create_admin generate username none now s = (failed no_random, s)
create_admin generate username (some password) now s =
    create_admin_hashed username password (generate password.0) now s

abbrev pub promoted : Result (Unit {0}) × Store → Start (Text × Bool) × Store
promoted (ok u, s) = (ready (txt "", false), s)
promoted (err e, s) = (failed (store_failed e), s)

abbrev pub counted :
    (Store → Start (Text × Bool) × Store) → Result ℕ × Store → Start (Text × Bool) × Store
counted make (ok n, s) = if ltb 0 n then (ready (txt "", false), s) else make s
counted make (err e, s) = (failed (store_failed e), s)

abbrev pub admin_from :
    Text
    → (Store → Start (Text × Bool) × Store)
    → Result UserCredential × Store
    → Start (Text × Bool) × Store
admin_from username make (ok uc, s) =
    if uc.role == role_admin
    then (ready (txt "", false), s)
    else promoted (set_user_role_by_username username role_admin s)
admin_from username make (err not_found, s) = counted make (count_admins s)
admin_from username make (err constraint, s) = (failed (store_failed constraint), s)
admin_from username make (err engine, s) = (failed (store_failed engine), s)
admin_from username make (err unsupported_field, s) = (failed (store_failed unsupported_field), s)

abbrev pub admin_name : Text → Text
admin_name configured =
    if is_nil (trim_space configured) then txt "admin" else trim_space configured

unfoldable pub bootstrap_admin :
    (Text → Option Text)
    → Option Text
    → Text
    → Text
    → Bool
    → ℕ
    → Store
    → Start (Text × Bool) × Store
unfolding bootstrap_password trim_space
bootstrap_admin generate random username password fresh_db now s =
    let name = admin_name username in
    admin_from name (create_admin generate name (bootstrap_password fresh_db password random) now)
      (get_user_credential_by_username name s)
