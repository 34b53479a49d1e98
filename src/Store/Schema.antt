-- ===== src/Store/Schema.antt =====
-- internal/store/store.go: the rows of the tables that `migrate` creates, with their keys, and the
-- state that a statement works on. Times are Unix seconds. Rows stand in the order in which they were
-- inserted, so a table with an AUTOINCREMENT key is in the order of its ids.
use callfxo.Prelude.{ℕ, Bool, true, false, Option, none, some, List, [], ◌∷◌, if◌then◌else◌}
use callfxo.Prelude.Integers.{ℤ}
use callfxo.Prelude.Equality.{◌==◌, int_eq, list_eq, nat_eq}
use callfxo.Prelude.Rows.{delete_where, exists}
use callfxo.Text.{Text, txt, trim_space, to_lower}

abbrev pub role_admin : Text
role_admin = txt "admin"

abbrev pub role_user : Text
role_user = txt "user"

pub record User : Type 0 where
  pub id : ℤ
  pub username : Text
  pub role : Text
  pub created_at : ℕ

-- The embedded `User` with the hash, and a row of `users`.
pub record UserCredential : Type 0 where
  pub user : User
  pub open user use *
  pub password_hash : Text

pub record FxoBox : Type 0 where
  pub id : ℤ
  pub name : Text
  pub sip_username : Text
  pub sip_password : Text
  pub created_at : ℕ

pub record Registration : Type 0 where
  pub fxo_box_id : ℤ
  pub contact_uri : Text
  pub source_addr : Text
  pub transport : Text
  pub call_id : Text
  pub user_agent : Text
  pub expires_at : ℕ
  pub updated_at : ℕ

-- A row of `call_logs`; the listing adds the name of the box.
pub record CallLogRow : Type 0 where
  pub id : ℤ
  pub user_id : ℤ
  pub fxo_box_id : ℤ
  pub number : Text
  pub started_at : ℕ
  pub ended_at : Option ℕ
  pub status : Text
  pub reason : Text

pub record CallLog : Type 0 where
  pub row : CallLogRow
  pub fxo_box_name : Text

pub record Contact : Type 0 where
  pub id : ℤ
  pub user_id : ℤ
  pub name : Text
  pub number : Text
  pub created_at : ℕ

pub record UserDevice : Type 0 where
  pub device_token : Text
  pub user_id : ℤ
  pub client_type : Text
  pub device_name : Text
  pub push_platform : Text
  pub push_token : Text
  pub refresh_token_hash : Text
  pub refresh_expires_at : ℕ
  pub last_seen_at : ℕ
  pub created_at : ℕ
  pub updated_at : ℕ

-- A row of `user_fxo_permissions`, where the flags are integers.
pub record PermissionRow : Type 0 where
  pub user_id : ℤ
  pub fxo_box_id : ℤ
  pub can_dial : ℕ
  pub can_receive : ℕ
  pub notify_incoming : ℕ
  pub updated_at : ℕ

pub record Setting : Type 0 where
  pub key : Text
  pub value : Text
  pub updated_at : ℕ

-- `next_…` is the next value of an AUTOINCREMENT key.
pub record Tables : Type 0 where
  pub users : List UserCredential
  pub next_user : ℕ
  pub boxes : List FxoBox
  pub next_box : ℕ
  pub registrations : List Registration
  pub call_logs : List CallLogRow
  pub next_call_log : ℕ
  pub contacts : List Contact
  pub next_contact : ℕ
  pub devices : List UserDevice
  pub permissions : List PermissionRow
  pub settings : List Setting

pub data Error : Type 0 where
  not_found constraint engine unsupported_field : Error

pub data Result {ℓ} (A : Type ℓ) : Type ℓ where
  ok : A → Result A
  err : Error → Result A

-- `faults` says of each statement to come whether the engine fails on it; where it ends, no
-- further statement fails.
pub record Store : Type 0 where
  pub tables : Tables
  pub faults : List Bool

abbrev pub Action : Type 0 → Type 0
Action A = Store → Result A × Store

abbrev pub continue : {A B : Type 0} → Result A → (A → Action B) → Action B
continue (ok a) f s = f a s
continue (err e) f s = (err e, s)

infixl 10 ◌>>=◌ ◌>>◌
abbrev pub ◌>>=◌ : {A B : Type 0} → Action A → (A → Action B) → Action B
◌>>=◌ m f s = let (r, s') = m s in continue r f s'

abbrev pub ◌>>◌ : {A B : Type 0} → Action A → Action B → Action B
m >> n = m >>= λ _. n

abbrev pub pure : {A : Type 0} → A → Action A
pure a s = (ok a, s)

abbrev pub raise : {A : Type 0} → Error → Action A
raise e s = (err e, s)

abbrev pub run_statement :
    {A : Type 0} → List Bool → (Tables → Result A × Tables) → Tables → Result A × Store
run_statement [] query t = let (r, t') = query t in (r, record { tables = t'; faults = [] })
run_statement (false ∷ fs) query t =
    let (r, t') = query t in (r, record { tables = t'; faults = fs })
run_statement (true ∷ fs) query t = (err engine, record { tables = t; faults = fs })

-- One statement: the engine fails on it, or it does what its text says.
unfoldable pub statement : {A : Type 0} → (Tables → Result A × Tables) → Action A
statement query s = run_statement s.faults query s.tables

-- A statement that only reads.
unfoldable pub read : {A : Type 0} → (Tables → Result A) → Action A
unfolding statement
read query = statement (λ t. (query t, t))

-- An UPDATE or DELETE that reports ErrNotFound where no row fits.
abbrev pub or_not_found : Bool → Tables → Tables → Result (Unit {0}) × Tables
or_not_found true t' t = (ok tt, t')
or_not_found false t' t = (err not_found, t)

-- A row that was looked for.
abbrev pub found {ℓ} : {A : Type ℓ} → Option A → Result A
found none = err not_found
found (some a) = ok a

-- ON DELETE CASCADE of the foreign keys on users(id).
unfoldable pub cascade_user : ℤ → Tables → Tables
cascade_user id t = record t {
  contacts = delete_where (λ c. c.user_id == id) t.contacts;
  devices = delete_where (λ d. d.user_id == id) t.devices;
  permissions = delete_where (λ p. p.user_id == id) t.permissions;
}

-- ON DELETE CASCADE of the foreign keys on fxo_boxes(id).
unfoldable pub cascade_box : ℤ → Tables → Tables
cascade_box id t = record t {
  registrations = delete_where (λ r. r.fxo_box_id == id) t.registrations;
  call_logs = delete_where (λ l. l.fxo_box_id == id) t.call_logs;
  permissions = delete_where (λ p. p.fxo_box_id == id) t.permissions;
}

unfoldable pub has_user : ℤ → Tables → Bool
has_user id t = exists (λ (u : UserCredential). u.id == id) t.users

unfoldable pub has_box : ℤ → Tables → Bool
has_box id t = exists (λ (b : FxoBox). b.id == id) t.boxes

unfoldable pub normalize_role : Text → Text
normalize_role role = if to_lower (trim_space role) == role_admin then role_admin else role_user

unfoldable pub bool_to_int : Bool → ℕ
bool_to_int v = if v then 1 else 0

-- The tables of a new database.
abbrev pub empty : Tables
empty = record {
  users = [];
  next_user = 1;
  boxes = [];
  next_box = 1;
  registrations = [];
  call_logs = [];
  next_call_log = 1;
  contacts = [];
  next_contact = 1;
  devices = [];
  permissions = [];
  settings = [];
}
