-- ===== src/Store/Users.antt =====
-- internal/store/store.go, lines 362 to 502: accounts.
pub mod Deletion
use callfxo.Prelude.{
  ℕ, suc, Bool, true, false, Option, none, some, List, [], ◌∷◌, ◌++◌, map, ◌&&◌, length,
  if◌then◌else◌,
}
use callfxo.Prelude.Integers.{ℤ, pos}
use callfxo.Prelude.Equality.{◌==◌, int_eq, list_eq, nat_eq}
use callfxo.Prelude.Rows.{select, delete_where, update_where, first, exists, count_where}
use callfxo.Text.{Text}
use callfxo.Store.Schema.{
  User, UserCredential, Tables, Store, Error, not_found, constraint, engine, Result, ok, err,
  Action, ◌>>=◌, ◌>>◌, pure, raise, statement, read, or_not_found, found, cascade_user,
  normalize_role, role_admin,
}

unfoldable pub insert_user : Text → Text → Text → ℕ → Tables → Result User × Tables
insert_user username password_hash role now t =
    let user : User = record {
      id = pos t.next_user;
      username = username;
      role = role;
      created_at = now;
    } in
    if exists (λ (u : UserCredential). u.username == username) t.users
    then (err constraint, t)
    else (
      ok user,
      record t {
        users = t.users ++ record { user = user; password_hash = password_hash } ∷ [];
        next_user = suc t.next_user;
      },
    )

unfoldable pub create_user : Text → Text → Text → ℕ → Action User
unfolding insert_user normalize_role
create_user username password_hash role now =
    statement (insert_user username password_hash (normalize_role role) now)

-- DELETE FROM users WHERE id = ?, with the number of rows.
unfoldable pub delete_users : ℤ → Tables → Result ℕ × Tables
unfolding cascade_user
delete_users id t = (
  ok (count_where (λ (u : UserCredential). u.id == id) t.users),
  cascade_user id (record t { users = delete_where (λ (u : UserCredential). u.id == id) t.users }),
)

unfoldable pub delete_contacts_of : ℤ → Tables → Result (Unit {0}) × Tables
delete_contacts_of id t =
    (ok tt, record t { contacts = delete_where (λ c. c.user_id == id) t.contacts })

unfoldable pub delete_call_logs_of : ℤ → Tables → Result (Unit {0}) × Tables
delete_call_logs_of id t =
    (ok tt, record t { call_logs = delete_where (λ l. l.user_id == id) t.call_logs })

-- tx.Rollback: the tables are those at BEGIN.
abbrev pub rollback : Tables → Store → Store
rollback before s = record s { tables = before }

-- What a COMMIT that failed leaves, after which the code does not roll back: the next of the faults says
-- whether the statements of the transaction stay, and else the engine has rolled back.
abbrev pub commit_failed : Tables → Tables → List Bool → Store
commit_failed before t [] = record { tables = before; faults = [] }
commit_failed before t (true ∷ fs) = record { tables = t; faults = fs }
commit_failed before t (false ∷ fs) = record { tables = before; faults = fs }

abbrev pub committed : Tables → Result (Unit {0}) × Store → Result (Unit {0}) × Store
committed before (ok u, s) = (ok tt, s)
committed before (err e, s) = (err e, commit_failed before s.tables s.faults)

abbrev pub call_logs_deleted : Tables → Result (Unit {0}) × Store → Result (Unit {0}) × Store
call_logs_deleted before (err e, s) = (err e, rollback before s)
call_logs_deleted before (ok u, s) = committed before (statement (λ t. (ok tt, t)) s)

abbrev pub contacts_deleted : ℤ → Tables → Result (Unit {0}) × Store → Result (Unit {0}) × Store
contacts_deleted id before (err e, s) = (err e, rollback before s)
contacts_deleted id before (ok u, s) =
    call_logs_deleted before (statement (delete_call_logs_of id) s)

abbrev pub users_deleted : ℤ → Tables → Result ℕ × Store → Result (Unit {0}) × Store
users_deleted id before (err e, s) = (err e, rollback before s)
users_deleted id before (ok n, s) =
    if n == 0
    then (err not_found, rollback before s)
    else contacts_deleted id before (statement (delete_contacts_of id) s)

abbrev pub begun : ℤ → Result (Unit {0}) × Store → Result (Unit {0}) × Store
begun id (err e, s) = (err e, s)
begun id (ok u, s) = users_deleted id s.tables (statement (delete_users id) s)

unfoldable pub delete_user : ℤ → Action (Unit {0})
unfolding statement delete_users delete_contacts_of delete_call_logs_of
delete_user id s = begun id (statement (λ t. (ok tt, t)) s)

unfoldable pub count_users : Action ℕ
unfolding read
count_users = read (λ t. ok (length t.users))

unfoldable pub count_admins : Action ℕ
unfolding read
count_admins = read (λ t. ok (count_where (λ (u : UserCredential). u.role == role_admin) t.users))

unfoldable pub set_user_role_by_username : Text → Text → Action (Unit {0})
unfolding statement normalize_role
set_user_role_by_username username role = statement λ t.
    or_not_found (exists (λ (u : UserCredential). u.username == username) t.users)
      (record t {
        users =
            update_where (λ (u : UserCredential). u.username == username)
              (λ u. record u { user = record (u.user) { role = normalize_role role } }) t.users;
      })
      t

-- The row as `ListUsers` and `GetUserCredential…` return it.
unfoldable pub scan_credential : UserCredential → UserCredential
unfolding normalize_role
scan_credential u = record u { user = record (u.user) { role = normalize_role u.role } }

unfoldable pub list_users : Action (List User)
unfolding read scan_credential
list_users = read (λ t. ok (map (λ u. (scan_credential u).user) t.users))

unfoldable pub get_user_credential_by_username : Text → Action UserCredential
unfolding read scan_credential
get_user_credential_by_username username = do
  u ← read (λ t. found (first (λ (u : UserCredential). u.username == username) t.users))
  pure (scan_credential u)

unfoldable pub get_user_credential_by_id : ℤ → Action UserCredential
unfolding read scan_credential
get_user_credential_by_id id = do
  u ← read (λ t. found (first (λ (u : UserCredential). u.id == id) t.users))
  pure (scan_credential u)

unfoldable pub update_user_password_hash_by_id : ℤ → Text → Action (Unit {0})
unfolding statement
update_user_password_hash_by_id id password_hash = statement λ t.
    or_not_found (exists (λ (u : UserCredential). u.id == id) t.users)
      (record t {
        users =
            update_where (λ (u : UserCredential). u.id == id)
              (λ u. record u { password_hash = password_hash }) t.users;
      })
      t
