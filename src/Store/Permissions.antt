-- ===== src/Store/Permissions.antt =====
-- internal/store/store.go, lines 1110 to 1231: who may dial and who is rung.
pub mod Rung
use callfxo.Prelude.{
  ℕ, Bool, true, false, Option, none, some, List, [], ◌∷◌, ◌++◌, map, ◌&&◌, ◌||◌, not,
  if◌then◌else◌,
}
use callfxo.Prelude.Integers.{ℤ, int_leb}
use callfxo.Prelude.Equality.{◌==◌, int_eq, list_eq, nat_eq}
use callfxo.Prelude.Rows.{select, update_where, first, exists}
use callfxo.Store.Schema.{
  User, UserCredential, PermissionRow, Tables, Store, constraint, Result, ok, err, Action, pure,
  statement, read, has_user, has_box, bool_to_int, role_admin, raise, unsupported_field,
}
use callfxo.Text.{txt, Text}
use callfxo.Store.Users.{scan_credential}
use callfxo.Store.Boxes.{permission_of, column_is_one}

-- The primary key of the table.
unfoldable pub is_permission : ℤ → ℤ → PermissionRow → Bool
is_permission user_id box_id p = p.user_id == user_id && p.fxo_box_id == box_id

-- INSERT … ON CONFLICT(user_id, fxo_box_id) DO UPDATE; a new row needs its user and its box.
unfoldable pub put_permission :
    PermissionRow → (PermissionRow → PermissionRow) → Tables → Result (Unit {0}) × Tables
unfolding is_permission has_user has_box
put_permission new f t =
    if exists (is_permission new.user_id new.fxo_box_id) t.permissions
    then (
      ok tt,
      record t {
        permissions = update_where (is_permission new.user_id new.fxo_box_id) f t.permissions;
      },
    )
    else if has_user new.user_id t && has_box new.fxo_box_id t
    then (ok tt, record t { permissions = t.permissions ++ new ∷ [] })
    else (err constraint, t)

unfoldable pub set_user_fxo_permission : ℤ → ℤ → Bool → Bool → ℕ → Action (Unit {0})
unfolding statement put_permission bool_to_int
set_user_fxo_permission user_id box_id can_dial can_receive now = statement (
    put_permission
      (record {
        user_id = user_id;
        fxo_box_id = box_id;
        can_dial = bool_to_int can_dial;
        can_receive = bool_to_int can_receive;
        notify_incoming = 1;
        updated_at = now;
      })
      (λ p. record p {
        can_dial = bool_to_int can_dial;
        can_receive = bool_to_int can_receive;
        updated_at = now;
      }))

unfoldable pub set_user_notify_preference : ℤ → ℤ → Bool → ℕ → Action (Unit {0})
unfolding statement put_permission bool_to_int
set_user_notify_preference user_id box_id notify now = statement (
    put_permission
      (record {
        user_id = user_id;
        fxo_box_id = box_id;
        can_dial = 0;
        can_receive = 0;
        notify_incoming = bool_to_int notify;
        updated_at = now;
      })
      (λ p. record p { notify_incoming = bool_to_int notify; updated_at = now }))

-- A missing row allows nothing.
abbrev pub allows : (PermissionRow → ℕ) → Option PermissionRow → Bool
allows column none = false
allows column (some p) = not (column p == 0)

-- The two columns that may be asked for.
unfoldable pub permission_column : Text → Option (PermissionRow → ℕ)
permission_column field =
    if field == txt "can_dial"
    then some (λ p. p.can_dial)
    else if field == txt "can_receive"
    then some (λ p. p.can_receive)
    else none

abbrev pub read_column : ℤ → ℤ → Option (PermissionRow → ℕ) → Action Bool
read_column user_id box_id none = raise unsupported_field
read_column user_id box_id (some column) =
    read (λ t. ok (allows column (permission_of user_id box_id t)))

unfoldable pub user_has_fxo_permission : ℤ → ℤ → Text → Action Bool
unfolding read permission_of permission_column
user_has_fxo_permission user_id box_id field = read_column user_id box_id (permission_column field)

unfoldable pub user_can_dial_fxo : ℤ → ℤ → Bool → Action Bool
unfolding user_has_fxo_permission
user_can_dial_fxo user_id box_id is_admin =
    if is_admin then pure true else user_has_fxo_permission user_id box_id (txt "can_dial")

unfoldable pub user_can_receive_fxo : ℤ → ℤ → Bool → Action Bool
unfolding user_has_fxo_permission
user_can_receive_fxo user_id box_id is_admin =
    if is_admin then pure true else user_has_fxo_permission user_id box_id (txt "can_receive")

-- COALESCE(p.notify_incoming, 1) = 1
abbrev pub notify_is_one : Option PermissionRow → Bool
notify_is_one none = true
notify_is_one (some p) = p.notify_incoming == 1

-- The WHERE clause of the query for the users that an incoming call rings.
unfoldable pub is_rung : ℤ → Tables → UserCredential → Bool
unfolding permission_of
is_rung box_id t u =
    (u.role == role_admin || column_is_one (λ q. q.can_receive) (permission_of u.id box_id t))
    && notify_is_one (permission_of u.id box_id t)

unfoldable pub list_users_for_incoming_fxo : ℤ → Action (List User)
unfolding read is_rung scan_credential
list_users_for_incoming_fxo box_id =
    read (λ t. ok (map (λ u. (scan_credential u).user) (select (is_rung box_id t) t.users)))

pub record UserFxoPermission : Type 0 where
  pub user_id : ℤ
  pub fxo_box_id : ℤ
  pub can_dial : Bool
  pub can_receive : Bool
  pub notify_incoming : Bool
  pub updated_at : ℕ

-- ORDER BY user_id ASC, fxo_box_id ASC
unfoldable pub is_before : PermissionRow → PermissionRow → Bool
is_before p q =
    if p.user_id == q.user_id
    then int_leb p.fxo_box_id q.fxo_box_id
    else int_leb p.user_id q.user_id

unfoldable pub insert_ordered : PermissionRow → List PermissionRow → List PermissionRow
unfolding is_before
insert_ordered p [] = p ∷ []
insert_ordered p (q ∷ qs) =
    let rest = insert_ordered p qs in if is_before p q then p ∷ q ∷ qs else q ∷ rest

unfoldable pub sort_permissions : List PermissionRow → List PermissionRow
unfolding insert_ordered
sort_permissions [] = []
sort_permissions (p ∷ ps) = insert_ordered p (sort_permissions ps)

abbrev pub scan_permission : PermissionRow → UserFxoPermission
scan_permission p = record {
  user_id = p.user_id;
  fxo_box_id = p.fxo_box_id;
  can_dial = not (p.can_dial == 0);
  can_receive = not (p.can_receive == 0);
  notify_incoming = not (p.notify_incoming == 0);
  updated_at = p.updated_at;
}

unfoldable pub list_user_fxo_permissions : Action (List UserFxoPermission)
unfolding read sort_permissions
list_user_fxo_permissions = read (λ t. ok (map scan_permission (sort_permissions t.permissions)))
