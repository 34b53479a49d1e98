-- ===== src/Store/Boxes.antt =====
-- internal/store/store.go, lines 530 to 739: the FXO boxes, and their lists with the state of the
-- registration.
use callfxo.Prelude.{
  ℕ, suc, Bool, true, false, Option, none, some, List, [], ◌∷◌, ◌++◌, map, ◌&&◌, ltb, not,
  if◌then◌else◌,
}
use callfxo.Prelude.Integers.{ℤ, pos}
use callfxo.Prelude.Equality.{◌==◌, int_eq, list_eq, nat_eq}
use callfxo.Prelude.Rows.{select, delete_where, update_where, first, exists}
use callfxo.Text.{Text}
use callfxo.Store.Schema.{
  FxoBox, Registration, PermissionRow, Tables, not_found, constraint, Result, ok, err, Action, ◌>>◌,
  statement, read, or_not_found, found, cascade_box, has_box,
}

pub record FxoBoxWithStatus : Type 0 where
  pub box : FxoBox
  pub online : Bool
  pub in_use : Bool
  pub registration : Option Registration

pub record FxoBoxForUser : Type 0 where
  pub status : FxoBoxWithStatus
  pub can_dial : Bool
  pub can_receive : Bool
  pub notify_incoming : Bool

unfoldable pub insert_box : Text → Text → Text → ℕ → Tables → Result FxoBox × Tables
insert_box name sip_username sip_password now t =
    let box : FxoBox = record {
      id = pos t.next_box;
      name = name;
      sip_username = sip_username;
      sip_password = sip_password;
      created_at = now;
    } in
    if exists (λ (b : FxoBox). b.sip_username == sip_username) t.boxes
    then (err constraint, t)
    else (ok box, record t { boxes = t.boxes ++ box ∷ []; next_box = suc t.next_box })

unfoldable pub create_fxo_box : Text → Text → Text → ℕ → Action FxoBox
unfolding insert_box statement
create_fxo_box name sip_username sip_password now =
    statement (insert_box name sip_username sip_password now)

unfoldable pub get_fxo_box_by_id : ℤ → Action FxoBox
unfolding read
get_fxo_box_by_id id = read (λ t. found (first (λ (b : FxoBox). b.id == id) t.boxes))

unfoldable pub get_fxo_box_by_sip_username : Text → Action FxoBox
unfolding read
get_fxo_box_by_sip_username username =
    read (λ t. found (first (λ (b : FxoBox). b.sip_username == username) t.boxes))

-- The UNIQUE key fails the UPDATE where another box has the name.
unfoldable pub update_box_row : ℤ → Text → Text → Text → Tables → Result (Unit {0}) × Tables
unfolding has_box
update_box_row id name sip_username sip_password t =
    if has_box id t
    then (if exists (λ (b : FxoBox). b.sip_username == sip_username && not (b.id == id)) t.boxes
        then (err constraint, t)
        else (
          ok tt,
          record t {
            boxes =
                update_where (λ (b : FxoBox). b.id == id)
                  (λ b. record b {
                    name = name;
                    sip_username = sip_username;
                    sip_password = sip_password;
                  })
                  t.boxes;
          },
        ))
    else (err not_found, t)

unfoldable pub update_fxo_box : ℤ → Text → Text → Text → Action FxoBox
unfolding statement update_box_row get_fxo_box_by_id
update_fxo_box id name sip_username sip_password = do
  statement (update_box_row id name sip_username sip_password)
  get_fxo_box_by_id id

unfoldable pub delete_fxo_box : ℤ → Action (Unit {0})
unfolding statement cascade_box has_box
delete_fxo_box id = statement λ t.
    or_not_found (has_box id t)
      (cascade_box id (record t { boxes = delete_where (λ (b : FxoBox). b.id == id) t.boxes })) t

-- LEFT JOIN on the primary key of fxo_registrations.
unfoldable pub registration_of : ℤ → Tables → Option Registration
registration_of id t = first (λ (r : Registration). r.fxo_box_id == id) t.registrations

unfoldable pub is_online : ℕ → Option Registration → Bool
is_online now none = false
is_online now (some r) = ltb now r.expires_at

unfoldable pub with_status : ℕ → Tables → FxoBox → FxoBoxWithStatus
unfolding registration_of is_online
with_status now t b = record {
  box = b;
  online = is_online now (registration_of b.id t);
  in_use = false;
  registration = registration_of b.id t;
}

unfoldable pub list_fxo_boxes_with_status : ℕ → Action (List FxoBoxWithStatus)
unfolding read with_status
list_fxo_boxes_with_status now = read (λ t. ok (map (with_status now t) t.boxes))

-- LEFT JOIN on the primary key of user_fxo_permissions.
unfoldable pub permission_of : ℤ → ℤ → Tables → Option PermissionRow
permission_of user_id box_id t =
    first (λ (p : PermissionRow). p.user_id == user_id && p.fxo_box_id == box_id) t.permissions

-- `v.Valid && v.Int64 != 0` of a column.
abbrev pub flag_of : (PermissionRow → ℕ) → Option PermissionRow → Bool
flag_of column none = false
flag_of column (some p) = not (column p == 0)

-- The preference of an administrator, who needs no row.
abbrev pub notify_or_default : Option PermissionRow → Bool
notify_or_default none = true
notify_or_default (some p) = not (p.notify_incoming == 0)

unfoldable pub for_user : ℕ → ℤ → Bool → Tables → FxoBox → FxoBoxForUser
unfolding with_status permission_of
for_user now user_id include_all t b =
    let p = permission_of user_id b.id t in
    if include_all
    then record {
      status = with_status now t b;
      can_dial = true;
      can_receive = true;
      notify_incoming = notify_or_default p;
    }
    else record {
      status = with_status now t b;
      can_dial = flag_of (λ q. q.can_dial) p;
      can_receive = flag_of (λ q. q.can_receive) p;
      notify_incoming = flag_of (λ q. q.notify_incoming) p;
    }

-- `WHERE p.can_dial = 1`, which a missing row does not meet.
abbrev pub column_is_one : (PermissionRow → ℕ) → Option PermissionRow → Bool
column_is_one column none = false
column_is_one column (some p) = column p == 1

unfoldable pub list_fxo_boxes_with_status_for_user : ℕ → ℤ → Bool → Action (List FxoBoxForUser)
unfolding read for_user permission_of
list_fxo_boxes_with_status_for_user now user_id include_all = read λ t. ok (
    map (for_user now user_id include_all t) (
      if include_all
      then t.boxes
      else select (λ (b : FxoBox). column_is_one (λ q. q.can_dial) (permission_of user_id b.id t))
          t.boxes))
