-- ===== src/Store/Permissions/Rung.antt =====
-- SetUserFXOPermission and SetUserNotifyPreference against the queries that read the permissions.
use callfxo.Prelude.{
  ℕ, Bool, false, Option, none, some, List, [], ◌∷◌, ◌++◌, ◌≡◌, refl, ◌&&◌, ◌||◌, arith, ap, sym,
  ◌∙◌, Bool-cases, Option-cases, inl, inr, if◌then◌else◌,
}
use callfxo.Prelude.Integers.{ℤ, int_beq_iff}
use callfxo.Prelude.Equality.{◌==◌, int_eq, list_eq, nat_eq, pair_eq, list_beq}
use callfxo.Prelude.Rows.{update_where, first, exists, first-upsert, overwrite}
use callfxo.Store.Schema.{
  UserCredential, PermissionRow, Tables, Store, Result, ok, has_user, has_box, bool_to_int,
  role_admin,
}
use callfxo.Store.Statements.{statement-eq-ok, read-eq-ok}
use callfxo.Store.Boxes.{permission_of, column_is_one}
use callfxo.Store.Permissions.{
  is_permission, put_permission, set_user_fxo_permission, set_user_notify_preference, allows,
  user_has_fxo_permission, user_can_dial_fxo, permission_column, is_rung,
}

-- What an upsert of one row leaves to find under each key.
abbrev Written : PermissionRow → (PermissionRow → PermissionRow) → Tables → Tables → Type 0
Written new f t t' =
    (user_id box_id : ℤ)
    → permission_of user_id box_id t' ≡ (
        if new.user_id == user_id && new.fxo_box_id == box_id
        then some (overwrite new f (permission_of new.user_id new.fxo_box_id t))
        else permission_of user_id box_id t)

module _ (new : PermissionRow) (f : PermissionRow → PermissionRow)
    (keep : (p : PermissionRow) → ((f p).user_id ≡ p.user_id) × ((f p).fxo_box_id ≡ p.fxo_box_id))
    (t : Tables) {t' : Tables} where
  put_permission-Written : put_permission new f t ≡ (ok tt, t') → Written new f t t'
  unfolding put_permission permission_of is_permission
  put_permission-Written h user_id box_id =
      elim (Bool-cases (exists (is_permission new.user_id new.fxo_box_id) t.permissions)) [
        | inl old ↦ at (rw old at h) (rw old refl)
        | inr fresh ↦ elim (Bool-cases (has_user new.user_id t && has_box new.fxo_box_id t)) [
          | inl there ↦ at (rw (fresh, there) at h) (rw fresh refl)
          | inr gone ↦ cc (rw (fresh, gone) at h)
        ]
      ]
    where
      key : PermissionRow → ℤ × ℤ
      key p = (p.user_id, p.fxo_box_id)

      rows : List PermissionRow
      rows =
          if exists (is_permission new.user_id new.fxo_box_id) t.permissions
          then update_where (is_permission new.user_id new.fxo_box_id) f t.permissions
          else t.permissions ++ new ∷ []

      at :
          {ps : List PermissionRow}
          → ◌≡◌ {A = Result (Unit {0}) × Tables} (ok tt, record t { permissions = ps }) (ok tt, t')
          → rows ≡ ps
          → permission_of user_id box_id t' ≡ (
              if new.user_id == user_id && new.fxo_box_id == box_id
              then some (overwrite new f (permission_of new.user_id new.fxo_box_id t))
              else permission_of user_id box_id t)
      at e written =
          ap (λ (p : Result (Unit {0}) × Tables). permission_of user_id box_id p.1) (sym e)
          ∙ ap (first (λ (p : PermissionRow). key p == (user_id, box_id))) (sym written)
          ∙ first-upsert key new f (user_id, box_id) t.permissions
              (λ p. λ i. ((keep p).0 i, (keep p).1 i))

first-key :
    (user_id box_id : ℤ) (ps : List PermissionRow) {p : PermissionRow}
    → first (is_permission user_id box_id) ps ≡ some p
    → (p.user_id ≡ user_id) × (p.fxo_box_id ≡ box_id)
unfolding first is_permission
first-key user_id box_id [] h = cc
first-key user_id box_id (q ∷ ps) {p} h = ground (
  arith,
  int_beq_iff q.user_id user_id,
  int_beq_iff q.fxo_box_id box_id,
  first-key user_id box_id ps {p = p},
)

permission_of-key :
    (user_id box_id : ℤ) (t : Tables) {p : PermissionRow}
    → permission_of user_id box_id t ≡ some p
    → (p.user_id ≡ user_id) × (p.fxo_box_id ≡ box_id)
unfolding permission_of is_permission
permission_of-key user_id box_id t h = first-key user_id box_id t.permissions h

-- The notification flag that a pair of user and box has, 1 where it has no row.
abbrev notify_or_one : Option PermissionRow → ℕ
notify_or_one none = 1
notify_or_one (some p) = p.notify_incoming

-- The permission flags that a pair has, 0 where it has no row.
abbrev column_or_zero : (PermissionRow → ℕ) → Option PermissionRow → ℕ
column_or_zero column none = 0
column_or_zero column (some p) = column p

-- After a successful SetUserFXOPermission the row of the pair has the two flags that were set, and the
-- notification flag that it had, or 1 if it is new; the row of every other pair is unchanged.
pub set_user_fxo_permission-permission_of :
    (user_id box_id : ℤ) (can_dial can_receive : Bool) (now : ℕ) (s : Store) {s' : Store}
    → set_user_fxo_permission user_id box_id can_dial can_receive now s ≡ (ok tt, s')
    → (u b : ℤ)
    → permission_of u b s'.tables ≡ (
        if user_id == u && box_id == b
        then some (record {
          user_id = user_id;
          fxo_box_id = box_id;
          can_dial = bool_to_int can_dial;
          can_receive = bool_to_int can_receive;
          notify_incoming = notify_or_one (permission_of user_id box_id s.tables);
          updated_at = now;
        })
        else permission_of u b s.tables)
unfolding set_user_fxo_permission
set_user_fxo_permission-permission_of user_id box_id can_dial can_receive now s h u b =
    let w = put_permission-Written _ _ (λ p. (refl, refl)) s.tables (statement-eq-ok _ s h) u b in
    elim (Option-cases (permission_of user_id box_id s.tables)) [
      | inl e ↦ ground (arith, w, e)
      | inr (p, e) ↦ ground (arith, w, e, permission_of-key user_id box_id s.tables e)
    ]

-- After a successful SetUserNotifyPreference the row of the pair has the flag that was set, and the
-- permissions that it had, none if it is new; the row of every other pair is unchanged.
pub set_user_notify_preference-permission_of :
    (user_id box_id : ℤ) (notify : Bool) (now : ℕ) (s : Store) {s' : Store}
    → set_user_notify_preference user_id box_id notify now s ≡ (ok tt, s')
    → (u b : ℤ)
    → permission_of u b s'.tables ≡ (
        if user_id == u && box_id == b
        then some (record {
          user_id = user_id;
          fxo_box_id = box_id;
          can_dial = column_or_zero (λ p. p.can_dial) (permission_of user_id box_id s.tables);
          can_receive = column_or_zero (λ p. p.can_receive) (permission_of user_id box_id s.tables);
          notify_incoming = bool_to_int notify;
          updated_at = now;
        })
        else permission_of u b s.tables)
unfolding set_user_notify_preference
set_user_notify_preference-permission_of user_id box_id notify now s h u b =
    let w = put_permission-Written _ _ (λ p. (refl, refl)) s.tables (statement-eq-ok _ s h) u b in
    elim (Option-cases (permission_of user_id box_id s.tables)) [
      | inl e ↦ ground (arith, w, e)
      | inr (p, e) ↦ ground (arith, w, e, permission_of-key user_id box_id s.tables e)
    ]

-- Who is rung after a user sets the preference for a box: at that box the user, exactly if the flag
-- was set and the account is an administrator's or may receive; nothing changes for other users, nor
-- at other boxes.
pub set_user_notify_preference-is_rung :
    (user_id box_id : ℤ) (notify : Bool) (now : ℕ) (s : Store) {s' : Store}
    → set_user_notify_preference user_id box_id notify now s ≡ (ok tt, s')
    → (b : ℤ) (account : UserCredential)
    → is_rung b s'.tables account ≡ (
        if user_id == account.id && box_id == b
        then (account.role == role_admin
            || column_is_one (λ p. p.can_receive) (permission_of user_id box_id s.tables))
          && notify
        else is_rung b s.tables account)
unfolding is_rung bool_to_int
set_user_notify_preference-is_rung user_id box_id notify now s h b account =
    ground
      (arith, set_user_notify_preference-permission_of user_id box_id notify now s h account.id b)

-- After a successful SetUserFXOPermission, a UserCanDialFXO that answers for an account that is no
-- administrator's answers with the permission that was set.
pub set_user_fxo_permission-user_can_dial_fxo :
    (user_id box_id : ℤ) (can_dial can_receive : Bool) (now : ℕ) (s : Store) {s' s'' : Store}
    {answer : Bool}
    → set_user_fxo_permission user_id box_id can_dial can_receive now s ≡ (ok tt, s')
    → user_can_dial_fxo user_id box_id false s' ≡ (ok answer, s'')
    → answer ≡ can_dial
unfolding user_can_dial_fxo user_has_fxo_permission permission_column list_beq bool_to_int
set_user_fxo_permission-user_can_dial_fxo user_id box_id can_dial can_receive now s {s' = s'} h k =
    let (answered, same) =
      read-eq-ok
        (λ t. ok (allows (λ (p : PermissionRow). p.can_dial) (permission_of user_id box_id t))) s'
        k in
    ground (
      arith,
      answered,
      set_user_fxo_permission-permission_of user_id box_id can_dial can_receive now s h user_id
          box_id,
      int_beq_iff user_id user_id,
      int_beq_iff box_id box_id,
    )
