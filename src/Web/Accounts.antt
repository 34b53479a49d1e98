-- ===== src/Web/Accounts.antt =====
-- internal/web/server.go, lines 559 to 699: accounts and passwords.
pub mod Revocation
pub mod OwnPassword
use callfxo.Prelude.{ℕ, ◌||◌, ◌&&◌, not, Option, none, some, is_nil, if◌then◌else◌}
use callfxo.Prelude.Integers.{ℤ}
use callfxo.Prelude.Equality.{◌==◌, list_eq, nat_eq}
use callfxo.Text.{Text, txt, trim_space, to_lower}
use callfxo.Auth.{Session}
use callfxo.Store.Schema.{UserCredential, Store, role_admin, role_user}
use callfxo.Store.Users.{
  create_user, delete_user, list_users, get_user_credential_by_id, update_user_password_hash_by_id,
}
use callfxo.Store.Devices.{clear_user_device_auth_by_user_id}
use callfxo.Web.Http.{
  Site, World, Request, failure, success, relogin, user_item, user_items, Response, reply, refuse,
  missing_or, answer_result, with_payload, with_session, with_id, clear_token_cookies,
}

unfoldable pub handle_list_users : Store → Response × Store
unfolding list_users
handle_list_users s =
    answer_result (list_users s) (λ e. reply 500 (failure e))
      λ users s₁. (reply 200 (user_items users), s₁)

pub record CreateUserRequest : Type 0 where
  pub username : Text
  pub password : Text
  pub role : Text

-- A blank role is that of a user.
abbrev pub requested_role : Text → Text
requested_role role =
    if is_nil (to_lower (trim_space role)) then role_user else to_lower (trim_space role)

abbrev pub create_hashed : World → CreateUserRequest → Option Text → Store → Response × Store
create_hashed w req none s = (refuse 500 (txt "password hash error"), s)
create_hashed w req (some hash) s =
    if not (requested_role req.role == role_user) && not (requested_role req.role == role_admin)
    then (refuse 400 (txt "role must be admin or user"), s)
    else answer_result
        (create_user (trim_space req.username) hash (requested_role req.role) w.now s)
        (λ e. reply 400 (failure e)) λ user s₁. (reply 201 (user_item user), s₁)

unfoldable pub handle_create_user : World → Option CreateUserRequest → Store → Response × Store
unfolding trim_space to_lower create_user
handle_create_user w payload = with_payload payload λ req s.
    if is_nil (trim_space req.username) || is_nil req.password
    then (refuse 400 (txt "username/password required"), s)
    else create_hashed w req (w.generate req.password) s

-- The refresh sessions of the user's devices; an error is dropped.
unfoldable pub forget_devices : ℤ → ℕ → Store → Store
unfolding clear_user_device_auth_by_user_id
forget_devices id now s = let (u, s') = clear_user_device_auth_by_user_id id now s in s'

unfoldable pub handle_delete_user : World → Text → Store → Response × Store
unfolding delete_user forget_devices
handle_delete_user w raw_id = with_id raw_id λ id s.
    answer_result (delete_user id s) (missing_or (txt "user not found"))
      λ u s₁. (reply 200 success, forget_devices id w.now s₁)

pub record ChangePasswordRequest : Type 0 where
  pub old_password : Text
  pub new_password : Text

abbrev pub change_own_hashed :
    Site → World → Request → Session → Option Text → Store → Response × Store
change_own_hashed site w r session none s = (refuse 500 (txt "password hash error"), s)
change_own_hashed site w r session (some hash) s =
    answer_result (update_user_password_hash_by_id session.user_id hash s)
      (λ e. reply 500 (failure e))
      λ u s₁. (
        record {
          status = 200;
          body = relogin;
          cookies = clear_token_cookies r site.cfg.auth.cookie_name;
        },
        forget_devices session.user_id w.now s₁,
      )

abbrev pub change_own_checked :
    Site
    → World
    → Request
    → Session
    → ChangePasswordRequest
    → UserCredential
    → Store
    → Response × Store
change_own_checked site w r session req uc s =
    if site.compare uc.password_hash req.old_password
    then change_own_hashed site w r session (w.generate req.new_password) s
    else (refuse 401 (txt "invalid old password"), s)

unfoldable pub handle_change_own_password :
    Site
    → World
    → Request
    → Option ChangePasswordRequest
    → Option Session
    → Store
    → Response × Store
unfolding get_user_credential_by_id update_user_password_hash_by_id forget_devices
    clear_token_cookies
handle_change_own_password site w r payload who = with_session who λ session.
    with_payload payload λ req s.
      if is_nil req.old_password || is_nil req.new_password
      then (refuse 400 (txt "old_password/new_password required"), s)
      else answer_result (get_user_credential_by_id session.user_id s)
          (missing_or (txt "user not found")) (change_own_checked site w r session req)

abbrev pub admin_change_hashed : World → ℤ → Option Text → Store → Response × Store
admin_change_hashed w id none s = (refuse 500 (txt "password hash error"), s)
admin_change_hashed w id (some hash) s =
    answer_result (update_user_password_hash_by_id id hash s) (missing_or (txt "user not found"))
      λ u s₁. (reply 200 success, forget_devices id w.now s₁)

unfoldable pub handle_admin_change_user_password :
    World → Text → Option Text → Store → Response × Store
unfolding update_user_password_hash_by_id forget_devices
handle_admin_change_user_password w raw_id payload = with_id raw_id λ id.
    with_payload payload λ new_password s.
      if is_nil new_password
      then (refuse 400 (txt "new_password required"), s)
      else admin_change_hashed w id (w.generate new_password) s
