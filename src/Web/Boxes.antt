-- ===== src/Web/Boxes.antt =====
-- internal/web/server.go, lines 838 to 1008: the FXO boxes and who may use them. A box that is answered
-- carries no password.
use callfxo.Prelude.{Bool, ◌||◌, not, Option, List, [], map, is_nil, if◌then◌else◌}
use callfxo.Prelude.Integers.{ℤ, is_positive}
use callfxo.Prelude.Rows.{select}
use callfxo.Text.{Text, txt, trim_space, is_blank, equal_fold}
use callfxo.Auth.{Session}
use callfxo.Store.Schema.{User, FxoBox, Store, Error, not_found, role_admin}
use callfxo.Store.Users.{list_users, get_user_credential_by_id}
use callfxo.Store.Boxes.{
  FxoBoxWithStatus, create_fxo_box, get_fxo_box_by_id, update_fxo_box, delete_fxo_box,
  list_fxo_boxes_with_status,
}
use callfxo.Store.Permissions.{
  set_user_fxo_permission, set_user_notify_preference, list_user_fxo_permissions,
}
use callfxo.Web.Http.{
  World, failure, success, box_item, permission_page, Response, reply, refuse, missing_or,
  answer_result, with_payload, with_session, with_id,
}

pub record BoxRequest : Type 0 where
  pub name : Text
  pub sip_username : Text
  pub sip_password : Text

abbrev pub without_password : FxoBox → FxoBox
without_password box = record box { sip_password = [] }

unfoldable pub handle_create_fxo : World → Option BoxRequest → Store → Response × Store
unfolding is_blank trim_space create_fxo_box
handle_create_fxo w payload = with_payload payload λ req s.
    if is_blank req.name || is_blank req.sip_username || is_blank req.sip_password
    then (refuse 400 (txt "name/sip_username/sip_password required"), s)
    else answer_result
        (create_fxo_box (trim_space req.name) (trim_space req.sip_username) req.sip_password w.now
          s)
        (λ e. reply 400 (failure e)) λ box s₁. (reply 201 (box_item (without_password box)), s₁)

-- A field that is blank keeps its value.
abbrev pub or_old : Text → Text → Text
or_old new old = if is_nil (trim_space new) then old else trim_space new

unfoldable pub update_refused : Error → Response
update_refused not_found = refuse 404 (txt "fxo box not found")
update_refused e = reply 400 (failure e)

abbrev pub update_found : ℤ → BoxRequest → FxoBox → Store → Response × Store
update_found id req old s =
    answer_result
      (update_fxo_box id (or_old req.name old.name) (or_old req.sip_username old.sip_username)
        (if is_blank req.sip_password then old.sip_password else req.sip_password) s)
      update_refused λ box s₁. (reply 200 (box_item (without_password box)), s₁)

unfoldable pub handle_update_fxo : Text → Option BoxRequest → Store → Response × Store
unfolding trim_space is_blank get_fxo_box_by_id update_fxo_box
handle_update_fxo raw_id payload = with_id raw_id λ id. with_payload payload λ req s.
    answer_result (get_fxo_box_by_id id s) (missing_or (txt "fxo box not found"))
      (update_found id req)

unfoldable pub handle_delete_fxo : Text → Store → Response × Store
unfolding delete_fxo_box
handle_delete_fxo raw_id = with_id raw_id λ id s.
    answer_result (delete_fxo_box id s) (missing_or (txt "fxo box not found"))
      λ u s₁. (reply 200 success, s₁)

abbrev pub hide_password : FxoBoxWithStatus → FxoBoxWithStatus
hide_password b = record b { box = without_password b.box }

-- The accounts that need permissions: those of no administrator.
unfoldable pub plain_users : List User → List User
unfolding equal_fold
plain_users = select (λ (u : User). not (equal_fold u.role role_admin))

unfoldable pub handle_list_fxo_permissions : World → Store → Response × Store
unfolding plain_users list_users list_fxo_boxes_with_status list_user_fxo_permissions
handle_list_fxo_permissions w s =
    answer_result (list_users s) (λ e. reply 500 (failure e))
      λ users s₁.
        answer_result (list_fxo_boxes_with_status w.now s₁) (λ e. reply 500 (failure e))
          λ boxes s₂.
            answer_result (list_user_fxo_permissions s₂) (λ e. reply 500 (failure e))
              λ items s₃. (
                reply 200 (
                    permission_page (record {
                      users = plain_users users;
                      boxes = map hide_password boxes;
                      items = items;
                    })),
                s₃,
              )

unfoldable pub handle_set_fxo_notify_preference :
    World → Text → Option Bool → Option Session → Store → Response × Store
unfolding set_user_notify_preference
handle_set_fxo_notify_preference w raw_id payload who = with_session who λ session.
    with_id raw_id λ id. with_payload payload λ notify s.
      answer_result (set_user_notify_preference session.user_id id notify w.now s)
        (λ e. reply 500 (failure e)) λ u s₁. (reply 200 success, s₁)

pub record PermissionRequest : Type 0 where
  pub user_id : ℤ
  pub box_id : ℤ
  pub can_dial : Bool
  pub can_receive : Bool

unfoldable pub handle_set_fxo_permission :
    World → Option PermissionRequest → Store → Response × Store
unfolding get_user_credential_by_id get_fxo_box_by_id set_user_fxo_permission
handle_set_fxo_permission w payload = with_payload payload λ req s.
    if not (is_positive req.user_id) || not (is_positive req.box_id)
    then (refuse 400 (txt "user_id/box_id required"), s)
    else answer_result (get_user_credential_by_id req.user_id s)
        (λ e. refuse 404 (txt "user not found"))
        λ uc s₁.
          answer_result (get_fxo_box_by_id req.box_id s₁)
            (λ e. refuse 404 (txt "fxo box not found"))
            λ box s₂.
              answer_result
                (set_user_fxo_permission req.user_id req.box_id req.can_dial req.can_receive w.now
                  s₂)
                (λ e. reply 500 (failure e)) λ u s₃. (reply 200 success, s₃)
