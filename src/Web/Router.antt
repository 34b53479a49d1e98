-- ===== src/Web/Router.antt =====
-- internal/web/server.go, lines 125 to 167: the routes, with the guards in front of their handlers. A route
-- comes with what the handler reads of the request: the path's id, the query and the payload, which is
-- `none` where it cannot be bound.
pub mod Guards
pub mod Hiding
mod Handlers
pub mod Secrets
use callfxo.Prelude.{ℕ, Bool, Option, none, some, List, [], ◌∷◌}
use callfxo.Text.{Text, txt}
use callfxo.Auth.{
  Session, Verdict, unauthorized, forbidden, next, require_auth, require_role, extract_token,
}
use callfxo.Store.Schema.{Store, role_admin}
use callfxo.Call.State.{Manager}
use callfxo.Web.Http.{Site, World, Request, Response, refuse}
use callfxo.Web.Sessions.{
  LoginRequest, RefreshRequest, handle_login, handle_refresh, handle_logout, handle_me,
}
use callfxo.Web.Accounts.{
  CreateUserRequest, ChangePasswordRequest, handle_list_users, handle_create_user,
  handle_delete_user, handle_change_own_password, handle_admin_change_user_password,
}
use callfxo.Web.Boxes.{
  BoxRequest, PermissionRequest, handle_create_fxo, handle_update_fxo, handle_delete_fxo,
  handle_list_fxo_permissions, handle_set_fxo_notify_preference, handle_set_fxo_permission,
}
use callfxo.Web.Listings.{
  PushRequest, ContactRequest, handle_push_config, handle_register_push_token,
  handle_list_incoming_calls, handle_list_fxo, handle_list_calls, handle_list_contacts,
  handle_create_contact, handle_delete_contact,
}

pub data OpenRoute : Type 0 where
  login : Option LoginRequest → OpenRoute
  refresh : RefreshRequest → OpenRoute
  logout me : OpenRoute

pub data AuthedRoute : Type 0 where
  list_fxo : AuthedRoute
  set_notify : Text → Option Bool → AuthedRoute
  list_calls : Text → Text → AuthedRoute
  list_contacts : Text → Text → AuthedRoute
  create_contact : Option ContactRequest → AuthedRoute
  delete_contact : Text → AuthedRoute
  change_password : Option ChangePasswordRequest → AuthedRoute
  push_config : AuthedRoute
  register_push : Option PushRequest → AuthedRoute
  list_incoming : AuthedRoute

pub data AdminRoute : Type 0 where
  list_users : AdminRoute
  create_user : Option CreateUserRequest → AdminRoute
  delete_user : Text → AdminRoute
  set_password : Text → Option Text → AdminRoute
  create_fxo : Option BoxRequest → AdminRoute
  update_fxo : Text → Option BoxRequest → AdminRoute
  delete_fxo : Text → AdminRoute
  list_permissions : AdminRoute
  set_permission : Option PermissionRequest → AdminRoute

pub data Route : Type 0 where
  opened : OpenRoute → Route
  authed : AuthedRoute → Route
  admin : AdminRoute → Route

abbrev pub on_store : (Store → Response × Store) → Manager → Response × Manager
on_store handler m = let (r, s) = handler m.store in (r, record m { store = s })

unfoldable pub serve_open : Site → World → Request → OpenRoute → Manager → Response × Manager
unfolding handle_login handle_refresh handle_logout handle_me
serve_open site w r (login payload) m = on_store (handle_login site w r payload) m
serve_open site w r (refresh req) m = on_store (handle_refresh site w r req) m
serve_open site w r logout m = on_store (handle_logout site w r) m
serve_open site w r me m = (handle_me site w r, m)

unfoldable pub serve_authed :
    Site → World → Request → AuthedRoute → Option Session → Manager → Response × Manager
unfolding handle_list_fxo handle_set_fxo_notify_preference handle_list_calls handle_list_contacts
    handle_create_contact handle_delete_contact handle_change_own_password handle_push_config
    handle_register_push_token handle_list_incoming_calls
serve_authed site w r list_fxo who m = on_store (handle_list_fxo w m who) m
serve_authed site w r (set_notify id payload) who m =
    on_store (handle_set_fxo_notify_preference w id payload who) m
serve_authed site w r (list_calls page size) who m = on_store (handle_list_calls page size who) m
serve_authed site w r (list_contacts limit q) who m = on_store (handle_list_contacts limit q who) m
serve_authed site w r (create_contact payload) who m =
    on_store (handle_create_contact w payload who) m
serve_authed site w r (delete_contact id) who m = on_store (handle_delete_contact id who) m
serve_authed site w r (change_password payload) who m =
    on_store (handle_change_own_password site w r payload who) m
serve_authed site w r push_config who m = (handle_push_config site, m)
serve_authed site w r (register_push payload) who m =
    on_store (handle_register_push_token w payload who) m
serve_authed site w r list_incoming who m = (handle_list_incoming_calls who m, m)

unfoldable pub serve_admin : World → AdminRoute → Manager → Response × Manager
unfolding handle_list_users handle_create_user handle_delete_user handle_admin_change_user_password
    handle_create_fxo handle_update_fxo handle_delete_fxo handle_list_fxo_permissions
    handle_set_fxo_permission
serve_admin w list_users m = on_store handle_list_users m
serve_admin w (create_user payload) m = on_store (handle_create_user w payload) m
serve_admin w (delete_user id) m = on_store (handle_delete_user w id) m
serve_admin w (set_password id payload) m =
    on_store (handle_admin_change_user_password w id payload) m
serve_admin w (create_fxo payload) m = on_store (handle_create_fxo w payload) m
serve_admin w (update_fxo id payload) m = on_store (handle_update_fxo id payload) m
serve_admin w (delete_fxo id) m = on_store (handle_delete_fxo id) m
serve_admin w list_permissions m = on_store (handle_list_fxo_permissions w) m
serve_admin w (set_permission payload) m = on_store (handle_set_fxo_permission w payload) m

-- A middleware aborts, or lets the next handler run.
abbrev pub admit : Verdict → (Manager → Response × Manager) → Manager → Response × Manager
admit unauthorized handler m = (refuse 401 (txt "unauthorized"), m)
admit forbidden handler m = (refuse 403 (txt "forbidden"), m)
admit next handler m = handler m

abbrev pub authenticate : Site → ℕ → Request → Verdict × Option Session
authenticate site now r =
    require_auth site.codec site.tokens now (extract_token r.authorization r.access_cookie)

unfoldable pub serve : Site → World → Request → Route → Manager → Response × Manager
unfolding require_auth extract_token require_role serve_open serve_authed serve_admin
serve site w r (opened route) m = serve_open site w r route m
serve site w r (authed route) m =
    let (verdict, who) = authenticate site w.now r in
    admit verdict (serve_authed site w r route who) m
serve site w r (admin route) m =
    let (verdict, who) = authenticate site w.now r in
    admit verdict (admit (require_role (role_admin ∷ []) who) (serve_admin w route)) m
