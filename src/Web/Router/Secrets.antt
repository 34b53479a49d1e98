-- ===== src/Web/Router/Secrets.antt =====
-- No answer of a route holds the SIP password of a box.
use callfxo.Prelude.{ℕ, Option, none, some, [], ◌∷◌}
use callfxo.Prelude.Equality.{list_eq, nat_eq}
use callfxo.Auth.{Session, Verdict, unauthorized, forbidden, next, require_role}
use callfxo.Store.Schema.{Store, role_admin}
use callfxo.Call.State.{Manager}
use callfxo.Web.Http.{Site, World, Request, Response}
use callfxo.Web.Sessions as Sessions
use callfxo.Web.Listings as Listings
use callfxo.Web.Router as Router
use callfxo.Web.Router.{
  Route, opened, authed, admin, OpenRoute, AuthedRoute, AdminRoute, serve_open, serve_authed,
  serve_admin, on_store, admit, authenticate, serve,
}
use callfxo.Web.Router.Hiding.{HidesPasswords, Hides, HidesIn}
use callfxo.Web.Router.Handlers.{
  create_fxo-Hides, update_fxo-Hides, list_permissions-Hides, list_fxo-Hides, create_user-Hides,
  delete_user-Hides, set_password-Hides, list_users-Hides, delete_fxo-Hides, set_permission-Hides,
  set_notify-Hides, register_push-Hides, create_contact-Hides, delete_contact-Hides,
  list_calls-Hides, list_contacts-Hides, login-Hides, refresh-Hides, change_own-Hides,
}

inside : {p : Response × Store} → Hides p → HidesIn p.0
inside h = record { hides_in = h.hides }

me_response-Hides :
    (site : Site) (now : ℕ) (who : Option Session) → HidesIn (Sessions.me_response site now who)
me_response-Hides site now none = record { hides_in = tt }
me_response-Hides site now (some session) = record { hides_in = tt }

incoming-Hides :
    (m : Manager) (who : Option Session) → HidesIn (Listings.handle_list_incoming_calls who m)
unfolding Listings.handle_list_incoming_calls
incoming-Hides m none = record { hides_in = tt }
incoming-Hides m (some session) = record { hides_in = tt }

logout_hides :
    (site : Site) (w : World) (r : Request) (m : Manager)
    → HidesPasswords (Sessions.handle_logout site w r m.store).0.body
unfolding Sessions.handle_logout
logout_hides site w r m = tt

-- The manager is not looked at.
module _ (w : World) (m : Manager) where
  serve_admin-Hides : (route : AdminRoute) → HidesIn (serve_admin w route m).0
  unfolding serve_admin
  serve_admin-Hides Router.list_users = inside (list_users-Hides w m.store)
  serve_admin-Hides (Router.create_user payload) = inside (create_user-Hides w m.store payload)
  serve_admin-Hides (Router.delete_user id) = inside (delete_user-Hides w m.store id)
  serve_admin-Hides (Router.set_password id payload) =
      inside (set_password-Hides w m.store id payload)
  serve_admin-Hides (Router.create_fxo payload) = inside (create_fxo-Hides w m.store payload)
  serve_admin-Hides (Router.update_fxo id payload) = inside (update_fxo-Hides w m.store id payload)
  serve_admin-Hides (Router.delete_fxo id) = inside (delete_fxo-Hides w m.store id)
  serve_admin-Hides Router.list_permissions = inside (list_permissions-Hides w m.store)
  serve_admin-Hides (Router.set_permission payload) =
      inside (set_permission-Hides w m.store payload)

  module _ (site : Site) (r : Request) where
    serve_open-Hides : (route : OpenRoute) → HidesIn (serve_open site w r route m).0
    unfolding serve_open
    serve_open-Hides (Router.login payload) = inside (login-Hides w m.store site r payload)
    serve_open-Hides (Router.refresh req) = inside (refresh-Hides w m.store site r req)
    serve_open-Hides Router.logout = record { hides_in = logout_hides site w r m }
    serve_open-Hides Router.me =
        me_response-Hides site w.now (Sessions.session_from_request site w.now r)

    serve_authed-Hides :
        (route : AuthedRoute) (who : Option Session) → HidesIn (serve_authed site w r route who m).0
    unfolding serve_authed
    serve_authed-Hides Router.list_fxo who = inside (list_fxo-Hides w m.store m who)
    serve_authed-Hides (Router.set_notify id payload) who =
        inside (set_notify-Hides w m.store id payload who)
    serve_authed-Hides (Router.list_calls page size) who =
        inside (list_calls-Hides w m.store page size who)
    serve_authed-Hides (Router.list_contacts limit q) who =
        inside (list_contacts-Hides w m.store limit q who)
    serve_authed-Hides (Router.create_contact payload) who =
        inside (create_contact-Hides w m.store payload who)
    serve_authed-Hides (Router.delete_contact id) who =
        inside (delete_contact-Hides w m.store id who)
    serve_authed-Hides (Router.change_password payload) who =
        inside (change_own-Hides w m.store site r payload who)
    serve_authed-Hides Router.push_config who = record { hides_in = tt }
    serve_authed-Hides (Router.register_push payload) who =
        inside (register_push-Hides w m.store payload who)
    serve_authed-Hides Router.list_incoming who = incoming-Hides m who

    admit-HidesIn :
        (v : Verdict) (handler : Manager → Response × Manager)
        → HidesIn (handler m).0
        → HidesIn (admit v handler m).0
    admit-HidesIn unauthorized handler h = record { hides_in = tt }
    admit-HidesIn forbidden handler h = record { hides_in = tt }
    admit-HidesIn next handler h = h

    -- No answer to a request holds the SIP password of a box, on any route and whoever asks.
    pub serve-HidesPasswords : (route : Route) → HidesPasswords (serve site w r route m).0.body
    unfolding serve
    serve-HidesPasswords (opened route) = (serve_open-Hides route).hides_in
    serve-HidesPasswords (authed route) =
        (admit-HidesIn (authenticate site w.now r).0
          (serve_authed site w r route (authenticate site w.now r).1)
          (serve_authed-Hides route _)).hides_in
    serve-HidesPasswords (admin route) =
        (admit-HidesIn (authenticate site w.now r).0
          (admit (require_role (role_admin ∷ []) (authenticate site w.now r).1)
            (serve_admin w route))
          (admit-HidesIn (require_role (role_admin ∷ []) (authenticate site w.now r).1)
            (serve_admin w route) (serve_admin-Hides route))).hides_in
