-- ===== src/Web/Router/Guards.antt =====
-- Who gets past the guards of the routes.
use callfxo.Prelude.{
  ℕ, Option, none, some, [], ◌∷◌, ◌≡◌, ◌⊎◌, refl, ap, sym, subst, ◌∙◌, inl, inr, IsIn,
}
use mathlib.Core.Option.{some-injective}
use callfxo.Text.{Text, txt, trim_space}
use callfxo.Auth.{
  Session, Verdict, unauthorized, forbidden, next, normalize, allowed_roles, validate, require_role,
  extract_token, verdict_of,
}
use callfxo.Auth.Guards.{Signed, validate-Signed, require_auth-validate, require_role-next_iff}
use callfxo.Store.Schema.{role_admin}
use callfxo.Call.State.{Manager}
use callfxo.Web.Http.{Site, World, Request, Response, refuse}
use callfxo.Web.Router.{
  AdminRoute, AuthedRoute, authed, admin, serve_authed, serve_admin, admit, authenticate, serve,
}

-- The token of the request is signed claims of the session, which have not expired.
abbrev pub Presents : Site → ℕ → Request → Session → Type 0
Presents site now r s =
    Signed site.codec site.tokens now (trim_space (extract_token r.authorization r.access_cookie)) s

authenticated :
    (site : Site) (now : ℕ) (r : Request)
    → (authenticate site now r ≡ (unauthorized, none))
      ⊎ ((s : Session) × (authenticate site now r ≡ (next, some s)) × Presents site now r s)
authenticated site now r = from (validate site.codec site.tokens now token) refl
  where
    token : Text
    token = extract_token r.authorization r.access_cookie

    from :
        (o : Option Session)
        → validate site.codec site.tokens now token ≡ o
        → (authenticate site now r ≡ (unauthorized, none))
          ⊎ ((s : Session) × (authenticate site now r ≡ (next, some s)) × Presents site now r s)
    from none h = inl (require_auth-validate site.codec site.tokens now token ∙ ap verdict_of h)
    from (some s) h = inr (
      s,
      require_auth-validate site.codec site.tokens now token ∙ ap verdict_of h,
      validate-Signed site.codec site.tokens now token s h,
    )

-- The roles that the routes of the administrators name.
admins : allowed_roles (role_admin ∷ []) ≡ role_admin ∷ []
unfolding allowed_roles callfxo.Text.to_lower callfxo.Text.is_space
admins = refl

role_of_next :
    (who : Session)
    → require_role (role_admin ∷ []) (some who) ≡ next
    → normalize who.role ≡ role_admin
role_of_next who h = of ((require_role-next_iff (role_admin ∷ []) (some who)).0 h)
  where
    of :
        (s : Session) × (some who ≡ some s)
          × ((allowed_roles (role_admin ∷ []) ≡ [])
              ⊎ IsIn (normalize s.role) (allowed_roles (role_admin ∷ [])))
        → normalize who.role ≡ role_admin
    of (s, same, inl none_named) = cc (admins, none_named)
    of (s, same, inr i) =
        let role : normalize s.role ≡ role_admin = elim (subst (IsIn (normalize s.role)) admins i) [
          | inl e ↦ e
          | inr none_left ↦ elim none_left [ ]
        ] in
        subst (λ (x : Session). normalize x.role ≡ role_admin) (sym (some-injective who s same))
          role

-- What comes of a request for a route of the administrators.
abbrev pub AdminOutcome :
    Site → World → Request → AdminRoute → Manager → Response × Manager → Type 0
AdminOutcome site w r route m answered =
    ((s : Session) × Presents site w.now r s
      × (normalize s.role ≡ role_admin)
      × (answered ≡ serve_admin w route m))
    ⊎ (answered ≡ (refuse 401 (txt "unauthorized"), m))
    ⊎ (answered ≡ (refuse 403 (txt "forbidden"), m))

guarded :
    (site : Site) (w : World) (r : Request) (route : AdminRoute) (m : Manager) (s : Session)
    (v : Verdict)
    → Presents site w.now r s
    → require_role (role_admin ∷ []) (some s) ≡ v
    → AdminOutcome site w r route m (admit v (serve_admin w route) m)
guarded site w r route m s unauthorized p h = inr (inl refl)
guarded site w r route m s forbidden p h = inr (inr refl)
guarded site w r route m s next p h = inl (s, p, role_of_next s h, refl)

-- The two guards, with what the first one says.
abbrev gate : World → AdminRoute → Manager → Verdict × Option Session → Response × Manager
gate w route m (verdict, who) =
    admit verdict (admit (require_role (role_admin ∷ []) who) (serve_admin w route)) m

serve-gate :
    (site : Site) (w : World) (r : Request) (route : AdminRoute) (m : Manager)
    → serve site w r (admin route) m ≡ gate w route m (authenticate site w.now r)
unfolding serve
serve-gate site w r route m = refl

-- A request for a route of the administrators runs the handler only with a token of an administrator,
-- signed and not expired, and is otherwise answered with 401 or 403 and changes nothing.
pub serve-admin :
    (site : Site) (w : World) (r : Request) (route : AdminRoute) (m : Manager)
    → AdminOutcome site w r route m (serve site w r (admin route) m)
serve-admin site w r route m = elim (authenticated site w.now r) [
  | inl out ↦ inr (inl (serve-gate site w r route m ∙ ap (gate w route m) out))
  | inr (s, in_it, p) ↦
      subst (AdminOutcome site w r route m)
        (sym (serve-gate site w r route m ∙ ap (gate w route m) in_it))
        (guarded site w r route m s (require_role (role_admin ∷ []) (some s)) p refl)
]

abbrev authed_gate :
    Site → World → Request → AuthedRoute → Manager → Verdict × Option Session → Response × Manager
authed_gate site w r route m (verdict, who) = admit verdict (serve_authed site w r route who) m

serve-authed_gate :
    (site : Site) (w : World) (r : Request) (route : AuthedRoute) (m : Manager)
    → serve site w r (authed route) m ≡ authed_gate site w r route m (authenticate site w.now r)
unfolding serve
serve-authed_gate site w r route m = refl

-- A request for a route of the users runs the handler, for the session that its token shows, only with a
-- token that is signed and not expired, and is otherwise answered with 401 and changes nothing.
pub serve-authed :
    (site : Site) (w : World) (r : Request) (route : AuthedRoute) (m : Manager)
    → ((s : Session) × Presents site w.now r s
        × (serve site w r (authed route) m ≡ serve_authed site w r route (some s) m))
      ⊎ (serve site w r (authed route) m ≡ (refuse 401 (txt "unauthorized"), m))
serve-authed site w r route m = elim (authenticated site w.now r) [
  | inl out ↦ inr (serve-authed_gate site w r route m ∙ ap (authed_gate site w r route m) out)
  | inr (s, in_it, p) ↦
      inl (s, p, serve-authed_gate site w r route m ∙ ap (authed_gate site w r route m) in_it)
]
