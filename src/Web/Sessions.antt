-- ===== src/Web/Sessions.antt =====
-- internal/web/server.go, lines 381 to 519 and 1234 to 1274: signing in, the rotation of refresh tokens,
-- signing out, and who is signed in.
pub mod Inversion
pub mod Rotation
pub mod Login
use callfxo.Prelude.{ℕ, Bool, ◌||◌, not, Option, none, some, [], ◌∷◌, ltb, is_nil, if◌then◌else◌}
use callfxo.Prelude.Integers.{ℤ, pos}
use callfxo.Text.{Text, txt, trim_space, equal_fold, first_non_blank}
use callfxo.Auth.{Session, create, validate, extract_token, refresh_cookie_name}
use callfxo.Push.{public_config}
use callfxo.Store.Schema.{UserCredential, UserDevice, Store, Error, not_found, Result, ok, err}
use callfxo.Store.Users.{get_user_credential_by_username, get_user_credential_by_id}
use callfxo.Store.Devices.{upsert_user_device, get_user_device_by_token, clear_user_device_auth}
use callfxo.Web.Http.{
  Site, World, Request, Issued, message, success, signed_in, me, Response, reply, refuse,
  answer_result, with_payload, set_token_cookie, clear_token_cookies,
}
use callfxo.Web.Values.{
  hash_token, normalize_device_token, normalize_client_type, refresh_deadline, public_webrtc_config,
}

-- The device's own token, or a random one.
abbrev pub device_token_of : Text → Option Text → Option Text
device_token_of raw random =
    if is_nil (normalize_device_token raw) then random else some (normalize_device_token raw)

abbrev pub new_device : Site → World → ℤ → Text → Text → Text → Text → UserDevice
new_device site w user_id device_token client_type device_name refresh_token = record {
  device_token = device_token;
  user_id = user_id;
  client_type = client_type;
  device_name = if is_nil (trim_space device_name) then client_type else trim_space device_name;
  push_platform = [];
  push_token = [];
  refresh_token_hash = hash_token site refresh_token;
  refresh_expires_at = refresh_deadline w.now site.cfg.auth.refresh_ttl_hours;
  last_seen_at = 0;
  created_at = 0;
  updated_at = 0;
}

abbrev pub issued : Issued → Result (Unit {0}) × Store → Option Issued × Store
issued i (ok u, s) = (some i, s)
issued i (err e, s) = (none, s)

-- From where the tokens have been drawn.
abbrev pub issue_session :
    Site
    → World
    → UserCredential
    → Text
    → Text
    → Text
    → Text
    → Option Session
    → Store
    → Option Issued × Store
issue_session site w uc device_token client_type device_name refresh_token none s = (none, s)
issue_session site w uc device_token client_type device_name refresh_token (some session) s =
    issued
      (record {
        session = session;
        refresh_token = refresh_token;
        device_token = device_token;
        refresh_expires_at = refresh_deadline w.now site.cfg.auth.refresh_ttl_hours;
      })
      (upsert_user_device
        (new_device site w uc.id device_token client_type device_name refresh_token) none w.now s)

abbrev pub issue_tokens :
    Site
    → World
    → UserCredential
    → Option Text
    → Text
    → Text
    → Option Text
    → Store
    → Option Issued × Store
issue_tokens site w uc none client_type device_name refresh_token s = (none, s)
issue_tokens site w uc (some device_token) client_type device_name none s = (none, s)
issue_tokens site w uc (some device_token) client_type device_name (some refresh_token) s =
    issue_session site w uc device_token client_type device_name refresh_token
      (create site.codec site.tokens uc.id uc.username uc.role device_token w.now w.nonce) s

unfoldable pub issue_device_session :
    Site → World → UserCredential → Text → Text → Text → Store → Option Issued × Store
issue_device_session site w uc device_token client_type device_name s =
    issue_tokens site w uc (device_token_of device_token w.device_random)
      (normalize_client_type client_type) device_name w.refresh_random s

-- Both cookies, and what the client is told.
abbrev pub signed_in_response : Site → World → Request → UserCredential → Issued → Response
signed_in_response site w r uc i = record {
  status = 200;
  body = signed_in (record {
    user = uc.user;
    issued = i;
    push_config = public_config site.cfg.fcm;
    webrtc_config = public_webrtc_config site i.device_token w.now;
  });
  cookies =
      set_token_cookie r w.now site.cfg.auth.cookie_name i.session.token i.session.expires_at
      ∷ set_token_cookie r w.now (refresh_cookie_name site.cfg.auth.cookie_name) i.refresh_token
          (pos i.refresh_expires_at)
      ∷ [];
}

abbrev pub answer_issued :
    Site → World → Request → UserCredential → Option Issued × Store → Response × Store
answer_issued site w r uc (none, s) = (refuse 500 (txt "internal error"), s)
answer_issued site w r uc (some i, s) = (signed_in_response site w r uc i, s)

pub record LoginRequest : Type 0 where
  pub username : Text
  pub password : Text
  pub device_token : Text
  pub client_type : Text
  pub device_name : Text

unfoldable pub login_refused : Error → Response
login_refused not_found = refuse 401 (txt "invalid credentials")
login_refused e = refuse 500 (txt "internal error")

abbrev pub check_password :
    Site → World → Request → LoginRequest → UserCredential → Store → Response × Store
check_password site w r req uc s =
    if site.compare uc.password_hash req.password
    then answer_issued site w r uc
        (issue_device_session site w uc req.device_token req.client_type req.device_name s)
    else (refuse 401 (txt "invalid credentials"), s)

abbrev pub login_with : Site → World → Request → LoginRequest → Store → Response × Store
login_with site w r req s =
    if is_nil (trim_space req.username) || is_nil req.password
    then (refuse 400 (txt "username/password required"), s)
    else answer_result (get_user_credential_by_username (trim_space req.username) s) login_refused
        (check_password site w r req)

unfoldable pub handle_login :
    Site → World → Request → Option LoginRequest → Store → Response × Store
handle_login site w r payload = with_payload payload (login_with site w r)

pub record RefreshRequest : Type 0 where
  pub device_token : Text
  pub refresh_token : Text
  pub client_type : Text
  pub device_name : Text

-- 401, and both cookies are cleared.
abbrev pub refuse_session : Site → Request → Text → Response
refuse_session site r why = record {
  status = 401;
  body = message why;
  cookies = clear_token_cookies r site.cfg.auth.cookie_name;
}

-- The token of the body, or else the cookie's.
abbrev pub presented_token : RefreshRequest → Request → Text
presented_token req r =
    if is_nil (trim_space req.refresh_token)
    then elim r.refresh_cookie [ none ↦ [] | some token ↦ trim_space token ]
    else trim_space req.refresh_token

-- The stored hash is there, has not expired and is the token's.
unfoldable pub accepts_refresh : Site → ℕ → UserDevice → Text → Bool
accepts_refresh site now dev token = not (
    is_nil dev.refresh_token_hash
    || ltb dev.refresh_expires_at now
    || not (equal_fold dev.refresh_token_hash (hash_token site token)))

abbrev pub refresh_device :
    Site → World → Request → RefreshRequest → Text → UserDevice → Store → Response × Store
refresh_device site w r req token dev s =
    if accepts_refresh site w.now dev token
    then answer_result (get_user_credential_by_id dev.user_id s)
        (λ e. refuse_session site r (txt "invalid refresh session"))
        (λ uc s₁. answer_issued site w r uc (
          issue_device_session site w uc dev.device_token
            (first_non_blank req.client_type dev.client_type)
            (first_non_blank req.device_name dev.device_name) s₁))
    else (refuse_session site r (txt "invalid refresh session"), s)

-- A body that is no JSON leaves the fields empty, as `req` stands for it here.
unfoldable pub handle_refresh : Site → World → Request → RefreshRequest → Store → Response × Store
handle_refresh site w r req s =
    let device_token = normalize_device_token req.device_token in
    let token = presented_token req r in
    if is_nil device_token
    then (refuse 400 (txt "device_token required"), s)
    else if is_nil token
    then (refuse_session site r (txt "refresh token required"), s)
    else answer_result (get_user_device_by_token device_token s)
        (λ e. refuse_session site r (txt "invalid refresh session"))
        (refresh_device site w r req token)

unfoldable pub session_from_request : Site → ℕ → Request → Option Session
unfolding validate extract_token
session_from_request site now r =
    validate site.codec site.tokens now (extract_token r.authorization r.access_cookie)

-- The error of ClearUserDeviceAuth is dropped.
abbrev pub forget_session : Option Session → ℕ → Store → Store
forget_session none now s = s
forget_session (some session) now s =
    let (u, s') = clear_user_device_auth session.user_id session.device_token now s in s'

unfoldable pub handle_logout : Site → World → Request → Store → Response × Store
handle_logout site w r s = (
  record {
    status = 200;
    body = success;
    cookies = clear_token_cookies r site.cfg.auth.cookie_name;
  },
  forget_session (session_from_request site w.now r) w.now s,
)

abbrev pub me_response : Site → ℕ → Option Session → Response
me_response site now none = refuse 401 (txt "unauthorized")
me_response site now (some session) =
    reply 200 (me session (public_webrtc_config site session.device_token now))

unfoldable pub handle_me : Site → World → Request → Response
unfolding session_from_request public_webrtc_config
handle_me site w r = me_response site w.now (session_from_request site w.now r)
