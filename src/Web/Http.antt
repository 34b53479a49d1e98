-- ===== src/Web/Http.antt =====
-- internal/web/server.go: what a handler is given, and what it answers. A response is its status, what its
-- JSON says and the cookies that it sets.
pub mod Results
use callfxo.Prelude.{ℕ, ◌-◌, Bool, true, Option, none, some, List, [], ◌∷◌, ltb, if◌then◌else◌}
use callfxo.Prelude.Integers.{ℤ, pos, negsuc, is_positive}
use callfxo.Prelude.Equality.{◌==◌, list_eq, nat_eq}
use callfxo.Text.{Text, txt, trim_space, to_lower}
use callfxo.Text.Parse.{atoi}
use callfxo.Config.{Config}
use callfxo.Push.{PublicConfig}
use callfxo.Auth.{Session, Codec, refresh_cookie_name}
use callfxo.Auth as Tokens
use callfxo.Store.Schema.{User, FxoBox, Contact, CallLog, Store, Error, not_found, Result, ok, err}
use callfxo.Store.Boxes.{FxoBoxWithStatus, FxoBoxForUser}
use callfxo.Store.Permissions.{UserFxoPermission}
use callfxo.Call.State.{IncomingCall}

-- What does not change while the server runs, with the functions of golang.org/x/crypto/bcrypt and of the
-- standard library that are called: `compare` says whether CompareHashAndPassword returns nil, and
-- `sha256_hex` and `hmac_sha1_base64` are the digests in the texts that they are written as.
pub record Site : Type 0 where
  pub cfg : Config
  pub tokens : Tokens.Manager
  pub codec : Codec
  pub compare : Text → Text → Bool
  pub sha256_hex : Text → Text
  pub hmac_sha1_base64 : Text → Text → Text

-- The time, what the calls of randomToken return for a device, a refresh token and the nonce of an access
-- token, and bcrypt.GenerateFromPassword with the salt that it draws; `none` is an error.
pub record World : Type 0 where
  pub now : ℕ
  pub device_random : Option Text
  pub refresh_random : Option Text
  pub nonce : Option Text
  pub generate : Text → Option Text

-- The headers and cookies that are read of a request.
pub record Request : Type 0 where
  pub tls : Bool
  pub forwarded_proto : Text
  pub authorization : Text
  pub access_cookie : Option Text
  pub refresh_cookie : Option Text

pub record Cookie : Type 0 where
  pub name : Text
  pub value : Text
  pub secure : Bool
  pub max_age : ℤ
  pub expires : ℤ

pub record WebRtcIceServer : Type 0 where
  pub urls : List Text
  pub username : Text
  pub credential : Text

-- What issueDeviceSession returns.
pub record Issued : Type 0 where
  pub session : Session
  pub refresh_token : Text
  pub device_token : Text
  pub refresh_expires_at : ℕ

pub record SignedIn : Type 0 where
  pub user : User
  pub issued : Issued
  pub push_config : PublicConfig
  pub webrtc_config : List WebRtcIceServer

pub record CallPage : Type 0 where
  pub items : List CallLog
  pub page : ℕ
  pub page_size : ℕ
  pub total : ℕ
  pub total_pages : ℕ

pub record PermissionPage : Type 0 where
  pub users : List User
  pub boxes : List FxoBoxWithStatus
  pub items : List UserFxoPermission

-- `message` is an error that the handler names, `failure` one of the store's.
pub data Body : Type 0 where
  message : Text → Body
  failure : Error → Body
  success relogin : Body
  signed_in : SignedIn → Body
  me : Session → List WebRtcIceServer → Body
  push_item : PublicConfig → Body
  user_item : User → Body
  user_items : List User → Body
  contact_item : Contact → Body
  contact_items : List Contact → Body
  box_item : FxoBox → Body
  box_items : List FxoBoxForUser → Body
  permission_page : PermissionPage → Body
  call_page : CallPage → Body
  incoming_items : List IncomingCall → Body

pub record Response : Type 0 where
  pub status : ℕ
  pub body : Body
  pub cookies : List Cookie

abbrev pub reply : ℕ → Body → Response
reply status body = record { status = status; body = body; cookies = [] }

abbrev pub refuse : ℕ → Text → Response
refuse status why = reply status (message why)

-- 404 for a row that is not there, and 500 for the other errors of the store.
unfoldable pub missing_or : Text → Error → Response
missing_or why not_found = refuse 404 why
missing_or why e = reply 500 (failure e)

unfoldable pub answer_result :
    {A : Type 0}
    → Result A × Store
    → (Error → Response)
    → (A → Store → Response × Store)
    → Response × Store
answer_result (ok a, s) bad good = good a s
answer_result (err e, s) bad good = (bad e, s)

-- `c.ShouldBindJSON(&req)`
unfoldable pub with_payload :
    {P : Type 0} → Option P → (P → Store → Response × Store) → Store → Response × Store
with_payload none handler s = (refuse 400 (txt "invalid payload"), s)
with_payload (some p) handler s = handler p s

-- `auth.SessionFromContext(c)`
unfoldable pub with_session :
    Option Session → (Session → Store → Response × Store) → Store → Response × Store
with_session none handler s = (refuse 401 (txt "unauthorized"), s)
with_session (some session) handler s = handler session s

abbrev pub positive_id : Option ℤ → Option ℤ
positive_id none = none
positive_id (some id) = if is_positive id then some id else none

unfoldable pub parse_id_param : Text → Option ℤ
unfolding atoi
parse_id_param raw = positive_id (atoi raw)

unfoldable pub with_parsed_id : Option ℤ → (ℤ → Store → Response × Store) → Store → Response × Store
with_parsed_id none handler s = (refuse 400 (txt "invalid id"), s)
with_parsed_id (some id) handler s = handler id s

unfoldable pub with_id : Text → (ℤ → Store → Response × Store) → Store → Response × Store
unfolding parse_id_param with_parsed_id
with_id raw = with_parsed_id (parse_id_param raw)

unfoldable pub is_secure_request : Request → Bool
unfolding to_lower trim_space
is_secure_request r = if r.tls then true else to_lower (trim_space r.forwarded_proto) == txt "https"

-- `time.Until(expires)`, at most 2 ^ 63 - 1 nanoseconds, in seconds.
abbrev pub max_age : ℕ → ℤ → ℕ
max_age now (pos expires) = if ltb 9223372036 (expires - now) then 9223372036 else expires - now
max_age now (negsuc n) = 0

unfoldable pub set_token_cookie : Request → ℕ → Text → Text → ℤ → Cookie
unfolding is_secure_request
set_token_cookie r now name token expires = record {
  name = name;
  value = token;
  secure = is_secure_request r;
  max_age = pos (max_age now expires);
  expires = expires;
}

unfoldable pub clear_cookie : Request → Text → Cookie
unfolding is_secure_request
clear_cookie r name = record {
  name = name;
  value = [];
  secure = is_secure_request r;
  max_age = negsuc 0;
  expires = pos 0;
}

unfoldable pub clear_token_cookies : Request → Text → List Cookie
unfolding clear_cookie refresh_cookie_name
clear_token_cookies r access_cookie =
    clear_cookie r access_cookie ∷ clear_cookie r (refresh_cookie_name access_cookie) ∷ []
