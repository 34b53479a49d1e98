-- ===== src/Auth.antt =====
-- internal/auth/session.go: access tokens, signed claims in base64, and the guards of the routes. HMAC,
-- base64 and JSON are parameters. Times are Unix seconds.
pub mod Tests
pub mod Tokens
pub mod Guards
use callfxo.Prelude.{
  ℕ, ◌+◌, Bool, true, false, ◌||◌, ◌&&◌, not, Option, none, some, List, [], ◌∷◌, ◌++◌, drop, ltb,
  is_nil, if◌then◌else◌,
}
use callfxo.Prelude.Integers.{ℤ, pos, negsuc, is_positive}
use callfxo.Prelude.Equality.{◌==◌, nat_eq, list_eq}
use callfxo.Text.{Text, txt, trim_space, to_lower, has_prefix, cut, is_blank}

pub record Session : Type 0 where
  pub token : Text
  pub user_id : ℤ
  pub username : Text
  pub role : Text
  pub device_token : Text
  pub expires_at : ℤ

pub record AccessClaims : Type 0 where
  pub user_id : ℤ
  pub username : Text
  pub role : Text
  pub device_token : Text
  pub expires_at : ℤ
  pub nonce : Text

abbrev pub Bytes : Type 0
Bytes = List ℕ

-- What is called of crypto/hmac, encoding/base64 and encoding/json; `none` is an error.
pub record Codec : Type 0 where
  pub hmac : Bytes → Bytes → Bytes
  pub encode : Bytes → Text
  pub decode : Text → Option Bytes
  pub marshal : AccessClaims → Option Bytes
  pub unmarshal : Bytes → Option AccessClaims

pub record Manager : Type 0 where
  pub secret : Bytes
  pub access_ttl : ℕ

unfoldable pub session_from_claims : Text → AccessClaims → Session
unfolding trim_space to_lower
session_from_claims token claims = record {
  token = token;
  user_id = claims.user_id;
  username = trim_space claims.username;
  role = to_lower (trim_space claims.role);
  device_token = trim_space claims.device_token;
  expires_at = claims.expires_at;
}

abbrev pub new_claims : Manager → ℤ → Text → Text → Text → ℕ → Text → AccessClaims
new_claims m user_id username role device_token now nonce = record {
  user_id = user_id;
  username = trim_space username;
  role = to_lower (trim_space role);
  device_token = trim_space device_token;
  expires_at = pos (now + m.access_ttl);
  nonce = nonce;
}

abbrev pub sign : Codec → Manager → Bytes → Text
sign codec m payload = codec.encode payload ++ b'.' ∷ codec.encode (codec.hmac m.secret payload)

abbrev pub sign_claims : Codec → Manager → AccessClaims → Option Bytes → Option Session
sign_claims codec m claims none = none
sign_claims codec m claims (some payload) = some (session_from_claims (sign codec m payload) claims)

-- `nonce` is what randomToken returns.
unfoldable pub create : Codec → Manager → ℤ → Text → Text → Text → ℕ → Option Text → Option Session
unfolding session_from_claims trim_space to_lower
create codec m user_id username role device_token now none = none
create codec m user_id username role device_token now (some nonce) =
    let claims = new_claims m user_id username role device_token now nonce in
    sign_claims codec m claims (codec.marshal claims)

abbrev pub is_after : ℕ → ℤ → Bool
is_after now (pos exp) = ltb exp now
is_after now (negsuc n) = true

abbrev pub check_claims : ℕ → Text → Option AccessClaims → Option Session
check_claims now token none = none
check_claims now token (some claims) =
    if not (is_positive claims.user_id)
      || is_nil (trim_space claims.device_token)
      || not (is_positive claims.expires_at)
    then none
    else if is_after now claims.expires_at
    then none
    else some (session_from_claims token claims)

abbrev pub check_parts : Codec → Manager → ℕ → Text → Option Bytes → Option Bytes → Option Session
check_parts codec m now token none sig = none
check_parts codec m now token (some payload) none = none
check_parts codec m now token (some payload) (some sig) =
    if sig == codec.hmac m.secret payload
    then check_claims now token (codec.unmarshal payload)
    else none

-- From where the blanks around the token are gone.
abbrev pub validate_trimmed : Codec → Manager → ℕ → Text → Option (Text × Text) → Option Session
validate_trimmed codec m now token none = none
validate_trimmed codec m now token (some (payload_part, sig_part)) =
    if is_nil payload_part || is_nil sig_part
    then none
    else check_parts codec m now token (codec.decode payload_part) (codec.decode sig_part)

unfoldable pub validate : Codec → Manager → ℕ → Text → Option Session
unfolding cut trim_space session_from_claims
validate codec m now raw =
    let token = trim_space raw in
    if is_nil token then none else validate_trimmed codec m now token (cut b'.' token)

-- What a middleware does with a request.
pub data Verdict : Type 0 where
  unauthorized forbidden next : Verdict

abbrev pub verdict_of : Option Session → Verdict × Option Session
verdict_of none = (unauthorized, none)
verdict_of (some session) = (next, some session)

unfoldable pub require_auth : Codec → Manager → ℕ → Text → Verdict × Option Session
unfolding validate
require_auth codec m now token = verdict_of (validate codec m now token)

abbrev pub normalize : Text → Text
normalize role = to_lower (trim_space role)

-- The set of the roles that are not blank.
unfoldable pub allowed_roles : List Text → List Text
unfolding to_lower trim_space
allowed_roles [] = []
allowed_roles (r ∷ rs) =
    let rest = allowed_roles rs in if is_nil (normalize r) then rest else normalize r ∷ rest

unfoldable pub is_allowed : Text → List Text → Bool
is_allowed role [] = false
is_allowed role (r ∷ rs) = let rest = is_allowed role rs in r == role || rest

unfoldable pub require_role : List Text → Option Session → Verdict
unfolding allowed_roles is_allowed
require_role roles none = unauthorized
require_role roles (some session) =
    if is_nil (allowed_roles roles)
    then next
    else if is_allowed (normalize session.role) (allowed_roles roles)
    then next
    else forbidden

-- From the Authorization header and the cookie.
unfoldable pub extract_token : Text → Option Text → Text
unfolding has_prefix to_lower trim_space
extract_token header cookie =
    let auth = trim_space header in
    if has_prefix (to_lower auth) (txt "bearer ")
    then trim_space (drop 7 auth)
    else elim cookie [ none ↦ [] | some token ↦ trim_space token ]

unfoldable pub refresh_cookie_name : Text → Text
unfolding trim_space
refresh_cookie_name access_cookie_name =
    let name = trim_space access_cookie_name in
    if is_nil name then txt "callfxo_refresh" else name ++ txt "_refresh"
