-- ===== src/Web/Tests.antt =====
-- Runs of the handlers on the test database, with digests that return their input.
use callfxo.Prelude.{
  ℕ, ◌≤◌, ◌<◌, Bool, true, false, Option, none, some, List, [], ◌∷◌, ◌++◌, ◌≡◌, ◌≢◌, refl, arith,
  leb, is_nil, All,
}
use callfxo.Prelude.Integers.{ℤ, pos, is_positive}
use callfxo.Prelude.Equality.{◌==◌, nat_eq, list_eq, int_eq}
use callfxo.Text.{Text, txt, trim_space, equal_fold, cut}
use callfxo.Config.{default}
use callfxo.Auth.{Session, Codec, new_claims, sign}
use callfxo.Auth.Tests.{signer, shifting, issued}
use callfxo.Store.Schema.{UserCredential, Store, ok, role_admin}
use callfxo.Store.Tests.{healthy}
use callfxo.Store.Users.{get_user_credential_by_id, get_user_credential_by_username}
use callfxo.Call.State.{Manager}
use callfxo.Call.Tests.{running}
use callfxo.Web.Http.{Site, World, Request, Issued, Response, parse_id_param}
use callfxo.Web.Values.{normalize_turn_subject, build_turn_credentials, normalize_device_token}
use callfxo.Web.Sessions.{RefreshRequest, LoginRequest, handle_login, handle_refresh}
use callfxo.Web.Sessions.Rotation.{Holds, handle_refresh_rotates}
use callfxo.Web.Sessions.Login.{handle_login-checked}
use callfxo.Web.Router.{admin, list_users, list_permissions, serve}
use callfxo.Web.Router.Guards.{AdminOutcome, serve-admin}
use callfxo.Web.Router.Hiding.{HidesPasswords}
use callfxo.Web.Router.Secrets.{serve-HidesPasswords}
use callfxo.Web.Http as Http

-- A token of bob, an administrator, for the device t1.
abbrev office : Codec
office = record shifting {
  unmarshal = λ b. some (new_claims signer (pos 2) (txt "bob") role_admin (txt "t1") 100 (txt "n"));
}

abbrev pub site : Site
site = record {
  cfg = default;
  tokens = signer;
  codec = office;
  compare = λ hash password. hash == password;
  sha256_hex = λ t. t;
  hmac_sha1_base64 = λ key t. t;
}

abbrev pub world : Text → World
world refresh = record {
  now = 100;
  device_random = some (txt "d1");
  refresh_random = some refresh;
  nonce = some (txt "n");
  generate = λ password. some password;
}

abbrev pub request : Request
request = record {
  tls = true;
  forwarded_proto = [];
  authorization = txt "Bearer " ++ sign shifting signer (5 ∷ []);
  access_cookie = none;
  refresh_cookie = none;
}

abbrev pub idle : Manager
idle = record running { store = healthy }

serve-admin_example :
    AdminOutcome site
      (world (txt "r1"))
      request
      list_users
      idle
      (serve site (world (txt "r1")) request (admin list_users) idle)
serve-admin_example = serve-admin site (world (txt "r1")) request list_users idle

serve-HidesPasswords_example :
    HidesPasswords (serve site (world (txt "r1")) request (admin list_permissions) idle).0.body
serve-HidesPasswords_example =
    serve-HidesPasswords (world (txt "r1")) idle site request (admin list_permissions)

abbrev login : LoginRequest
login = record {
  username = txt " ann ";
  password = txt "hash";
  device_token = txt "t1";
  client_type = txt "Android";
  device_name = [];
}

abbrev pub signed_in : Response × Store
signed_in = handle_login site (world (txt "r1")) request (some login) healthy

-- The tokens that the world hands out.
abbrev pub tokens : Text → Issued
tokens refresh = record {
  session = record issued {
    token = issued.token;
    user_id = pos 1;
    username = txt "ann";
    role = txt "user";
    device_token = txt "t1";
    expires_at = pos 3700;
  };
  refresh_token = refresh;
  device_token = txt "t1";
  refresh_expires_at = 2592100;
}

handle_login-checked_example :
    (uc : UserCredential) × (s₁ : Store) × (get_user_credential_by_username
        (trim_space login.username)
        healthy
      ≡ (ok uc, s₁))
    × (site.compare uc.password_hash login.password ≡ true)
    × Holds site (tokens (txt "r1")) signed_in.1
unfolding handle_login Http.with_payload trim_space callfxo.Text.is_space Http.answer_result
    get_user_credential_by_username callfxo.Prelude.Rows.first callfxo.Prelude.Equality.list_beq
    callfxo.Web.Sessions.issue_device_session normalize_device_token callfxo.Auth.create
    callfxo.Store.Devices.upsert_user_device callfxo.Prelude.Rows.exists
    callfxo.Prelude.Integers.int_beq callfxo.Web.Values.refresh_deadline default
handle_login-checked_example =
    handle_login-checked site (world (txt "r1")) request login {i = tokens (txt "r1")}
      {a = signed_in.0} {s' = signed_in.1} healthy refl refl

abbrev pub refresh : Text → RefreshRequest
refresh token = record {
  device_token = txt "t1";
  refresh_token = token;
  client_type = [];
  device_name = [];
}

abbrev refreshed : Response × Store
refreshed = handle_refresh site (world (txt "r2")) request (refresh (txt "r1")) signed_in.1

handle_refresh_rotates_example :
    ((handle_refresh site (world (txt "r3")) request (refresh (txt "r1")) refreshed.1).0.status
      ≡ 401)
    × ((handle_refresh site (world (txt "r3")) request (refresh (txt "r1")) refreshed.1).1.tables
        ≡ refreshed.1.tables)
unfolding handle_refresh normalize_device_token callfxo.Text.is_space Http.answer_result
    callfxo.Store.Devices.get_user_device_by_token handle_login Http.with_payload
    get_user_credential_by_username callfxo.Prelude.Rows.first callfxo.Prelude.Equality.list_beq
    callfxo.Web.Sessions.issue_device_session callfxo.Auth.create
    callfxo.Store.Devices.upsert_user_device callfxo.Prelude.Rows.exists
    callfxo.Prelude.Integers.int_beq callfxo.Web.Sessions.accepts_refresh
    callfxo.Web.Values.hash_token callfxo.Prelude.Rows.update_where
    callfxo.Store.Devices.merge_device get_user_credential_by_id callfxo.Web.Values.refresh_deadline
    default equal_fold
handle_refresh_rotates_example =
    handle_refresh_rotates site (world (txt "r2")) (world (txt "r3")) request request
      (refresh (txt "r1")) (refresh (txt "r1")) signed_in.1 {i = tokens (txt "r2")}
      {a = refreshed.0} {s' = refreshed.1} refl refl refl refl refl
