-- ===== src/Web/Runs.antt =====
-- Further runs: passwords, the boxes, the calls of a connection, and the values that clients are given.
use callfxo.Prelude.{
  ℕ, zero, suc, ◌≤◌, ◌<◌, Bool, true, false, Option, none, some, List, [], ◌∷◌, ◌++◌, ◌≡◌, ◌≢◌, ◌⊎◌,
  refl, arith, leb, is_nil, All,
}
use callfxo.Prelude.Integers.{ℤ, pos, is_positive}
use callfxo.Prelude.Equality.{◌==◌, nat_eq, list_eq, int_eq}
use callfxo.Prelude.GoMap.{GoMap, lookup}
use callfxo.Text.{Text, txt, cut}
use callfxo.Text.Parse.{atoi}
use callfxo.Auth.{Session}
use callfxo.Auth.Tests.{issued}
use callfxo.Store.Schema.{UserCredential, UserDevice, CallLog, Store, Result, ok}
use callfxo.Store.Tests.{healthy, gateway}
use callfxo.Store.Users.{get_user_credential_by_id}
use callfxo.Store.Devices.{device_by_token}
use callfxo.Store.Boxes.{FxoBoxWithStatus}
use callfxo.Call.State.{run_store}
use callfxo.Store.Permissions.{user_can_dial_fxo}
use callfxo.Call.Registry.{get_user_call}
use callfxo.Call.Session.Close.{closed_session}
use callfxo.Call.Tests.{call, running, set_up}
use callfxo.Call.Outbound.{DialWorld, invite_error}
use callfxo.Web.Http.{Response, World, Request}
use callfxo.Web.Tests.{tokens, site, world, request, idle, signed_in, refresh}
use callfxo.Web.Values.{normalize_device_token, normalize_turn_subject, build_turn_credentials}
use callfxo.Web.Values.Turn.{build_turn_credentials-reads}
use callfxo.Web.Sessions.{handle_refresh, RefreshRequest}
use callfxo.Web.Accounts.{
  ChangePasswordRequest, handle_admin_change_user_password, handle_change_own_password,
}
use callfxo.Web.Accounts.Revocation.{handle_admin_change_user_password_revokes}
use callfxo.Web.Accounts.OwnPassword.{handle_change_own_password_revokes}
use callfxo.Web.Listings.{handle_list_calls}
use callfxo.Web.Listings.Pages.{IsPage, handle_list_calls-IsPage}
use callfxo.Web.Http.{Response, Body, CallPage, call_page}
use callfxo.Web.Events.{BoxRuntimeState}
use callfxo.Web.BoxStatus.{current_states, box_changes}
use callfxo.Web.BoxStatus.Replay.{replay, shown, replay-box_changes}
use callfxo.Web.Signaling.{WsMessage, Connection, on_dial, on_hangup}
use callfxo.Web.Signaling.Calls.{NoCall, on_dial-NoCall, on_hangup-ends}
use callfxo.Web.Router.{authed, list_fxo, serve, serve_authed}
use callfxo.Web.Router.Guards.{Presents, serve-authed}
use callfxo.Web.Http as Http

serve-authed_example :
    ((s : Session) × Presents site 100 request s
      × (serve site (world (txt "r1")) request (authed list_fxo) idle
          ≡ serve_authed site (world (txt "r1")) request list_fxo (some s) idle))
    ⊎ (serve site (world (txt "r1")) request (authed list_fxo) idle
        ≡ (Http.refuse 401 (txt "unauthorized"), idle))
serve-authed_example = serve-authed site (world (txt "r1")) request list_fxo idle

-- An administrator has given ann a new password.
abbrev renewed : Response × Store
renewed =
    handle_admin_change_user_password (world (txt "r2")) (txt "1") (some (txt "new")) signed_in.1

-- A device of ann.
abbrev her_device : ℕ → UserDevice
her_device at = record {
  device_token = txt "t1";
  user_id = pos 1;
  client_type = txt "android";
  device_name = txt "android";
  push_platform = [];
  push_token = [];
  refresh_token_hash = [];
  refresh_expires_at = 0;
  last_seen_at = at;
  created_at = at;
  updated_at = at;
}

handle_admin_change_user_password_revokes_example :
    (handle_refresh site (world (txt "r3")) request (refresh (txt "r1")) renewed.1).0.status ≡ 401
unfolding callfxo.Web.Sessions.handle_login Http.with_payload callfxo.Text.trim_space
    callfxo.Text.is_space Http.answer_result callfxo.Store.Users.get_user_credential_by_username
    callfxo.Prelude.Rows.first callfxo.Prelude.Equality.list_beq
    callfxo.Web.Sessions.issue_device_session callfxo.Web.Values.normalize_device_token
    callfxo.Auth.create callfxo.Store.Devices.upsert_user_device callfxo.Prelude.Rows.exists
    callfxo.Prelude.Integers.int_beq Http.parse_id_param handle_admin_change_user_password
    Http.with_id callfxo.Prelude.Rows.update_where callfxo.Store.Devices.merge_device
    device_by_token callfxo.Store.Users.update_user_password_hash_by_id
    callfxo.Web.Accounts.forget_devices callfxo.Web.Values.normalize_client_type
handle_admin_change_user_password_revokes_example =
    handle_admin_change_user_password_revokes (world (txt "r2")) signed_in.1 {a = renewed.0}
      {s' = renewed.1} refl (txt "1") (txt "new") (pos 1) refl refl refl site (world (txt "r3"))
      request (refresh (txt "r1")) (her_device 100) refl refl refl

abbrev new_password : ChangePasswordRequest
new_password = record { old_password = txt "hash"; new_password = txt "new" }

abbrev changed : Response × Store
changed =
    handle_change_own_password site (world (txt "r2")) request (some new_password) (some issued)
      signed_in.1

handle_change_own_password_revokes_example :
    ((uc : UserCredential) × (s₁ : Store) × (get_user_credential_by_id (pos 1) signed_in.1
        ≡ (ok uc, s₁))
      × (site.compare uc.password_hash (txt "hash") ≡ true))
    × ((later : World) (r' : Request) (again : RefreshRequest) (d : UserDevice)
        → is_nil (normalize_device_token again.device_token) ≡ false
        → device_by_token again.device_token changed.1.tables ≡ some d
        → d.user_id ≡ pos 1
        → (handle_refresh site later r' again changed.1).0.status ≡ 401)
unfolding callfxo.Web.Sessions.handle_login Http.with_payload callfxo.Text.trim_space
    callfxo.Text.is_space Http.answer_result callfxo.Store.Users.get_user_credential_by_username
    callfxo.Prelude.Rows.first callfxo.Prelude.Equality.list_beq
    callfxo.Web.Sessions.issue_device_session callfxo.Web.Values.normalize_device_token
    callfxo.Auth.create callfxo.Store.Devices.upsert_user_device callfxo.Prelude.Rows.exists
    callfxo.Prelude.Integers.int_beq handle_change_own_password Http.with_session
handle_change_own_password_revokes_example =
    handle_change_own_password_revokes site (world (txt "r2")) request {a = changed.0}
      {s' = changed.1} issued new_password signed_in.1 refl refl refl

abbrev box : Bool → FxoBoxWithStatus
box online = record { box = gateway; online = online; in_use = false; registration = none }

-- One box has gone offline, and another one is gone.
abbrev before : GoMap ℤ BoxRuntimeState
before =
    (pos 7, record { online = true; in_use = false })
    ∷ (pos 8, record { online = true; in_use = true })
    ∷ []

replay-box_changes_example :
    shown (pos 8) (replay (box_changes before (current_states idle (box false ∷ []))) before)
    ≡ shown (pos 8) (current_states idle (box false ∷ []))
replay-box_changes_example = replay-box_changes idle before (box false ∷ []) (pos 8)

abbrev connection : Option ℕ → ℤ → Connection
connection current user_id = record {
  session = record issued { user_id = user_id };
  current = current;
  owned = [];
  sent = [];
}

abbrev dial_message : WsMessage
dial_message = record {
  kind = txt "dial";
  box_id = pos 7;
  invite_id = [];
  number = txt "0800";
  sdp = txt "v=0";
  digits = [];
  candidate = none;
}

abbrev dial : DialWorld
dial = record {
  peer_fails = false;
  now = 150;
  fresh_id = txt "c2";
  media = set_up;
  invite = invite_error (txt "busy");
  resolve_udp_addr = λ host port. none;
}

-- A user who has no permission for the box.
on_dial-NoCall_example :
    NoCall (connection none (pos 3)) idle (on_dial dial_message dial (connection none (pos 3)) idle)
unfolding run_store user_can_dial_fxo callfxo.Store.Permissions.user_has_fxo_permission
    callfxo.Text.equal_fold callfxo.Prelude.Equality.list_beq callfxo.Prelude.Rows.first
    callfxo.Prelude.Integers.int_beq callfxo.Store.Boxes.permission_of
on_dial-NoCall_example = on_dial-NoCall dial_message dial (connection none (pos 3)) idle (λ h. cc)

on_hangup-ends_example :
    ((on_hangup 200 (connection (some 10) (pos 1)) running).0.current ≡ none)
    × (lookup 10 (on_hangup 200 (connection (some 10) (pos 1)) running).1.sessions
        ≡ some (closed_session call))
    × (is_positive call.user_id ≡ true
        → get_user_call call.user_id (on_hangup 200 (connection (some 10) (pos 1)) running).1
          ≡ none)
unfolding lookup
on_hangup-ends_example =
    on_hangup-ends 200 (connection (some 10) (pos 1)) running 10 call refl refl refl

build_turn_credentials-reads_example :
    (digits : Text) × (cut b':'
        (build_turn_credentials site (txt "k") (normalize_turn_subject (txt " a:b ")) 3700).0
      ≡ some (digits, normalize_turn_subject (txt " a:b ")))
    × (atoi digits ≡ some (pos 3700))
    × All (λ x. (x == b':') ≡ false) (normalize_turn_subject (txt " a:b "))
build_turn_credentials-reads_example =
    build_turn_credentials-reads site (txt "k") (txt " a:b ") 3700 (omega arith)

abbrev second_page : Response × Store
second_page = handle_list_calls (txt "2") (txt "2") (some (tokens (txt "r1")).session) healthy

abbrev page_of : Body → CallPage
page_of (call_page p) = p
page_of other = record { items = []; page = 0; page_size = 0; total = 0; total_pages = 0 }

handle_list_calls-IsPage_example : IsPage (pos 1) healthy (page_of second_page.0.body)
unfolding handle_list_calls Http.with_session callfxo.Text.is_space Http.answer_result
    callfxo.Store.Schema.read
handle_list_calls-IsPage_example =
    handle_list_calls-IsPage (txt "2") (txt "2") (tokens (txt "r1")).session healthy
      {p = page_of second_page.0.body} {s' = second_page.1} refl (omega arith)
