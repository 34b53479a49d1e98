-- ===== src/Call/Inbound.antt =====
-- internal/call/manager.go, lines 271 to 356: a user accepts an incoming call.
pub mod Accept
pub mod Guards
use callfxo.Prelude.{
  ℕ, suc, ◌+◌, Bool, true, false, ◌||◌, Option, none, some, List, [], ◌∷◌, map, is_nil,
  if◌then◌else◌,
}
use callfxo.Prelude.Integers.{ℤ, pos}
use callfxo.Prelude.Equality.{◌==◌, nat_eq, int_eq, list_eq}
use callfxo.Prelude.GoMap.{GoMap, lookup, insert}
use callfxo.Text.{Text, txt, trim_space, first_non_blank, is_blank}
use callfxo.Store.Schema.{User, UserDevice, FxoBox, Result, ok, err}
use callfxo.Store.CallLogs.{create_call_log}
use callfxo.Store.Permissions.{list_users_for_incoming_fxo}
use callfxo.Store.Devices.{list_user_devices_by_user_ids}
use callfxo.Call.Sdp.{SessionDescription, Target, found, failed, parse_sip_audio_target}
use callfxo.Call.State.{
  Address, IncomingCall, IncomingEvent, EventKind, ringing, stopped, answered, SignalCallbacks,
  CallSession, InboundInvite, Status, trying, ringing_180, busy_here, temporarily_unavailable,
  not_acceptable_here, internal_server_error, Effect, respond, respond_sdp, dialog_close, Manager,
  CallError, incoming_not_found, incoming_not_allowed, already_active, incoming_ended,
  incoming_answered, public_ip_required, respond_failed, Answer, done, refused, effect, set_invite,
  run_store, modify_session, media_ip,
}
use callfxo.Call.Registry.{
  get_user_call, has_user, register_call, remove_inbound, emit_incoming_event,
}
use callfxo.Call.Session.{MediaOutcome, close, create_webrtc_side}
use callfxo.Call.Invite.{
  event_of, ended_invite, finish_body, finish_found, finish_inbound, reject_found,
  reject_with_response, reject_, on_timer, gone_found, on_dialog_done, invite_by_id, RejectError,
  reject_at, reject_incoming,
}

-- What the outside world does while an incoming call is accepted: the time, the identifier that is
-- drawn, the media, and whether a response can be sent.
pub record AcceptWorld : Type 0 where
  pub now : ℕ
  pub fresh_id : Text
  pub media : MediaOutcome
  pub can_respond : Bool
  pub can_respond_sdp : Bool

abbrev pub connecting_invite : ℤ → Text → InboundInvite → InboundInvite
connecting_invite user_id device_token inv = record inv {
  timer = false;
  meta = record (inv.meta) {
    state = txt "connecting";
    answered_by_user_id = user_id;
    answered_by_device_token = trim_space device_token;
  };
}

abbrev pub begin_at :
    ℤ → Text → Option (ℕ × InboundInvite) → Manager → Answer (ℕ × InboundInvite) × Manager
begin_at user_id device_token none m = (refused incoming_not_found, m)
begin_at user_id device_token (some (pointer, inv)) m =
    let inv' = connecting_invite user_id device_token inv in
    if has_user user_id inv
    then elim (get_user_call user_id m) [
      | some c ↦ (refused already_active, m)
      | none ↦
          if inv.ended
          then (refused incoming_ended, m)
          else if inv.connected
          then (refused incoming_answered, m)
          else (done (pointer, inv'), set_invite pointer inv' m)
    ]
    else (refused incoming_not_allowed, m)

-- AcceptIncoming up to where it releases the lock of the invite for the first time.
unfoldable pub accept_begin : ℤ → Text → Text → Manager → Answer (ℕ × InboundInvite) × Manager
unfolding invite_by_id has_user get_user_call set_invite trim_space
accept_begin user_id device_token invite_id m =
    begin_at user_id device_token (invite_by_id invite_id m) m

-- The identifier of a log row, 0 where the row could not be written.
abbrev pub log_id : Result ℤ → ℤ
log_id (ok id) = id
log_id (err e) = pos 0

abbrev pub connected_invite : InboundInvite → InboundInvite
connected_invite inv = record inv {
  connected = true;
  meta = record (inv.meta) { state = txt "connected" };
}

abbrev pub register_found : ℕ → Text → Manager → Manager
register_found pointer sip_call_id m = elim (lookup pointer m.sessions) [
  | none ↦ m
  | some c ↦ register_call pointer c sip_call_id m
]

abbrev pub connect_found :
    ℕ → Option InboundInvite → ℕ → Text → Manager → Answer (ℕ × Text) × Manager
connect_found pointer none session sdp m = (done (session, sdp), m)
connect_found pointer (some inv) session sdp m = (
  done (session, sdp),
  emit_incoming_event (event_of answered (connected_invite inv) (txt "answered")) (
      remove_inbound inv.meta.id (
        register_found session inv.meta.sip_call_id (set_invite pointer (connected_invite inv) m))),
)

-- From where the answer has been sent to the end.
unfoldable pub accept_connect : ℕ → ℕ → Text → Manager → Answer (ℕ × Text) × Manager
unfolding set_invite remove_inbound register_call emit_incoming_event
accept_connect pointer session sdp m =
    connect_found pointer (lookup pointer m.invites) session sdp m

abbrev pub answering : ℤ → Text → InboundInvite → CallSession → CallSession
answering user_id device_token inv c = record c {
  direction = txt "incoming";
  user_id = user_id;
  device_token = trim_space device_token;
  box_id = inv.meta.box_id;
  number = inv.meta.remote_number;
  caller_id = inv.meta.caller_id;
  dialog_server = some inv.dialog;
  remote_rtp = inv.remote_rtp;
  sip_pt = inv.sip_pt;
  remote_ready = true;
}

-- From where there is a session.
unfoldable pub accept_answer :
    ℤ → Text → ℕ → InboundInvite → AcceptWorld → ℕ → Text → Manager → Answer (ℕ × Text) × Manager
unfolding modify_session close finish_inbound reject_with_response accept_connect media_ip
accept_answer user_id device_token pointer inv w session sdp m =
    let joined = modify_session session (answering user_id device_token inv) m in
    if is_nil (media_ip m)
    then (
      refused public_ip_required,
      finish_inbound pointer stopped (txt "media public ip missing") (
          reject_ pointer internal_server_error (txt "Media unavailable") w.can_respond
            (close session false (txt "failed") (txt "media public ip missing") w.now m)),
    )
    else if w.can_respond_sdp
    then accept_connect pointer session sdp (effect (respond_sdp inv.dialog) joined)
    else (
      refused respond_failed,
      finish_inbound pointer stopped (txt "sip answer failed")
          (close session false (txt "failed") (txt "respond sip answer failed") w.now joined),
    )

-- From where the media have been tried.
abbrev pub after_media :
    ℤ
    → Text
    → ℕ
    → InboundInvite
    → AcceptWorld
    → Answer (ℕ × Text) × Manager
    → Answer (ℕ × Text) × Manager
after_media user_id device_token pointer inv w (refused e, m) = (
  refused e,
  finish_inbound pointer stopped (txt "accept failed")
      (reject_ pointer internal_server_error (txt "Accept failed") w.can_respond m),
)
after_media user_id device_token pointer inv w (done (session, sdp), m) =
    accept_answer user_id device_token pointer inv w session sdp m

-- AcceptIncoming behind its first part.
unfoldable pub accept_finish :
    ℤ
    → Text
    → ℕ
    → InboundInvite
    → AcceptWorld
    → SignalCallbacks
    → Manager
    → Answer (ℕ × Text) × Manager
unfolding run_store create_webrtc_side finish_inbound reject_with_response accept_answer
accept_finish user_id device_token pointer inv w cb m =
    let (logged, m₁) =
      run_store
        (create_call_log user_id inv.meta.box_id
          (first_non_blank inv.meta.caller_id inv.meta.remote_number) (txt "connecting") [] w.now)
        m in
    after_media user_id device_token pointer inv w
      (create_webrtc_side w.media w.fresh_id cb (log_id logged) w.now m₁)

abbrev pub after_begin :
    ℤ
    → Text
    → AcceptWorld
    → SignalCallbacks
    → Answer (ℕ × InboundInvite) × Manager
    → Answer (ℕ × Text) × Manager
after_begin user_id device_token w cb (refused e, m) = (refused e, m)
after_begin user_id device_token w cb (done (pointer, inv), m) =
    accept_finish user_id device_token pointer inv w cb m

unfoldable pub accept_incoming :
    ℤ → Text → Text → AcceptWorld → SignalCallbacks → Manager → Answer (ℕ × Text) × Manager
unfolding accept_begin accept_finish
accept_incoming user_id device_token invite_id w cb m =
    after_begin user_id device_token w cb (accept_begin user_id device_token invite_id m)
