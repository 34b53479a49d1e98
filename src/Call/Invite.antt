-- ===== src/Call/Invite.antt =====
-- internal/call/manager.go, lines 358 to 376, 455 to 466, 518 to 544 and 783 to 813: how an invite ends,
-- by finishInbound, a rejection, its timer or the end of its dialog.
pub mod Finish
use callfxo.Prelude.{
  ℕ, suc, ◌+◌, Bool, true, false, ◌||◌, Option, none, some, List, [], ◌∷◌, map, is_nil,
  if◌then◌else◌,
}
use callfxo.Prelude.Integers.{ℤ, pos}
use callfxo.Prelude.Equality.{◌==◌, nat_eq, int_eq, list_eq}
use callfxo.Prelude.GoMap.{GoMap, lookup, insert}
use callfxo.Text.{Text, txt, trim_space, first_non_blank, is_blank}
use callfxo.Store.Schema.{User, UserDevice, FxoBox, Result, ok, err}
use callfxo.Store.CallLogs.{create_call_log}
use callfxo.Store.Permissions.{list_users_for_incoming_fxo}
use callfxo.Store.Devices.{list_user_devices_by_user_ids}
use callfxo.Call.Sdp.{SessionDescription, Target, found, failed, parse_sip_audio_target}
use callfxo.Call.State.{
  Address, IncomingCall, IncomingEvent, EventKind, ringing, stopped, answered, SignalCallbacks,
  CallSession, InboundInvite, Status, trying, ringing_180, busy_here, temporarily_unavailable,
  not_acceptable_here, internal_server_error, Effect, respond, respond_sdp, dialog_close, Manager,
  CallError, incoming_not_found, incoming_not_allowed, already_active, incoming_ended,
  incoming_answered, public_ip_required, respond_failed, Answer, done, refused, effect, set_invite,
  run_store, modify_session, media_ip,
}
use callfxo.Call.Registry.{
  get_user_call, has_user, register_call, remove_inbound, emit_incoming_event,
}
use callfxo.Call.Session.{MediaOutcome, close, create_webrtc_side}

abbrev pub event_of : EventKind → InboundInvite → Text → IncomingEvent
event_of kind inv reason = record {
  kind = kind;
  call = inv.meta;
  user_ids = inv.users;
  reason = reason;
}

abbrev pub ended_invite : InboundInvite → InboundInvite
ended_invite inv = record inv {
  ended = true;
  timer = false;
  meta = record (inv.meta) { state = txt "ended" };
}

-- finishInbound at an invite that has not ended.
unfoldable pub finish_body : ℕ → InboundInvite → EventKind → Text → Manager → Manager
unfolding set_invite remove_inbound emit_incoming_event
finish_body pointer inv kind reason m = effect (dialog_close inv.dialog) (
    emit_incoming_event (event_of kind (ended_invite inv) reason)
      (remove_inbound inv.meta.id (set_invite pointer (ended_invite inv) m)))

abbrev pub finish_found : ℕ → Option InboundInvite → EventKind → Text → Manager → Manager
finish_found pointer none kind reason m = m
finish_found pointer (some inv) kind reason m =
    if inv.ended then m else finish_body pointer inv kind reason m

unfoldable pub finish_inbound : ℕ → EventKind → Text → Manager → Manager
finish_inbound pointer kind reason m = finish_found pointer (lookup pointer m.invites) kind reason m

abbrev pub reject_found : ℕ → Option InboundInvite → Status → Text → Bool → Manager → Bool × Manager
reject_found pointer none status reason sent m = (true, m)
reject_found pointer (some inv) status reason sent m =
    if inv.ended || inv.connected then (true, m) else (
      sent,
      (let m' = set_invite pointer (record inv { timer = false }) m in
          if sent then effect (respond inv.dialog status reason) m' else m'),
    )

-- Whether it returns no error, where `sent` says whether the response can be sent.
unfoldable pub reject_with_response : ℕ → Status → Text → Bool → Manager → Bool × Manager
unfolding set_invite
reject_with_response pointer status reason sent m =
    reject_found pointer (lookup pointer m.invites) status reason sent m

-- `_ = inv.rejectWithResponse(…)`
abbrev pub reject_ : ℕ → Status → Text → Bool → Manager → Manager
reject_ pointer status reason sent m = (reject_with_response pointer status reason sent m).1

-- The timer of an invite fires.
unfoldable pub on_timer : ℕ → Bool → Manager → Manager
unfolding reject_with_response finish_inbound
on_timer pointer sent m =
    finish_inbound pointer stopped (txt "timeout")
      (reject_ pointer temporarily_unavailable (txt "No answer") sent m)

abbrev pub gone_found : ℕ → Option InboundInvite → Manager → Manager
gone_found pointer none m = m
gone_found pointer (some inv) m =
    if inv.ended || inv.connected
    then m
    else finish_inbound pointer stopped (txt "remote canceled") m

-- The context of the dialog is done.
unfoldable pub on_dialog_done : ℕ → Manager → Manager
unfolding finish_inbound
on_dialog_done pointer m = gone_found pointer (lookup pointer m.invites) m

-- The invite of an identifier, and where it stands.
unfoldable pub invite_by_id : Text → Manager → Option (ℕ × InboundInvite)
unfolding trim_space
invite_by_id invite_id m = elim (lookup (trim_space invite_id) m.incoming_by_id) [
  | none ↦ none
  | some pointer ↦ elim (lookup pointer m.invites) [ none ↦ none | some inv ↦ some (pointer, inv) ]
]

pub data RejectError : Type 0 where
  not_found not_allowed respond_error : RejectError

abbrev pub reject_at :
    ℤ → Option (ℕ × InboundInvite) → Text → Bool → Manager → Option RejectError × Manager
reject_at user_id none reason sent m = (some not_found, m)
reject_at user_id (some (pointer, inv)) reason sent m =
    let why = if is_blank reason then txt "declined" else reason in
    if has_user user_id inv
    then (let (fine, m') = reject_with_response pointer busy_here why sent m in
        if fine then (none, finish_inbound pointer stopped why m') else (some respond_error, m'))
    else (some not_allowed, m)

unfoldable pub reject_incoming : ℤ → Text → Text → Bool → Manager → Option RejectError × Manager
unfolding invite_by_id has_user reject_with_response finish_inbound is_blank
reject_incoming user_id invite_id reason sent m =
    reject_at user_id (invite_by_id invite_id m) reason sent m
