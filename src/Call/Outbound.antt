-- ===== src/Call/Outbound.antt =====
-- internal/call/manager.go, lines 159 to 229: a user dials a number through a box.
pub mod Refusal
pub mod Placed
pub mod Stale
use callfxo.Prelude.{ℕ, Bool, true, false, Option, none, some, [], is_nil, if◌then◌else◌}
use callfxo.Prelude.Integers.{ℤ}
use callfxo.Prelude.Equality.{nat_eq, int_eq, list_eq}
use callfxo.Prelude.GoMap.{lookup}
use callfxo.Text.{Text, txt, trim_space}
use callfxo.Store.Schema.{FxoBox, Registration, Error, not_found, Result, ok, err}
use callfxo.Store.Boxes.{get_fxo_box_by_id}
use callfxo.Store.Registrations.{get_active_registration}
use callfxo.Store.CallLogs.{create_call_log}
use callfxo.Call.Sdp.{SessionDescription, Target, found, failed, parse_sip_audio_target}
use callfxo.Call.State.{
  Address, SignalCallbacks, CallSession, Manager, CallError, number_required, already_active,
  box_not_found, box_offline, store_error, public_ip_required, sip_invite, bad_remote_sdp, Answer,
  done, refused, effect, state_callback, run_store, modify_session, media_ip,
}
use callfxo.Call.Registry.{get_user_call, register_call}
use callfxo.Call.Session.{MediaOutcome, close, tell_state, peer_failed, create_webrtc_side}
use callfxo.Call.Inbound.{log_id, register_found}

-- What sipx.Invite does: it fails with an error, or there is a dialog, with the answer, parsed, and the
-- identifier of its response.
pub data InviteOutcome : Type 0 where
  invite_error : Text → InviteOutcome
  invited : ℕ → Option SessionDescription → Text → InviteOutcome

-- `peer_fails` says whether the peer connection fails, in a goroutine of its own, before the session is
-- registered.
pub record DialWorld : Type 0 where
  pub peer_fails : Bool
  pub now : ℕ
  pub fresh_id : Text
  pub media : MediaOutcome
  pub invite : InviteOutcome
  pub resolve_udp_addr : Text → ℕ → Option Address

abbrev pub dialing : ℤ → Text → ℤ → Text → CallSession → CallSession
dialing user_id device_token box_id number c = record c {
  direction = txt "outgoing";
  user_id = user_id;
  device_token = trim_space device_token;
  box_id = box_id;
  number = number;
  caller_id = number;
}

-- From the target of the answer on.
abbrev pub after_target :
    DialWorld → ℕ → Text → Text → Target (Address × ℕ) → Manager → Answer (ℕ × Text) × Manager
after_target w session sdp sip_call_id (failed e) m =
    (refused bad_remote_sdp, close session true (txt "failed") (txt "bad remote SDP") w.now m)
after_target w session sdp sip_call_id (found (addr, pt)) m =
    let m₁ =
      modify_session session
        (λ c. record c { remote_rtp = some addr; sip_pt = pt; remote_ready = true }) m in
    let m₂ = if w.peer_fails then peer_failed session w.now m₁ else m₁ in
    let m₃ = register_found session sip_call_id m₂ in
    (done (session, sdp), tell_state (txt "sip_connected") (lookup session m₃.sessions) session m₃)

abbrev pub after_invite :
    DialWorld → ℕ → Text → InviteOutcome → Manager → Answer (ℕ × Text) × Manager
after_invite w session sdp (invite_error reason) m =
    (refused sip_invite, close session false (txt "failed") reason w.now m)
after_invite w session sdp (invited dialog body sip_call_id) m =
    after_target w session sdp sip_call_id (parse_sip_audio_target w.resolve_udp_addr body)
      (modify_session session (λ c. record c { dialog_client = some dialog }) m)

abbrev pub after_setup :
    ℤ → Text → ℤ → Text → DialWorld → Answer (ℕ × Text) × Manager → Answer (ℕ × Text) × Manager
after_setup user_id device_token box_id number w (refused e, m) = (refused e, m)
after_setup user_id device_token box_id number w (done (session, sdp), m) =
    let m₁ = modify_session session (dialing user_id device_token box_id number) m in
    if is_nil (media_ip m)
    then (
      refused public_ip_required,
      close session false (txt "failed") (txt "media public ip missing") w.now m₁,
    )
    else after_invite w session sdp w.invite m₁

-- From where the box and its registration are known.
unfoldable pub start_found :
    ℤ → Text → ℤ → Text → DialWorld → SignalCallbacks → Manager → Answer (ℕ × Text) × Manager
unfolding run_store create_webrtc_side modify_session close peer_failed media_ip register_call
    parse_sip_audio_target
start_found user_id device_token box_id number w cb m =
    let (logged, m₁) =
      run_store (create_call_log user_id box_id number (txt "dialing") [] w.now) m in
    after_setup user_id device_token box_id number w
      (create_webrtc_side w.media w.fresh_id cb (log_id logged) w.now m₁)

-- The error for a lookup that failed.
abbrev pub lookup_error : CallError → Error → CallError
lookup_error missing not_found = missing
lookup_error missing e = store_error e

abbrev pub with_registration :
    Result Registration × Manager
    → (Manager → Answer (ℕ × Text) × Manager)
    → Answer (ℕ × Text) × Manager
with_registration (err e, m) go = (refused (lookup_error box_offline e), m)
with_registration (ok reg, m) go = go m

abbrev pub with_box :
    Result FxoBox × Manager → (Manager → Answer (ℕ × Text) × Manager) → Answer (ℕ × Text) × Manager
with_box (err e, m) go = (refused (lookup_error box_not_found e), m)
with_box (ok box, m) go = go m

unfoldable pub start_call :
    ℤ → Text → ℤ → Text → DialWorld → SignalCallbacks → Manager → Answer (ℕ × Text) × Manager
unfolding get_user_call run_store start_found trim_space
start_call user_id device_token box_id raw_number w cb m =
    let number = trim_space raw_number in
    if is_nil number then (refused number_required, m) else elim (get_user_call user_id m) [
      | some c ↦ (refused already_active, m)
      | none ↦ with_box (run_store (get_fxo_box_by_id box_id) m) λ m₁.
          with_registration (run_store (get_active_registration w.now box_id) m₁)
            (start_found user_id device_token box_id number w cb)
    ]
