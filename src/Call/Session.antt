-- ===== src/Call/Session.antt =====
-- internal/call/manager.go, lines 546 to 716: the browser's side of a call, and its end.
pub mod Close
pub mod Frame
use callfxo.Prelude.{ℕ, suc, Bool, true, false, Option, none, some, List, [], ◌∷◌, if◌then◌else◌}
use callfxo.Prelude.Integers.{ℤ, pos, is_positive}
use callfxo.Prelude.Equality.{◌==◌, nat_eq, int_eq, list_eq}
use callfxo.Prelude.GoMap.{GoMap, lookup, insert}
use callfxo.Text.{Text, txt}
use callfxo.Store.CallLogs.{end_call_log}
use callfxo.Call.Sdp.{SessionDescription, parse_webrtc_audio_pcmu_payload}
use callfxo.Call.State.{
  CallSession, SignalCallbacks, Manager, Answer, done, refused, CallError, rtp_socket, webrtc_peer,
  webrtc_setup, effect, state_callback, Effect, client_bye, client_close, server_bye, server_close,
  rtp_close, peer_close, hangup_callback, set_session, run_store_,
}
use callfxo.Call.Registry.{unregister_call}

abbrev pub failed_status : Text
failed_status = txt "failed"

-- The BYE of close: sip.Hangup closes the dialog of an outgoing call as well.
unfoldable pub send_bye_to : Option ℕ → Option ℕ → Manager → Manager
send_bye_to (some d) server m = effect (client_close d) (effect (client_bye d) m)
send_bye_to none (some d) m = effect (server_bye d) m
send_bye_to none none m = m

unfoldable pub close_dialogs : Option ℕ → Option ℕ → Manager → Manager
close_dialogs none none m = m
close_dialogs (some d) none m = effect (client_close d) m
close_dialogs none (some e) m = effect (server_close e) m
close_dialogs (some d) (some e) m = effect (server_close e) (effect (client_close d) m)

-- The body of closeOnce, at a session that is not closed yet.
unfoldable pub close_body : ℕ → CallSession → Bool → Text → Text → ℕ → Manager → Manager
unfolding send_bye_to close_dialogs unregister_call run_store_ set_session
close_body pointer c send_bye status reason now m =
    let marked = set_session pointer (record c { closed = true; remote_ready = true }) m in
    let m₁ = if send_bye then send_bye_to c.dialog_client c.dialog_server marked else marked in
    let m₂ = close_dialogs c.dialog_client c.dialog_server m₁ in
    let m₃ = effect (peer_close pointer) (effect (rtp_close pointer) m₂) in
    let m₄ = unregister_call pointer c m₃ in
    let m₅ =
      if is_positive c.call_log_id
      then run_store_ (end_call_log c.call_log_id status reason now) m₄
      else m₄ in
    if c.callbacks.on_hangup then effect (hangup_callback pointer reason) m₅ else m₅

abbrev pub close_found : ℕ → Option CallSession → Bool → Text → Text → ℕ → Manager → Manager
close_found pointer none send_bye status reason now m = m
close_found pointer (some c) send_bye status reason now m =
    if c.closed then m else close_body pointer c send_bye status reason now m

unfoldable pub close : ℕ → Bool → Text → Text → ℕ → Manager → Manager
close pointer send_bye status reason now m =
    close_found pointer (lookup pointer m.sessions) send_bye status reason now m

unfoldable pub hangup : ℕ → Text → ℕ → Manager → Manager
unfolding close
hangup pointer reason now m = close pointer true (txt "ended") reason now m

-- The state callback, where there is one.
abbrev pub tell_state : Text → Option CallSession → ℕ → Manager → Manager
tell_state said none session m = m
tell_state said (some c) session m =
    if c.callbacks.on_state then effect (state_callback session said) m else m

-- OnConnectionStateChange, where the peer connection has failed.
unfoldable pub peer_failed : ℕ → ℕ → Manager → Manager
unfolding close
peer_failed pointer now m =
    close pointer true (txt "failed") (txt "webrtc disconnected") now
      (tell_state (txt "failed") (lookup pointer m.sessions) pointer m)

unfoldable pub on_remote_bye : Text → ℕ → Manager → Manager
unfolding close
on_remote_bye call_id now m = elim (lookup call_id m.calls_by_sip_id) [
  | none ↦ m
  | some pointer ↦ close pointer false (txt "ended") (txt "remote hangup") now m
]

-- How far the WebRTC library gets: the step that fails, or the answer, parsed, with the local
-- description.
pub data MediaOutcome : Type 0 where
  rtp_socket_error peer_connection_error local_track_error add_track_error : MediaOutcome
  remote_description_error create_answer_error local_description_error : MediaOutcome
  answer : Option SessionDescription → Option Text → MediaOutcome

-- EndCallLog of the failures that come before there is a session.
unfoldable pub fail_log : ℤ → Text → ℕ → Manager → Manager
unfolding run_store_
fail_log call_log_id reason now m =
    if is_positive call_log_id
    then run_store_ (end_call_log call_log_id failed_status reason now) m
    else m

abbrev pub new_session : Text → SignalCallbacks → ℤ → CallSession
new_session id cb call_log_id = record {
  id = id;
  direction = [];
  user_id = pos 0;
  device_token = [];
  box_id = pos 0;
  number = [];
  caller_id = [];
  dialog_client = none;
  dialog_server = none;
  remote_rtp = none;
  remote_ready = false;
  sip_pt = 0;
  webrtc_pt = 0;
  callbacks = cb;
  call_log_id = call_log_id;
  closed = false;
}

-- Every failure behind the creation of the session closes it.
unfoldable pub fail_session : ℕ → Text → ℕ → Manager → Answer (ℕ × Text) × Manager
unfolding close
fail_session pointer reason now m =
    (refused webrtc_setup, close pointer false failed_status reason now m)

-- The payload type and the local description of an answer.
abbrev pub finish_media :
    ℕ → CallSession → Option ℕ → Option Text → ℕ → Manager → Answer (ℕ × Text) × Manager
finish_media pointer c none local now m =
    fail_session pointer (txt "browser codec must support PCMU") now m
finish_media pointer c (some pt) none now m =
    fail_session pointer (txt "local description missing") now
      (set_session pointer (record c { webrtc_pt = pt }) m)
finish_media pointer c (some pt) (some sdp) now m =
    (done (pointer, sdp), set_session pointer (record c { webrtc_pt = pt }) m)

unfoldable pub setup_media :
    ℕ → CallSession → MediaOutcome → ℕ → Manager → Answer (ℕ × Text) × Manager
unfolding fail_session set_session parse_webrtc_audio_pcmu_payload
setup_media pointer c rtp_socket_error now m = (refused rtp_socket, m)
setup_media pointer c peer_connection_error now m = (refused webrtc_peer, m)
setup_media pointer c local_track_error now m =
    fail_session pointer (txt "create local track failed") now m
setup_media pointer c add_track_error now m =
    fail_session pointer (txt "add local track failed") now m
setup_media pointer c remote_description_error now m =
    fail_session pointer (txt "set remote SDP failed") now m
setup_media pointer c create_answer_error now m =
    fail_session pointer (txt "create answer failed") now m
setup_media pointer c local_description_error now m =
    fail_session pointer (txt "set local SDP failed") now m
setup_media pointer c (answer parsed local) now m =
    finish_media pointer c (parse_webrtc_audio_pcmu_payload parsed) local now m

unfoldable pub create_webrtc_side :
    MediaOutcome → Text → SignalCallbacks → ℤ → ℕ → Manager → Answer (ℕ × Text) × Manager
unfolding fail_log setup_media set_session
create_webrtc_side rtp_socket_error id cb call_log_id now m =
    (refused rtp_socket, fail_log call_log_id (txt "rtp socket error") now m)
create_webrtc_side peer_connection_error id cb call_log_id now m = (
  refused webrtc_peer,
  fail_log call_log_id (txt "webrtc create error") now (effect (rtp_close m.next_pointer) m),
)
create_webrtc_side outcome id cb call_log_id now m =
    let pointer = m.next_pointer in
    let c = new_session id cb call_log_id in
    setup_media pointer c outcome now
      (set_session pointer c (record m { next_pointer = suc m.next_pointer }))
