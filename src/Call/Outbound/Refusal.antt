-- ===== src/Call/Outbound/Refusal.antt =====
-- A StartCall that is refused, at whichever step, gives no user a call.
use callfxo.Prelude.{
  ℕ, suc, Bool, Option, none, some, [], ◌≡◌, refl, arith, ap, ◌∙◌, is_nil, Option-cases, inl, inr,
  if_both,
}
use callfxo.Prelude.Integers.{ℤ, is_positive}
use callfxo.Prelude.Equality.{◌==◌, nat_eq, int_eq, list_eq}
use callfxo.Prelude.GoMap.{GoMap, lookup, remove, lookup-remove}
use callfxo.Text.{Text, txt, trim_space}
use callfxo.Store.Schema.{Result, ok, err, FxoBox, Registration}
use callfxo.Store.Boxes.{get_fxo_box_by_id}
use callfxo.Store.Registrations.{get_active_registration}
use callfxo.Store.CallLogs.{create_call_log}
use callfxo.Call.Sdp.{
  Target, found, failed, parse_webrtc_audio_pcmu_payload, parse_sip_audio_target,
}
use callfxo.Call.State.{
  Address, CallSession, SignalCallbacks, Manager, Answer, done, refused, set_session, run_store,
  modify_session, media_ip,
}
use callfxo.Call.Registry.{get_user_call}
use callfxo.Call.Session.Close.{close_body-maps}
use callfxo.Call.Session.{
  MediaOutcome, rtp_socket_error, peer_connection_error, local_track_error, add_track_error,
  remote_description_error, create_answer_error, local_description_error, answer, close, fail_log,
  fail_session, setup_media, finish_media, create_webrtc_side, new_session,
}
use callfxo.Call.Inbound.{log_id}
use callfxo.Call.Outbound.{
  InviteOutcome, invite_error, invited, DialWorld, dialing, after_target, after_invite, after_setup,
  start_found, with_registration, with_box, start_call,
}

module _ (v : ℤ) where
  -- The user has no call.
  abbrev pub IsFree : Manager → Type 0
  IsFree m = lookup v m.calls_by_user ≡ none

  -- Where there is no answer, the user has no call.
  abbrev pub IsFreeRefused : Answer (ℕ × Text) × Manager → Type 0
  IsFreeRefused (refused e, m) = IsFree m
  IsFreeRefused (done a, m) = Unit

  remove-free : (k : ℤ) (g : GoMap ℤ ℕ) → lookup v g ≡ none → lookup v (remove k g) ≡ none
  remove-free k g h = lookup-remove k v g ∙ if_both (λ o. o ≡ none) (k == v) refl h

  close-IsFree :
      (pointer : ℕ) (bye : Bool) (status reason : Text) (now : ℕ) (m : Manager)
      → IsFree m
      → IsFree (close pointer bye status reason now m)
  unfolding close
  close-IsFree pointer bye status reason now m h = elim (Option-cases (lookup pointer m.sessions)) [
    | inl absent ↦ rw absent h
    | inr (c, k) ↦ rw k (
        if_both IsFree c.closed h (
          ap (lookup v) (close_body-maps pointer c bye status reason now m).2
          ∙ if_both (λ (g : GoMap ℤ ℕ). lookup v g ≡ none) (is_positive c.user_id)
              (remove-free c.user_id m.calls_by_user h) h))
  ]

  modify-IsFree :
      (pointer : ℕ) (f : CallSession → CallSession) (m : Manager)
      → IsFree m
      → IsFree (modify_session pointer f m)
  unfolding modify_session
  modify-IsFree pointer f m h = ground arith

  setup-IsFree :
      (pointer : ℕ) (c : CallSession) (outcome : MediaOutcome) (now : ℕ) (m : Manager)
      → IsFree m
      → IsFree (setup_media pointer c outcome now m).1
  unfolding setup_media fail_session set_session
  setup-IsFree pointer c rtp_socket_error now m h = h
  setup-IsFree pointer c peer_connection_error now m h = h
  setup-IsFree pointer c local_track_error now m h = close-IsFree pointer _ _ _ now m h
  setup-IsFree pointer c add_track_error now m h = close-IsFree pointer _ _ _ now m h
  setup-IsFree pointer c remote_description_error now m h = close-IsFree pointer _ _ _ now m h
  setup-IsFree pointer c create_answer_error now m h = close-IsFree pointer _ _ _ now m h
  setup-IsFree pointer c local_description_error now m h = close-IsFree pointer _ _ _ now m h
  setup-IsFree pointer c (answer parsed local) now m h =
      at (parse_webrtc_audio_pcmu_payload parsed) local
    where
      at : (pt : Option ℕ) (sdp : Option Text) → IsFree (finish_media pointer c pt sdp now m).1
      at none sdp = close-IsFree pointer _ _ _ now m h
      at (some pt) none =
          close-IsFree pointer _ _ _ now (set_session pointer (record c { webrtc_pt = pt }) m) h
      at (some pt) (some sdp) = h

  fail_log-IsFree :
      (id : ℤ) (reason : Text) (now : ℕ) (m : Manager)
      → IsFree m
      → IsFree (fail_log id reason now m)
  unfolding fail_log
  fail_log-IsFree id reason now m h = ground arith

  create-IsFree :
      (outcome : MediaOutcome) (id : Text) (cb : SignalCallbacks) (log : ℤ) (now : ℕ) (m : Manager)
      → IsFree m
      → IsFree (create_webrtc_side outcome id cb log now m).1
  unfolding create_webrtc_side set_session
  create-IsFree rtp_socket_error id cb log now m h = fail_log-IsFree log _ now m h
  create-IsFree peer_connection_error id cb log now m h = fail_log-IsFree log _ now _ h
  create-IsFree outcome id cb log now m h =
      setup-IsFree m.next_pointer (new_session id cb log) outcome now
        (set_session m.next_pointer (new_session id cb log)
          (record m { next_pointer = suc m.next_pointer }))
        h

  module _ (user_id : ℤ) (device_token : Text) (box_id : ℤ) (w : DialWorld) where
    target-IsFreeRefused :
        (session : ℕ) (sdp sip_call_id : Text) (t : Target (Address × ℕ)) (m : Manager)
        → IsFree m
        → IsFreeRefused (after_target w session sdp sip_call_id t m)
    target-IsFreeRefused session sdp sip_call_id (failed e) m h =
        close-IsFree session _ _ _ w.now m h
    target-IsFreeRefused session sdp sip_call_id (found (addr, pt)) m h = tt

    invite-IsFreeRefused :
        (session : ℕ) (sdp : Text) (o : InviteOutcome) (m : Manager)
        → IsFree m
        → IsFreeRefused (after_invite w session sdp o m)
    invite-IsFreeRefused session sdp (invite_error reason) m h =
        close-IsFree session _ _ _ w.now m h
    invite-IsFreeRefused session sdp (invited dialog body sip_call_id) m h =
        target-IsFreeRefused session sdp sip_call_id
          (parse_sip_audio_target w.resolve_udp_addr body) _ (modify-IsFree session _ m h)

    setup-IsFreeRefused :
        (number : Text) (a : Answer (ℕ × Text) × Manager)
        → IsFree a.1
        → IsFreeRefused (after_setup user_id device_token box_id number w a)
    setup-IsFreeRefused number (refused e, m) h = h
    setup-IsFreeRefused number (done (session, sdp), m) h =
        let joined = modify-IsFree session (dialing user_id device_token box_id number) m h in
        if_both IsFreeRefused (is_nil (media_ip m)) (close-IsFree session _ _ _ w.now _ joined)
          (invite-IsFreeRefused session sdp w.invite _ joined)

    start-IsFreeRefused :
        (number : Text) (cb : SignalCallbacks) (m : Manager)
        → IsFree m
        → IsFreeRefused (start_found user_id device_token box_id number w cb m)
    unfolding start_found run_store
    start-IsFreeRefused number cb m h =
        let (logged, m₁) =
          run_store (create_call_log user_id box_id number (txt "dialing") [] w.now) m in
        setup-IsFreeRefused number
          (create_webrtc_side w.media w.fresh_id cb (log_id logged) w.now m₁)
          (create-IsFree w.media w.fresh_id cb (log_id logged) w.now m₁ h)

    registration-IsFreeRefused :
        (r : Result Registration) (m : Manager) (number : Text) (cb : SignalCallbacks)
        → IsFree m
        → IsFreeRefused
            (with_registration (r, m) (start_found user_id device_token box_id number w cb))
    registration-IsFreeRefused (err e) m number cb h = h
    registration-IsFreeRefused (ok reg) m number cb h = start-IsFreeRefused number cb m h

    box-IsFreeRefused :
        (r : Result FxoBox) (m : Manager) (number : Text) (cb : SignalCallbacks)
        → IsFree m
        → IsFreeRefused (
            with_box
              (r, m)
              (λ m₁.
                with_registration
                  (run_store (get_active_registration w.now box_id) m₁)
                  (start_found user_id device_token box_id number w cb)))
    unfolding run_store
    box-IsFreeRefused (err e) m number cb h = h
    box-IsFreeRefused (ok box) m number cb h =
        let (r, m₁) = run_store (get_active_registration w.now box_id) m in
        registration-IsFreeRefused r m₁ number cb h

    -- A StartCall that is refused, at whichever step, leaves every user without a call who had none: the
    -- caller may try again.
    pub start_call-IsFreeRefused :
        (raw_number : Text) (cb : SignalCallbacks) (m : Manager)
        → IsFree m
        → IsFreeRefused (start_call user_id device_token box_id raw_number w cb m)
    unfolding start_call run_store
    start_call-IsFreeRefused raw_number cb m h =
        let (r, m₁) = run_store (get_fxo_box_by_id box_id) m in
        if_both IsFreeRefused (is_nil (trim_space raw_number)) h
          (elim (Option-cases (get_user_call user_id m)) [
            | inr (c, busy) ↦ rw busy h
            | inl free ↦ rw free (box-IsFreeRefused r m₁ (trim_space raw_number) cb h)
          ])
