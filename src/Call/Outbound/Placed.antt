-- ===== src/Call/Outbound/Placed.antt =====
-- What StartCall leaves of the session and of the maps where it returns one.
use callfxo.Prelude.{
  ℕ, Bool, true, false, if◌then◌else◌, Option, none, some, [], ◌≡◌, refl, arith, ap, ◌∙◌, is_nil,
  Option-cases, inl, inr, if_both,
}
use callfxo.Prelude.Integers.{ℤ, is_positive}
use callfxo.Prelude.Equality.{nat_eq, int_eq, list_eq}
use callfxo.Prelude.GoMap.{lookup, insert, lookup-insert_self}
use callfxo.Text.{Text, txt, trim_space}
use callfxo.Store.Schema.{Result, ok, err, FxoBox, Registration}
use callfxo.Store.Boxes.{get_fxo_box_by_id}
use callfxo.Store.Registrations.{get_active_registration}
use callfxo.Store.CallLogs.{create_call_log}
use callfxo.Call.Sdp.{Target, found, failed, parse_sip_audio_target}
use callfxo.Call.State.{
  Address, CallSession, SignalCallbacks, Manager, Answer, done, refused, run_store, modify_session,
  media_ip,
}
use callfxo.Call.Registry.{get_user_call, register_call}
use callfxo.Call.Session.{tell_state, peer_failed, create_webrtc_side}
use callfxo.Call.Session.Close.{closed_session, close-unregisters}
use callfxo.Call.Session.Frame.{IsLive, create_webrtc_side-IsLive, lookup-modify_session}
use callfxo.Call.Inbound.{log_id, register_found}
use callfxo.Call.Inbound.Accept.{register-maps}
use callfxo.Call.Outbound.{
  InviteOutcome, invite_error, invited, DialWorld, dialing, after_target, after_invite, after_setup,
  start_found, with_registration, with_box, start_call,
}
use callfxo.Call.Outbound.Refusal.{IsFreeRefused, start_call-IsFreeRefused}

register-sessions :
    (session : ℕ) (sip_call_id : Text) (m : Manager)
    → (register_found session sip_call_id m).sessions ≡ m.sessions
unfolding register_call
register-sessions session sip_call_id m = elim (Option-cases (lookup session m.sessions)) [
  | inl absent ↦ rw (register_found, absent) refl
  | inr (c, k) ↦ rw (register_found, k) refl
]

tell_state-maps :
    (said : Text) (o : Option CallSession) (session : ℕ) (m : Manager)
    → ((tell_state said o session m).sessions ≡ m.sessions)
      × ((tell_state said o session m).calls_by_user ≡ m.calls_by_user)
tell_state-maps said none session m = (refl, refl)
tell_state-maps said (some c) session m = (ground arith, ground arith)

-- The session behind the moment in which its peer connection may fail.
abbrev after_peer : Bool → CallSession → CallSession
after_peer true c = closed_session c
after_peer false c = c

lookup-peer_failed :
    (fails : Bool) (session now : ℕ) (c : CallSession) (m : Manager)
    → lookup session m.sessions ≡ some c
    → c.closed ≡ false
    → lookup session (if fails then peer_failed session now m else m).sessions
      ≡ some (after_peer fails c)
unfolding peer_failed
lookup-peer_failed false session now c m k live = k
lookup-peer_failed true session now c m k live =
    let m₁ = tell_state (txt "failed") (lookup session m.sessions) session m in
    let (kept, _) = tell_state-maps (txt "failed") (lookup session m.sessions) session m in
    (close-unregisters session c true (txt "failed") (txt "webrtc disconnected") now m₁
      (ap (lookup session) kept ∙ k) live).0

module _ (user_id : ℤ) (device_token : Text) (box_id : ℤ) where
  -- A session, closed or not, that the user has dialled through the box.
  abbrev IsDialed : Bool → Text → CallSession → Type 0
  IsDialed closed number c =
      (c.closed ≡ closed)
      × (c.direction ≡ txt "outgoing")
      × (c.user_id ≡ user_id)
      × (c.device_token ≡ trim_space device_token)
      × (c.box_id ≡ box_id)
      × (c.number ≡ number)

  -- What holds of the session that an answer returns: it is in the heap, closed or not, the far end is known,
  -- and it is the user's call.
  abbrev IsPlaced : Bool → Text → Answer (ℕ × Text) × Manager → Type 0
  IsPlaced closed number (refused e, m) = Unit
  IsPlaced closed number (done (session, sdp), m) =
      (c : CallSession) × (lookup session m.sessions ≡ some c)
      × (c.remote_ready ≡ true)
      × IsDialed closed number c
      × (get_user_call user_id m ≡ some session)

  -- What holds behind StartCall.
  abbrev pub Outcome : Bool → Text → Answer (ℕ × Text) × Manager → Type 0
  Outcome closed number (refused e, m) = get_user_call user_id m ≡ none
  Outcome closed number (done a, m) = IsPlaced closed number (done a, m)

  both-Outcome :
      (closed : Bool) (number : Text) (a : Answer (ℕ × Text) × Manager)
      → IsFreeRefused user_id a
      → IsPlaced closed number a
      → Outcome closed number a
  unfolding get_user_call
  both-Outcome closed number (refused e, m) free placed = free
  both-Outcome closed number (done a, m) free placed = placed

  module _ (w : DialWorld) (positive : is_positive user_id ≡ true) where
    placed :
        (fails : Bool) (number : Text) (c : CallSession)
        → IsDialed false number c
        → c.remote_ready ≡ true
        → ((after_peer fails c).remote_ready ≡ true)
          × IsDialed fails number (after_peer fails c)
          × ((after_peer fails c).user_id ≡ user_id)
    placed true number c (live, out, mine, on_device, on_box, dialled) ready =
        (refl, (refl, out, mine, on_device, on_box, dialled), mine)
    placed false number c (live, out, mine, on_device, on_box, dialled) ready =
        (ready, (live, out, mine, on_device, on_box, dialled), mine)

    target-IsPlaced :
        (number : Text) (session : ℕ) (sdp sip_call_id : Text) (t : Target (Address × ℕ))
        (c : CallSession) (m : Manager)
        → lookup session m.sessions ≡ some c
        → IsDialed false number c
        → IsPlaced w.peer_fails number (after_target w session sdp sip_call_id t m)
    unfolding get_user_call
    target-IsPlaced number session sdp sip_call_id (failed e) c m k d = tt
    target-IsPlaced number session sdp sip_call_id (found (addr, pt)) c m k d =
        let ready : CallSession → CallSession =
          λ c. record c { remote_rtp = some addr; sip_pt = pt; remote_ready = true } in
        let m₁ = modify_session session ready m in
        let m₂ = if w.peer_fails then peer_failed session w.now m₁ else m₁ in
        let m₃ = register_found session sip_call_id m₂ in
        let (live, _, _, _, _, _) = d in
        let at =
          lookup-peer_failed w.peer_fails session w.now (ready c) m₁
            (lookup-modify_session session ready c m k) live in
        let (is_ready, now_closed, mine) = placed w.peer_fails number (ready c) d refl in
        let c₂ = after_peer w.peer_fails (ready c) in
        let (same, by_user) =
          register-maps session c₂ sip_call_id m₂ at (ap is_positive mine ∙ positive) in
        let (e₁, e₂) =
          tell_state-maps (txt "sip_connected") (lookup session m₃.sessions) session m₃ in
        (
          c₂,
          ap (lookup session) (e₁ ∙ register-sessions session sip_call_id m₂) ∙ at,
          is_ready,
          now_closed,
          ap (lookup user_id) (e₂ ∙ by_user)
              ∙ ap (λ u. lookup user_id (insert u session m₂.calls_by_user)) mine
              ∙ lookup-insert_self user_id session m₂.calls_by_user,
        )

    invite-IsPlaced :
        (number : Text) (session : ℕ) (sdp : Text) (o : InviteOutcome) (c : CallSession)
        (m : Manager)
        → lookup session m.sessions ≡ some c
        → IsDialed false number c
        → IsPlaced w.peer_fails number (after_invite w session sdp o m)
    invite-IsPlaced number session sdp (invite_error reason) c m k d = tt
    invite-IsPlaced number session sdp (invited dialog body sip_call_id) c m k d =
        let joined : CallSession → CallSession = λ c. record c { dialog_client = some dialog } in
        target-IsPlaced number session sdp sip_call_id
          (parse_sip_audio_target w.resolve_udp_addr body) (joined c)
          (modify_session session joined m) (lookup-modify_session session joined c m k) d

    setup-IsPlaced :
        (number : Text) (a : Answer (ℕ × Text) × Manager)
        → IsLive a
        → IsPlaced w.peer_fails number (after_setup user_id device_token box_id number w a)
    setup-IsPlaced number (refused e, m) l = tt
    setup-IsPlaced number (done (session, sdp), m) (c, k, live) =
        let dialed = dialing user_id device_token box_id number in
        if_both (IsPlaced w.peer_fails number) (is_nil (media_ip m)) tt (
          invite-IsPlaced number session sdp w.invite (dialed c) (modify_session session dialed m)
            (lookup-modify_session session dialed c m k) (live, refl, refl, refl, refl, refl))

    start-IsPlaced :
        (number : Text) (cb : SignalCallbacks) (m : Manager)
        → IsPlaced w.peer_fails number (start_found user_id device_token box_id number w cb m)
    unfolding start_found
    start-IsPlaced number cb m =
        let (logged, m₁) =
          run_store (create_call_log user_id box_id number (txt "dialing") [] w.now) m in
        setup-IsPlaced number (create_webrtc_side w.media w.fresh_id cb (log_id logged) w.now m₁)
          (create_webrtc_side-IsLive w.media w.fresh_id cb (log_id logged) w.now m₁)

    registration-IsPlaced :
        (number : Text) (cb : SignalCallbacks) (r : Result Registration × Manager)
        → IsPlaced w.peer_fails number
            (with_registration r (start_found user_id device_token box_id number w cb))
    registration-IsPlaced number cb (err e, m) = tt
    registration-IsPlaced number cb (ok reg, m) = start-IsPlaced number cb m

    box-IsPlaced :
        (number : Text) (cb : SignalCallbacks) (r : Result FxoBox × Manager)
        → IsPlaced w.peer_fails number (
            with_box r λ m₁.
              with_registration
                (run_store (get_active_registration w.now box_id) m₁)
                (start_found user_id device_token box_id number w cb))
    box-IsPlaced number cb (err e, m) = tt
    box-IsPlaced number cb (ok box, m) =
        registration-IsPlaced number cb (run_store (get_active_registration w.now box_id) m)

    -- A StartCall for a user with a positive identifier and no call, which runs alone but for a failure of the
    -- peer connection before the session is registered, and however the store, the media and the far end
    -- behave, either is refused and leaves the user without a call, or returns a session that is in the heap,
    -- outgoing, of the user, the device, the box and the trimmed number, and ready for the far end, and that
    -- is the user's call; the session is closed where the peer connection has failed, and else it is open.
    pub start_call-Outcome :
        (raw_number : Text) (cb : SignalCallbacks) (m : Manager)
        → get_user_call user_id m ≡ none
        → Outcome w.peer_fails
            (trim_space raw_number)
            (start_call user_id device_token box_id raw_number w cb m)
    unfolding start_call get_user_call
    start_call-Outcome raw_number cb m h =
        let number = trim_space raw_number in
        both-Outcome w.peer_fails number (start_call user_id device_token box_id raw_number w cb m)
          (start_call-IsFreeRefused user_id user_id device_token box_id w raw_number cb m h)
          (if_both (IsPlaced w.peer_fails number) (is_nil number) tt
            (rw h (box-IsPlaced number cb (run_store (get_fxo_box_by_id box_id) m))))
