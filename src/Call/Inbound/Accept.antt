-- ===== src/Call/Inbound/Accept.antt =====
-- AcceptIncoming: what it leaves of the invite and of the maps, on every path.
use callfxo.Prelude.{
  ℕ, true, false, none, some, [], ◌≡◌, refl, arith, ap, ◌∙◌, subst, if_of_true, is_nil, if_both,
}
use callfxo.Prelude.Integers.{ℤ, is_positive}
use callfxo.Prelude.Equality.{nat_eq, int_eq, list_eq}
use callfxo.Prelude.GoMap.{lookup, insert, lookup-insert_self, lookup-remove_self}
use callfxo.Text.{Text, txt, first_non_blank}
use callfxo.Store.Schema.{Action}
use callfxo.Store.CallLogs.{create_call_log}
use callfxo.Call.State.{
  IncomingEvent, InboundInvite, CallSession, SignalCallbacks, Manager, Answer, done, refused,
  CallError, public_ip_required, respond_failed, Status, stopped, answered, internal_server_error,
  effect, respond_sdp, set_invite, modify_session, media_ip, run_store,
}
use callfxo.Call.Registry.{get_user_call, register_call, remove_inbound, emit_incoming_event}
use callfxo.Call.Session.{create_webrtc_side}
use callfxo.Call.Session.Frame.{
  Frame, Frame-trans, close-Frame, run_store-Frame, modify_session-Frame, lookup-modify_session,
  create_webrtc_side-Frame, IsLive, create_webrtc_side-IsLive,
}
use callfxo.Call.Invite.Finish.{finish_inbound-parts, reject-finish}
use callfxo.Call.Invite.{event_of, ended_invite, finish_inbound, reject_}
use callfxo.Call.Inbound.{
  AcceptWorld, connected_invite, answering, accept_connect, accept_answer, after_media,
  accept_finish, register_found, log_id,
}

-- What holds of the invite and the maps behind AcceptIncoming: a refusal has ended the invite, and an
-- answer has connected it and registered the session for the user; in both cases it is pending no more.
abbrev pub Settled : ℤ → ℕ → InboundInvite → Answer (ℕ × Text) × Manager → Type 0
Settled user_id pointer inv (refused e, m) =
    (lookup pointer m.invites ≡ some (ended_invite inv))
    × (lookup inv.meta.id m.incoming_by_id ≡ none)
Settled user_id pointer inv (done (session, sdp), m) =
    (lookup pointer m.invites ≡ some (connected_invite inv))
    × (lookup inv.meta.id m.incoming_by_id ≡ none)
    × (get_user_call user_id m ≡ some session)

emit-maps :
    (event : IncomingEvent) (m : Manager)
    → ((emit_incoming_event event m).invites ≡ m.invites)
      × ((emit_incoming_event event m).incoming_by_id ≡ m.incoming_by_id)
      × ((emit_incoming_event event m).calls_by_user ≡ m.calls_by_user)
unfolding emit_incoming_event
emit-maps event m = (ground arith, ground arith, ground arith)

-- What a session is registered in.
pub register-maps :
    (session : ℕ) (c : CallSession) (sip_call_id : Text) (m : Manager)
    → lookup session m.sessions ≡ some c
    → is_positive c.user_id ≡ true
    → ((register_found session sip_call_id m).invites ≡ m.invites)
      × ((register_found session sip_call_id m).calls_by_user
          ≡ insert c.user_id session m.calls_by_user)
unfolding register_call
register-maps session c sip_call_id m k positive =
    rw (register_found, k) (refl, if_of_true _ _ positive)

module _ (user_id : ℤ) (device_token : Text) (pointer : ℕ) (inv : InboundInvite) (w : AcceptWorld)
    (live : inv.ended ≡ false) (positive : is_positive user_id ≡ true) where
  connect-Settled :
      (session : ℕ) (sdp : Text) (c : CallSession) (m : Manager)
      → lookup pointer m.invites ≡ some inv
      → lookup session m.sessions ≡ some c
      → c.user_id ≡ user_id
      → Settled user_id pointer inv (accept_connect pointer session sdp m)
  unfolding accept_connect set_invite remove_inbound get_user_call
  connect-Settled session sdp c m h k mine =
      let m₁ = set_invite pointer (connected_invite inv) m in
      let m₂ = register_found session inv.meta.sip_call_id m₁ in
      let (same, by_user) =
        register-maps session c inv.meta.sip_call_id m₁ k (ap is_positive mine ∙ positive) in
      let (e₁, e₂, e₃) =
        emit-maps (event_of answered (connected_invite inv) (txt "answered"))
          (remove_inbound inv.meta.id m₂) in
      rw h (
        ap (lookup pointer) (e₁ ∙ same)
            ∙ lookup-insert_self pointer (connected_invite inv) m.invites,
        ap (lookup inv.meta.id) e₂ ∙ lookup-remove_self inv.meta.id m₂.incoming_by_id,
        subst
            (λ u.
              lookup u
                (emit_incoming_event (event_of answered (connected_invite inv) (txt "answered"))
                  (remove_inbound inv.meta.id m₂)).calls_by_user
              ≡ some session)
            mine
            (ap (lookup c.user_id) (e₃ ∙ by_user)
              ∙ lookup-insert_self c.user_id session m.calls_by_user),
      )

  -- The end of the invite from a state whose invites are those of another.
  reject-Settled :
      (status : Status) (said reason : Text) (e : CallError) (m m' : Manager)
      → Frame m m'
      → lookup pointer m.invites ≡ some inv
      → Settled user_id pointer inv (
        refused e,
        finish_inbound pointer stopped reason (reject_ pointer status said w.can_respond m'),
      )
  reject-Settled status said reason e m m' f h =
      reject-finish pointer inv status said w.can_respond stopped reason m'
        (ap (lookup pointer) f.invites ∙ h) live

  finish-Settled :
      (reason : Text) (e : CallError) (m m' : Manager)
      → Frame m m'
      → lookup pointer m.invites ≡ some inv
      → Settled user_id pointer inv (refused e, finish_inbound pointer stopped reason m')
  finish-Settled reason e m m' f h =
      let (a, b, _) =
        finish_inbound-parts pointer inv stopped reason m' (ap (lookup pointer) f.invites ∙ h)
          live in
      (a, b)

  answer-Settled :
      (session : ℕ) (sdp : Text) (c : CallSession) (m : Manager)
      → lookup pointer m.invites ≡ some inv
      → lookup session m.sessions ≡ some c
      → Settled user_id pointer inv (accept_answer user_id device_token pointer inv w session sdp m)
  unfolding accept_answer
  answer-Settled session sdp c m h k =
      let joined = modify_session session (answering user_id device_token inv) m in
      if_both (Settled user_id pointer inv) (is_nil (media_ip m))
        (reject-Settled internal_server_error _ _ public_ip_required m _
          (close-Frame session _ _ _ w.now m) h)
        (if_both (Settled user_id pointer inv) w.can_respond_sdp
          (connect-Settled session sdp (answering user_id device_token inv c)
            (effect (respond_sdp inv.dialog) joined)
            (ap (lookup pointer) (modify_session-Frame session _ m).invites ∙ h)
            (lookup-modify_session session _ c m k) refl)
          (finish-Settled _ respond_failed m _
            (Frame-trans (modify_session-Frame session _ m)
              (close-Frame session _ _ _ w.now joined))
            h))

  -- The log row that AcceptIncoming writes.
  abbrev logging : Action ℤ
  logging =
      create_call_log user_id inv.meta.box_id
        (first_non_blank inv.meta.caller_id inv.meta.remote_number) (txt "connecting") [] w.now

  media-Settled :
      (a : Answer (ℕ × Text) × Manager) (m : Manager)
      → lookup pointer m.invites ≡ some inv
      → Frame m a.1
      → IsLive a
      → Settled user_id pointer inv (after_media user_id device_token pointer inv w a)
  media-Settled (refused e, m') m h f l = reject-Settled internal_server_error _ _ e m m' f h
  media-Settled (done (session, sdp), m') m h f (c, k, _) =
      answer-Settled session sdp c m' (ap (lookup pointer) f.invites ∙ h) k

  -- However the log, the media and the responses go, what AcceptIncoming does behind its guards settles
  -- an invite in the heap that has not ended, for a user with a positive identifier: either it returns
  -- an error and has ended the invite, or it has connected the invite and the returned session is the
  -- user's call; the invite is pending no more.
  pub accept_finish-settles :
      (cb : SignalCallbacks) (m : Manager)
      → lookup pointer m.invites ≡ some inv
      → Settled user_id pointer inv (accept_finish user_id device_token pointer inv w cb m)
  unfolding accept_finish
  accept_finish-settles cb m h =
      let (logged, m₁) = run_store logging m in
      media-Settled (create_webrtc_side w.media w.fresh_id cb (log_id logged) w.now m₁) m h
        (Frame-trans (run_store-Frame logging m)
          (create_webrtc_side-Frame w.media w.fresh_id cb (log_id logged) w.now m₁))
        (create_webrtc_side-IsLive w.media w.fresh_id cb (log_id logged) w.now m₁)
