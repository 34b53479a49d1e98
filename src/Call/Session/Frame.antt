-- ===== src/Call/Session/Frame.antt =====
-- What the life of a session leaves alone: the invites, their table, the notifier.
use callfxo.Prelude.{
  ℕ, suc, Bool, true, false, Option, none, some, ◌≡◌, refl, arith, sym, ◌∙◌, Bool-cases,
  Option-cases, inl, inr, ◌⊎◌, subst, if_of_true, if_of_false, if◌then◌else◌,
}
use callfxo.Prelude.Integers.{ℤ}
use callfxo.Prelude.Equality.{nat_eq}
use callfxo.Prelude.GoMap.{lookup, lookup-insert_self}
use callfxo.Text.{Text}
use callfxo.Store.Schema.{Action}
use callfxo.Call.Sdp.{parse_webrtc_audio_pcmu_payload}
use callfxo.Call.State.{
  CallSession, SignalCallbacks, Manager, Answer, done, refused, set_session, run_store,
  modify_session,
}
use callfxo.Call.Session.Close.{close_body-inbound}
use callfxo.Call.Session.{
  MediaOutcome, rtp_socket_error, peer_connection_error, local_track_error, add_track_error,
  remote_description_error, create_answer_error, local_description_error, answer, close, close_body,
  fail_log, fail_session, setup_media, finish_media, create_webrtc_side, new_session,
}

pub record Frame (m m' : Manager) : Type 0 where
  pub invites : m'.invites ≡ m.invites
  pub incoming : m'.incoming_by_id ≡ m.incoming_by_id
  pub notifier : m'.notifier ≡ m.notifier

pub Frame-refl : (m : Manager) → Frame m m
Frame-refl m = record { invites = refl; incoming = refl; notifier = refl }

pub Frame-trans : {a b c : Manager} → Frame a b → Frame b c → Frame a c
Frame-trans p q = record {
  invites = q.invites ∙ p.invites;
  incoming = q.incoming ∙ p.incoming;
  notifier = q.notifier ∙ p.notifier;
}

pub close-Frame :
    (pointer : ℕ) (bye : Bool) (status reason : Text) (now : ℕ) (m : Manager)
    → Frame m (close pointer bye status reason now m)
unfolding close
close-Frame pointer bye status reason now m = elim (Option-cases (lookup pointer m.sessions)) [
  | inl absent ↦ rw absent (Frame-refl m)
  | inr (c, h) ↦ rw h (at c (Bool-cases c.closed))
]
  where
    at :
        (c : CallSession)
        → (c.closed ≡ true) ⊎ (c.closed ≡ false)
        → Frame m (if c.closed then m else close_body pointer c bye status reason now m)
    at c (inl shut) = subst (Frame m) (sym (if_of_true _ _ shut)) (Frame-refl m)
    at c (inr live) =
        let (a, b, d) = close_body-inbound pointer c bye status reason now m in
        subst (Frame m) (sym (if_of_false _ _ live))
          (record { invites = a; incoming = b; notifier = d })

pub run_store-Frame :
    {A : Type 0} (action : Action A) (m : Manager) → Frame m (run_store action m).1
unfolding run_store
run_store-Frame action m = record { invites = refl; incoming = refl; notifier = refl }

pub set_session-Frame :
    (pointer : ℕ) (c : CallSession) (m : Manager) → Frame m (set_session pointer c m)
unfolding set_session
set_session-Frame pointer c m = record { invites = refl; incoming = refl; notifier = refl }

pub modify_session-Frame :
    (pointer : ℕ) (f : CallSession → CallSession) (m : Manager)
    → Frame m (modify_session pointer f m)
unfolding modify_session
modify_session-Frame pointer f m = ground arith

pub lookup-modify_session :
    (session : ℕ) (f : CallSession → CallSession) (c : CallSession) (m : Manager)
    → lookup session m.sessions ≡ some c
    → lookup session (modify_session session f m).sessions ≡ some (f c)
unfolding modify_session set_session
lookup-modify_session session f c m k =
    rw (modify_session, k) (lookup-insert_self session (f c) m.sessions)

fail_log-Frame :
    (id : ℤ) (reason : Text) (now : ℕ) (m : Manager) → Frame m (fail_log id reason now m)
unfolding fail_log
fail_log-Frame id reason now m = ground arith

setup_media-Frame :
    (pointer : ℕ) (c : CallSession) (outcome : MediaOutcome) (now : ℕ) (m : Manager)
    → Frame m (setup_media pointer c outcome now m).1
unfolding setup_media fail_session
setup_media-Frame pointer c rtp_socket_error now m = Frame-refl m
setup_media-Frame pointer c peer_connection_error now m = Frame-refl m
setup_media-Frame pointer c local_track_error now m = close-Frame pointer _ _ _ now m
setup_media-Frame pointer c add_track_error now m = close-Frame pointer _ _ _ now m
setup_media-Frame pointer c remote_description_error now m = close-Frame pointer _ _ _ now m
setup_media-Frame pointer c create_answer_error now m = close-Frame pointer _ _ _ now m
setup_media-Frame pointer c local_description_error now m = close-Frame pointer _ _ _ now m
setup_media-Frame pointer c (answer parsed local) now m =
    at (parse_webrtc_audio_pcmu_payload parsed) local
  where
    at :
        (payload : Option ℕ) (sdp : Option Text)
        → Frame m (finish_media pointer c payload sdp now m).1
    at none sdp = close-Frame pointer _ _ _ now m
    at (some pt) none =
        Frame-trans (set_session-Frame pointer (record c { webrtc_pt = pt }) m)
          (close-Frame pointer _ _ _ now (set_session pointer (record c { webrtc_pt = pt }) m))
    at (some pt) (some sdp) = set_session-Frame pointer (record c { webrtc_pt = pt }) m

-- Whatever the media do, the creation of the browser's side leaves the invites, their table and the
-- notifier alone.
pub create_webrtc_side-Frame :
    (outcome : MediaOutcome) (id : Text) (cb : SignalCallbacks) (log : ℤ) (now : ℕ) (m : Manager)
    → Frame m (create_webrtc_side outcome id cb log now m).1
unfolding create_webrtc_side set_session
create_webrtc_side-Frame rtp_socket_error id cb log now m = fail_log-Frame log _ now m
create_webrtc_side-Frame peer_connection_error id cb log now m =
    let f = fail_log-Frame log _ now _ in
    record { invites = f.invites; incoming = f.incoming; notifier = f.notifier }
create_webrtc_side-Frame outcome id cb log now m =
    let f = setup_media-Frame m.next_pointer (new_session id cb log) outcome now (
      set_session m.next_pointer (new_session id cb log)
        (record m { next_pointer = suc m.next_pointer })) in
    record { invites = f.invites; incoming = f.incoming; notifier = f.notifier }

-- The session that an answer stands for is in the heap, and is not closed.
abbrev pub IsLive : Answer (ℕ × Text) × Manager → Type 0
IsLive (refused e, m) = Unit
IsLive (done (session, sdp), m) =
    (c : CallSession) × (lookup session m.sessions ≡ some c) × (c.closed ≡ false)

setup_media-IsLive :
    (pointer : ℕ) (c : CallSession) (outcome : MediaOutcome) (now : ℕ) (m : Manager)
    → c.closed ≡ false
    → IsLive (setup_media pointer c outcome now m)
unfolding setup_media fail_session set_session
setup_media-IsLive pointer c rtp_socket_error now m live = tt
setup_media-IsLive pointer c peer_connection_error now m live = tt
setup_media-IsLive pointer c local_track_error now m live = tt
setup_media-IsLive pointer c add_track_error now m live = tt
setup_media-IsLive pointer c remote_description_error now m live = tt
setup_media-IsLive pointer c create_answer_error now m live = tt
setup_media-IsLive pointer c local_description_error now m live = tt
setup_media-IsLive pointer c (answer parsed local) now m live =
    at (parse_webrtc_audio_pcmu_payload parsed) local
  where
    at :
        (payload : Option ℕ) (sdp : Option Text) → IsLive (finish_media pointer c payload sdp now m)
    at none sdp = tt
    at (some pt) none = tt
    at (some pt) (some sdp) =
        (record c { webrtc_pt = pt }, lookup-insert_self pointer _ m.sessions, live)

-- Where the creation of the browser's side succeeds, the session that it returns is in the heap, and is not
-- closed.
pub create_webrtc_side-IsLive :
    (outcome : MediaOutcome) (id : Text) (cb : SignalCallbacks) (log : ℤ) (now : ℕ) (m : Manager)
    → IsLive (create_webrtc_side outcome id cb log now m)
unfolding create_webrtc_side
create_webrtc_side-IsLive rtp_socket_error id cb log now m = tt
create_webrtc_side-IsLive peer_connection_error id cb log now m = tt
create_webrtc_side-IsLive outcome id cb log now m =
    setup_media-IsLive m.next_pointer (new_session id cb log) outcome now
      (set_session m.next_pointer (new_session id cb log)
        (record m { next_pointer = suc m.next_pointer }))
      refl
