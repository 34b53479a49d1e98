-- ===== src/Web/Signaling/Calls.antt =====
-- What the messages of a connection do to the calls.
use callfxo.Prelude.{
  ℕ, Bool, true, false, ◌||◌, Option, none, some, List, [], ◌∷◌, ◌≡◌, ◌≢◌, refl, arith, ap, sym,
  subst, if_both,
}
use callfxo.Prelude.Integers.{pos, is_positive}
use callfxo.Prelude.Equality.{◌==◌, int_eq, nat_eq}
use callfxo.Prelude.GoMap.{lookup}
use callfxo.Text.{txt, is_blank, equal_fold}
use callfxo.Store.Schema.{Result, ok, err, role_admin}
use callfxo.Store.Permissions.{user_can_dial_fxo}
use callfxo.Call.State.{
  CallSession, Effect, respond, respond_sdp, dialog_close, client_bye, client_close, server_bye,
  server_close, rtp_close, peer_close, hangup_callback, state_callback, notify, Manager, run_store,
}
use callfxo.Call.Registry.{get_user_call}
use callfxo.Call.Session as Sessions
use callfxo.Call.Session.Close.{closed_session, close-unregisters}
use callfxo.Call.Outbound.{DialWorld}
use callfxo.Web.Signaling.{
  WsMessage, Connection, call_back, call_back_all, react, is_set, dial_allowed, on_dial, hang_up,
  on_hangup,
}

-- Nothing but the store has changed, and the connection has the call that it had.
abbrev pub NoCall : Connection → Manager → Connection × Manager → Type 0
NoCall c m (c', m') = (m' ≡ record m { store = m'.store }) × (c'.current ≡ c.current)

dial_allowed-NoCall :
    (msg : WsMessage) (w : DialWorld) (c : Connection) (m : Manager) (r : Result Bool)
    (m' : Manager)
    → m' ≡ record m { store = m'.store }
    → r ≢ ok true
    → NoCall c m (dial_allowed msg w c (r, m'))
dial_allowed-NoCall msg w c m (err e) m' kept h = (kept, refl)
dial_allowed-NoCall msg w c m (ok true) m' kept h = absurd (h refl)
dial_allowed-NoCall msg w c m (ok false) m' kept h = (kept, refl)

-- A dial message of a user whom UserCanDialFXO does not permit the box, or for whom it fails, starts no call:
-- the manager of the calls is as it was, but for the store, and so is the connection's call.
pub on_dial-NoCall :
    (msg : WsMessage) (w : DialWorld) (c : Connection) (m : Manager)
    → (run_store
        (user_can_dial_fxo c.session.user_id msg.box_id (equal_fold c.session.role role_admin))
        m).0
      ≢ ok true
    → NoCall c m (on_dial msg w c m)
unfolding on_dial run_store
on_dial-NoCall msg w c m h =
    if_both (NoCall c m) (is_set c.current || is_set (get_user_call c.session.user_id m))
      (refl, refl)
      (if_both (NoCall c m) (msg.box_id == pos 0 || is_blank msg.number || is_blank msg.sdp)
        (refl, refl) (dial_allowed-NoCall msg w c m _ _ refl h))

call_back-none : (e : Effect) (c : Connection) → c.current ≡ none → (call_back e c).current ≡ none
unfolding call_back
call_back-none (hangup_callback p reason) c h = ground arith
call_back-none (state_callback p st) c h = ground arith
call_back-none (respond a b t) c h = h
call_back-none (respond_sdp a) c h = h
call_back-none (dialog_close a) c h = h
call_back-none (client_bye a) c h = h
call_back-none (client_close a) c h = h
call_back-none (server_bye a) c h = h
call_back-none (server_close a) c h = h
call_back-none (rtp_close a) c h = h
call_back-none (peer_close a) c h = h
call_back-none (notify e) c h = h

call_back_all-none :
    (es : List Effect) (c : Connection) → c.current ≡ none → (call_back_all es c).current ≡ none
unfolding call_back_all
call_back_all-none [] c h = h
call_back_all-none (e ∷ es) c h = call_back-none e (call_back_all es c) (call_back_all-none es c h)

react-none : (m m' : Manager) (c : Connection) → c.current ≡ none → (react m m' c).current ≡ none
unfolding react
react-none m m' c h = call_back_all-none _ c h

-- A hangup message ends the call that the connection has: the session is closed, its user has no call any
-- more, where the user is a positive number, and the connection has none.
pub on_hangup-ends :
    (now : ℕ) (c : Connection) (m : Manager) (p : ℕ) (cs : CallSession)
    → c.current ≡ some p
    → lookup p m.sessions ≡ some cs
    → cs.closed ≡ false
    → ((on_hangup now c m).0.current ≡ none)
      × (lookup p (on_hangup now c m).1.sessions ≡ some (closed_session cs))
      × (is_positive cs.user_id ≡ true → get_user_call cs.user_id (on_hangup now c m).1 ≡ none)
unfolding on_hangup Sessions.hangup
on_hangup-ends now c m p cs has at live =
    let (shut, by_id, by_user, by_sip) =
      close-unregisters p cs true (txt "ended") (txt "user hangup") now m at live in
    subst Ended (ap (λ (o : Option ℕ). hang_up o now c m) (sym has)) (
      react-none m (Sessions.hangup p (txt "user hangup") now m) (record c { current = none }) refl,
      shut,
      by_user,
    )
  where
    Ended : Connection × Manager → Type 0
    Ended q =
        (q.0.current ≡ none)
        × (lookup p q.1.sessions ≡ some (closed_session cs))
        × (is_positive cs.user_id ≡ true → get_user_call cs.user_id q.1 ≡ none)
