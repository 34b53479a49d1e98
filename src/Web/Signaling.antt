-- ===== src/Web/Signaling.antt =====
-- internal/web/server.go, lines 1010 to 1186: a WebSocket connection that signals calls. The callbacks of the
-- sessions that it made are read off what the manager of the calls records of them.
pub mod Calls
use callfxo.Prelude.{
  ℕ, ◌-◌, Bool, true, false, ◌||◌, Option, none, some, List, [], ◌∷◌, length, take, if◌then◌else◌,
}
use callfxo.Prelude.Integers.{ℤ, pos}
use callfxo.Prelude.Equality.{◌==◌, list_eq, nat_eq, int_eq}
use callfxo.Prelude.GoMap.{lookup}
use callfxo.Text.{Text, txt, trim_space, is_blank, equal_fold}
use callfxo.Auth.{Session}
use callfxo.Store.Schema.{Error, Result, ok, err, role_admin}
use callfxo.Store.Permissions.{user_can_dial_fxo}
use callfxo.Sip.Tokens.{DtmfError}
use callfxo.Call.State.{
  SignalCallbacks, CallSession, Effect, hangup_callback, state_callback, Manager, CallError, Answer,
  done, refused, run_store,
}
use callfxo.Call.Registry.{get_user_call}
use callfxo.Call.Session as Sessions
use callfxo.Call.Outbound.{DialWorld, start_call}
use callfxo.Call.Inbound.{AcceptWorld, accept_incoming}
use callfxo.Call.Invite.{RejectError, reject_incoming}

pub record WsMessage : Type 0 where
  pub kind : Text
  pub box_id : ℤ
  pub invite_id : Text
  pub number : Text
  pub sdp : Text
  pub digits : Text
  pub candidate : Option Text

-- Why a message is refused.
pub data Refusal : Type 0 where
  already_active dial_fields not_permitted accept_fields invite_required no_active_call
        unsupported :
      Refusal
  store_failed : Error → Refusal
  call_failed : CallError → Refusal
  reject_failed : RejectError → Refusal
  candidate_failed dialog_not_ready : Refusal
  dtmf_failed : DtmfError → Refusal

pub data Mode : Type 0 where
  outgoing : Mode
  incoming : Text → Mode

-- What the client is sent.
pub data Sent : Type 0 where
  error : Refusal → Sent
  state : Text → Sent
  answer : Text → Mode → Sent
  pong : Sent
  hangup : Text → Sent

-- `current` and the sessions whose callbacks go to this client; what is sent, newest first.
pub record Connection : Type 0 where
  pub session : Session
  pub current : Option ℕ
  pub owned : List ℕ
  pub sent : List Sent

abbrev pub say : Sent → Connection → Connection
say msg c = record c { sent = msg ∷ c.sent }

abbrev pub refuse : Refusal → Connection → Connection
refuse why = say (error why)

unfoldable pub is_owned : ℕ → List ℕ → Bool
is_owned pointer [] = false
is_owned pointer (p ∷ ps) = let rest = is_owned pointer ps in p == pointer || rest

-- signalCallbacksForClient
unfoldable pub call_back : Effect → Connection → Connection
unfolding is_owned
call_back (hangup_callback p reason) c =
    if is_owned p c.owned then say (hangup reason) (record c { current = none }) else c
call_back (state_callback p s) c = if is_owned p c.owned then say (state s) c else c
call_back other c = c

-- The effects are those since, newest first.
unfoldable pub call_back_all : List Effect → Connection → Connection
unfolding call_back
call_back_all [] c = c
call_back_all (e ∷ es) c = call_back e (call_back_all es c)

-- What was recorded between two states of the manager.
abbrev pub recorded : Manager → Manager → List Effect
recorded m m' = take (length m'.trace - length m.trace) m'.trace

unfoldable pub react : Manager → Manager → Connection → Connection
react m m' c = call_back_all (recorded m m') c

-- A session that is made in the step has the next pointer.
abbrev pub own_next : Manager → Connection → Connection
own_next m c = record c { owned = m.next_pointer ∷ c.owned }

abbrev pub callbacks : SignalCallbacks
callbacks = record { on_ice_candidate = true; on_state = true; on_hangup = true }

-- On entry: the call that the user has is the current one.
unfoldable pub recover : Session → Manager → Connection
recover session m =
    let c : Connection = record { session = session; current = none; owned = []; sent = [] } in
    elim (get_user_call session.user_id m) [
      | none ↦ c
      | some p ↦ say (state (txt "call_recovered")) (record c { current = some p })
    ]

abbrev pub is_set : Option ℕ → Bool
is_set none = false
is_set (some p) = true

abbrev pub dialed : Manager → Connection → Answer (ℕ × Text) × Manager → Connection × Manager
dialed m c (done (p, sdp), m') =
    (say (answer sdp outgoing) (record (react m m' c) { current = some p }), m')
dialed m c (refused e, m') = (say (state (txt "idle")) (refuse (call_failed e) (react m m' c)), m')

abbrev pub dial_allowed :
    WsMessage → DialWorld → Connection → Result Bool × Manager → Connection × Manager
dial_allowed msg w c (err e, m) = (refuse (store_failed e) c, m)
dial_allowed msg w c (ok allowed, m) =
    if allowed
    then dialed m (own_next m (say (state (txt "dialing")) c))
        (start_call c.session.user_id c.session.device_token msg.box_id msg.number w callbacks m)
    else (refuse not_permitted c, m)

unfoldable pub on_dial : WsMessage → DialWorld → Connection → Manager → Connection × Manager
on_dial msg w c m =
    if is_set c.current || is_set (get_user_call c.session.user_id m)
    then (refuse already_active c, m)
    else if msg.box_id == pos 0 || is_blank msg.number || is_blank msg.sdp
    then (refuse dial_fields c, m)
    else dial_allowed msg w c (
        run_store
          (user_can_dial_fxo c.session.user_id msg.box_id (equal_fold c.session.role role_admin)) m)

abbrev pub accepted :
    Text → Manager → Connection → Answer (ℕ × Text) × Manager → Connection × Manager
accepted invite_id m c (done (p, sdp), m') =
    (say (answer sdp (incoming invite_id)) (record (react m m' c) { current = some p }), m')
accepted invite_id m c (refused e, m') = (refuse (call_failed e) (react m m' c), m')

unfoldable pub on_incoming_accept :
    WsMessage → AcceptWorld → Connection → Manager → Connection × Manager
on_incoming_accept msg w c m =
    if is_blank msg.invite_id || is_blank msg.sdp
    then (refuse accept_fields c, m)
    else accepted msg.invite_id m (own_next m c)
        (accept_incoming c.session.user_id c.session.device_token msg.invite_id w callbacks m)

abbrev pub rejected : Manager → Connection → Option RejectError × Manager → Connection × Manager
rejected m c (none, m') = (react m m' c, m')
rejected m c (some e, m') = (refuse (reject_failed e) (react m m' c), m')

-- `sent` says whether the response to the caller can be sent.
unfoldable pub on_incoming_reject : WsMessage → Bool → Connection → Manager → Connection × Manager
on_incoming_reject msg sent c m =
    if is_blank msg.invite_id
    then (refuse invite_required c, m)
    else rejected m c (reject_incoming c.session.user_id msg.invite_id (txt "declined") sent m)

-- `added` says whether the peer connection takes the candidate.
unfoldable pub on_candidate : WsMessage → Bool → Connection → Connection
on_candidate msg added c = elim c.current [
  | none ↦ c
  | some p ↦ elim msg.candidate [
    | none ↦ c
    | some candidate ↦ if added then c else refuse candidate_failed c
  ]
]

-- CallSession.SendDTMF: through the dialog that there is; `send` is what sending the digits through it returns.
unfoldable pub send_dtmf : (Text → Option DtmfError) → Text → CallSession → Option Refusal
send_dtmf send digits s = elim s.dialog_client [
  | some d ↦ elim (send digits) [ none ↦ none | some e ↦ some (dtmf_failed e) ]
  | none ↦ elim s.dialog_server [
    | some d ↦ elim (send digits) [ none ↦ none | some e ↦ some (dtmf_failed e) ]
    | none ↦ some dialog_not_ready
  ]
]

abbrev pub dtmf_through :
    (Text → Option DtmfError) → Text → Option CallSession → Connection → Connection
dtmf_through send digits none c = c
dtmf_through send digits (some s) c = elim (send_dtmf send digits s) [
  | none ↦ c
  | some why ↦ refuse why c
]

unfoldable pub on_dtmf : (Text → Option DtmfError) → WsMessage → Connection → Manager → Connection
on_dtmf send msg c m = elim c.current [
  | none ↦ refuse no_active_call c
  | some p ↦ dtmf_through send (trim_space msg.digits) (lookup p m.sessions) c
]

-- The client forgets the call before it is hung up.
abbrev pub hang_up : Option ℕ → ℕ → Connection → Manager → Connection × Manager
hang_up none now c m = (c, m)
hang_up (some p) now c m =
    let m' = Sessions.hangup p (txt "user hangup") now m in
    (react m m' (record c { current = none }), m')

unfoldable pub on_hangup : ℕ → Connection → Manager → Connection × Manager
on_hangup now c m = hang_up c.current now c m

-- What the outside world does with a message.
pub record Surroundings : Type 0 where
  pub dial : DialWorld
  pub accept : AcceptWorld
  pub can_respond : Bool
  pub adds_candidate : Bool
  pub send_digits : Text → Option DtmfError

-- One turn of the loop.
unfoldable pub on_message : WsMessage → Surroundings → Connection → Manager → Connection × Manager
unfolding on_dial on_incoming_accept on_incoming_reject on_candidate on_dtmf on_hangup
on_message msg w c m =
    if msg.kind == txt "dial"
    then on_dial msg w.dial c m
    else if msg.kind == txt "incoming_accept"
    then on_incoming_accept msg w.accept c m
    else if msg.kind == txt "incoming_reject"
    then on_incoming_reject msg w.can_respond c m
    else if msg.kind == txt "candidate"
    then (on_candidate msg w.adds_candidate c, m)
    else if msg.kind == txt "dtmf"
    then (on_dtmf w.send_digits msg c m, m)
    else if msg.kind == txt "hangup"
    then on_hangup w.dial.now c m
    else if msg.kind == txt "ping"
    then (say pong c, m)
    else (refuse unsupported c, m)
