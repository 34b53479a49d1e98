-- ===== src/Call/State.antt =====
-- internal/call/manager.go, lines 30 to 124: the state of the manager. What Go holds by pointer stands
-- in a heap, at a number: the maps and the handlers hold the numbers, so that two of them may share an
-- object. A mutex is the atomicity of a function of the model. What the code does to the outside world
-- is recorded in `trace`, newest first; what the outside world does is an argument of the handlers.
use callfxo.Prelude.{ℕ, Bool, Option, none, some, List, ◌∷◌, is_nil, if◌then◌else◌}
use callfxo.Prelude.Integers.{ℤ}
use callfxo.Prelude.Equality.{nat_eq, int_eq, list_eq}
use callfxo.Prelude.GoMap.{GoMap, lookup, insert}
use callfxo.Text.{Text, trim_space}
use callfxo.Store.Schema.{Error, Result, Action, Store}

-- net.UDPAddr
pub record Address : Type 0 where
  pub ip : Text
  pub port : ℕ

pub record IncomingCall : Type 0 where
  pub id : Text
  pub sip_call_id : Text
  pub box_id : ℤ
  pub box_name : Text
  pub caller_id : Text
  pub remote_number : Text
  pub state : Text
  pub created_at : ℕ
  pub expires_at : ℕ
  pub answered_by_user_id : ℤ
  pub answered_by_device_token : Text

pub data EventKind : Type 0 where
  ringing stopped answered : EventKind

pub record IncomingEvent : Type 0 where
  pub kind : EventKind
  pub call : IncomingCall
  pub user_ids : List ℤ
  pub reason : Text

-- Which callbacks are not nil.
pub record SignalCallbacks : Type 0 where
  pub on_ice_candidate : Bool
  pub on_state : Bool
  pub on_hangup : Bool

pub record CallSession : Type 0 where
  pub id : Text
  pub direction : Text
  pub user_id : ℤ
  pub device_token : Text
  pub box_id : ℤ
  pub number : Text
  pub caller_id : Text
  pub dialog_client : Option ℕ
  pub dialog_server : Option ℕ
  pub remote_rtp : Option Address
  pub remote_ready : Bool
  pub sip_pt : ℕ
  pub webrtc_pt : ℕ
  pub callbacks : SignalCallbacks
  pub call_log_id : ℤ
  pub closed : Bool

-- `timer` says whether the timer still runs.
pub record InboundInvite : Type 0 where
  pub meta : IncomingCall
  pub users : List ℤ
  pub dialog : ℕ
  pub remote_rtp : Option Address
  pub sip_pt : ℕ
  pub timer : Bool
  pub ended : Bool
  pub connected : Bool

-- The SIP status codes that are sent.
pub data Status : Type 0 where
  trying ringing_180 busy_here temporarily_unavailable : Status
  not_acceptable_here internal_server_error : Status

-- What is done to a dialog, a socket, a peer connection, a browser or the notifier.
pub data Effect : Type 0 where
  respond : ℕ → Status → Text → Effect
  respond_sdp : ℕ → Effect
  dialog_close : ℕ → Effect
  client_bye client_close server_bye server_close : ℕ → Effect
  rtp_close peer_close : ℕ → Effect
  hangup_callback : ℕ → Text → Effect
  state_callback : ℕ → Text → Effect
  notify : IncomingEvent → Effect

pub record Manager : Type 0 where
  pub public_ip : Text
  pub advertised_ip : Text
  pub store : Store
  pub notifier : Bool
  pub calls_by_id : GoMap Text ℕ
  pub calls_by_sip_id : GoMap Text ℕ
  pub calls_by_user : GoMap ℤ ℕ
  pub incoming_by_id : GoMap Text ℕ
  pub sessions : GoMap ℕ CallSession
  pub invites : GoMap ℕ InboundInvite
  pub next_pointer : ℕ
  pub trace : List Effect

pub data CallError : Type 0 where
  number_required already_active box_not_found box_offline : CallError
  store_error : Error → CallError
  rtp_socket webrtc_peer webrtc_setup public_ip_required sip_invite bad_remote_sdp : CallError
  incoming_not_found incoming_not_allowed incoming_ended incoming_answered respond_failed :
      CallError

pub data Answer (A : Type 0) : Type 0 where
  done : A → Answer A
  refused : CallError → Answer A

abbrev pub effect : Effect → Manager → Manager
effect e m = record m { trace = e ∷ m.trace }

-- A write through a pointer.
unfoldable pub set_session : ℕ → CallSession → Manager → Manager
set_session pointer c m = record m { sessions = insert pointer c m.sessions }

unfoldable pub set_invite : ℕ → InboundInvite → Manager → Manager
set_invite pointer inv m = record m { invites = insert pointer inv m.invites }

-- A call of the store.
unfoldable pub run_store : {A : Type 0} → Action A → Manager → Result A × Manager
run_store action m = let (r, s) = action m.store in (r, record m { store = s })

-- A call whose result is dropped.
unfoldable pub run_store_ : {A : Type 0} → Action A → Manager → Manager
run_store_ action m = let (r, s) = action m.store in record m { store = s }

unfoldable pub modify_session : ℕ → (CallSession → CallSession) → Manager → Manager
unfolding set_session
modify_session pointer f m = elim (lookup pointer m.sessions) [
  | none ↦ m
  | some c ↦ set_session pointer (f c) m
]

-- The two settings that may name the address of the media, the first that is not blank.
unfoldable pub media_ip : Manager → Text
unfolding trim_space
media_ip m =
    if is_nil (trim_space m.public_ip) then trim_space m.advertised_ip else trim_space m.public_ip
