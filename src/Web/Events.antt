-- ===== src/Web/Events.antt =====
-- internal/web/server.go, lines 83 to 313 and 1418 to 1438: the open WebSockets, what they are told of calls and
-- boxes, and which devices get a push message. A client is told something by a call of Send, which may
-- fail; `up` says for each client and message whether it does not. What is delivered is kept in `sent`,
-- newest first.
use callfxo.Prelude.{
  ℕ, Bool, true, false, ◌&&◌, ◌||◌, not, Option, none, some, List, [], ◌∷◌, map, is_nil,
  if◌then◌else◌,
}
use callfxo.Prelude.Integers.{ℤ}
use callfxo.Prelude.Equality.{◌==◌, list_eq, nat_eq, int_eq}
use callfxo.Prelude.Rows.{select, delete_where, exists}
use callfxo.Text.{Text, txt, trim_space, is_blank, equal_fold}
use callfxo.Text.Decimal.{format_int}
use callfxo.Config.{FcmConfig}
use callfxo.Push.{can_send}
use callfxo.Store.Schema.{UserDevice, Store, Result, ok, err}
use callfxo.Store.Boxes.{FxoBoxWithStatus, list_fxo_boxes_with_status}
use callfxo.Store.Devices.{list_user_devices_by_user_ids}
use callfxo.Call.State.{
  IncomingCall, EventKind, ringing, stopped, answered, IncomingEvent, Manager, run_store,
}
use callfxo.Call.Registry.{is_box_in_use, list_pending_incoming, has_user_id}

-- `id` tells the pointers of clients apart.
pub record WsClient : Type 0 where
  pub id : ℕ
  pub user_id : ℤ
  pub device_token : Text

pub record BoxRuntimeState : Type 0 where
  pub online : Bool
  pub in_use : Bool

-- The message of an event of an incoming call, with who answered it where somebody did.
pub record IncomingMessage : Type 0 where
  pub kind : Text
  pub call : IncomingCall
  pub reason : Text
  pub answered_by : Option (ℤ × Text)

pub data Outgoing : Type 0 where
  boxes_snapshot : List (ℤ × BoxRuntimeState) → Outgoing
  pending : IncomingCall → Outgoing
  incoming : IncomingMessage → Outgoing
  box_status : ℤ → BoxRuntimeState → Outgoing

pub record Hub : Type 0 where
  pub ws_clients : List WsClient
  pub sent : List (ℕ × Outgoing)

unfoldable pub add_ws_client : WsClient → Hub → Hub
add_ws_client c h = record h {
  ws_clients = c ∷ delete_where (λ (d : WsClient). d.id == c.id) h.ws_clients;
}

unfoldable pub remove_ws_client : WsClient → Hub → Hub
remove_ws_client c h = record h {
  ws_clients = delete_where (λ (d : WsClient). d.id == c.id) h.ws_clients;
}

unfoldable pub has_ws_client_for_device : Text → Hub → Bool
unfolding trim_space
has_ws_client_for_device token h =
    not (is_nil (trim_space token))
    && exists (λ (c : WsClient). c.device_token == trim_space token) h.ws_clients

abbrev pub Up : Type 0
Up = ℕ → Outgoing → Bool

-- client.Send, and whether it returns nil.
unfoldable pub send : Up → WsClient → Outgoing → Hub → Bool × Hub
send up c msg h =
    if up c.id msg then (true, record h { sent = (c.id, msg) ∷ h.sent }) else (false, h)

-- A client to which nothing can be sent is dropped.
unfoldable pub send_or_drop : Up → WsClient → Outgoing → Hub → Hub
unfolding send remove_ws_client
send_or_drop up c msg h =
    let (fine, h') = send up c msg h in if fine then h' else remove_ws_client c h'

-- A loop over the clients that there were when it began.
unfoldable pub send_to_all : Up → List WsClient → Outgoing → Hub → Hub
unfolding send_or_drop
send_to_all up [] msg h = h
send_to_all up (c ∷ cs) msg h = send_to_all up cs msg (send_or_drop up c msg h)

abbrev pub status_of : Manager → FxoBoxWithStatus → ℤ × BoxRuntimeState
status_of m b = (b.box.id, record { online = b.online; in_use = is_box_in_use b.box.id m })

-- The new client gets the boxes, unless the store fails.
abbrev pub snapshot : Up → WsClient → Result (List FxoBoxWithStatus) × Manager → Hub → Hub × Manager
snapshot up c (ok items, m) h = ((send up c (boxes_snapshot (map (status_of m) items)) h).1, m)
snapshot up c (err e, m) h = (h, m)

unfoldable pub send_box_snapshot : Up → WsClient → ℕ → Hub → Manager → Hub × Manager
unfolding run_store send is_box_in_use
send_box_snapshot up c now h m = snapshot up c (run_store (list_fxo_boxes_with_status now) m) h

abbrev pub send_each : Up → WsClient → List IncomingCall → Hub → Hub
send_each up c [] h = h
send_each up c (item ∷ items) h = send_each up c items (send up c (pending item) h).1

unfoldable pub send_pending_incoming : Up → WsClient → Manager → Hub → Hub
unfolding list_pending_incoming send
send_pending_incoming up c m h = send_each up c (list_pending_incoming c.user_id m) h

unfoldable pub map_incoming_message_type : EventKind → Text
map_incoming_message_type answered = txt "incoming_answered"
map_incoming_message_type stopped = txt "incoming_stop"
map_incoming_message_type ringing = txt "incoming_call"

unfoldable pub map_incoming_push_event : EventKind → Text
map_incoming_push_event answered = txt "incoming_answered"
map_incoming_push_event stopped = txt "incoming_stop"
map_incoming_push_event ringing = txt "incoming_call"

abbrev pub answerer : EventKind → IncomingCall → Option (ℤ × Text)
answerer answered call = some (call.answered_by_user_id, call.answered_by_device_token)
answerer ringing call = none
answerer stopped call = none

abbrev pub incoming_message : IncomingEvent → Outgoing
incoming_message e = incoming (record {
  kind = map_incoming_message_type e.kind;
  call = e.call;
  reason = e.reason;
  answered_by = answerer e.kind e.call;
})

unfoldable pub notify_incoming_ws : Up → IncomingEvent → Hub → Hub
unfolding send_to_all has_user_id map_incoming_message_type
notify_incoming_ws up e h =
    send_to_all up (select (λ (c : WsClient). has_user_id c.user_id e.user_ids) h.ws_clients)
      (incoming_message e) h

pub record PushData : Type 0 where
  pub event : Text
  pub invite_id : Text
  pub box_id : Text
  pub box_name : Text
  pub caller_id : Text
  pub remote_number : Text
  pub reason : Text
  pub answered_by_user_id : Text
  pub answered_by_device_id : Text

abbrev pub push_data : IncomingEvent → PushData
push_data e = record {
  event = map_incoming_push_event e.kind;
  invite_id = e.call.id;
  box_id = format_int e.call.box_id;
  box_name = e.call.box_name;
  caller_id = e.call.caller_id;
  remote_number = e.call.remote_number;
  reason = e.reason;
  answered_by_user_id = format_int e.call.answered_by_user_id;
  answered_by_device_id = e.call.answered_by_device_token;
}

abbrev pub is_answered : EventKind → Bool
is_answered answered = true
is_answered ringing = false
is_answered stopped = false

-- The three `continue` of the loop.
unfoldable pub is_pushed : IncomingEvent → Hub → UserDevice → Bool
unfolding is_blank has_ws_client_for_device equal_fold
is_pushed e h d = not (
    is_blank d.push_token
    || is_answered e.kind && d.device_token == e.call.answered_by_device_token
    || has_ws_client_for_device d.device_token h && equal_fold d.client_type (txt "web"))

abbrev pub push_targets : IncomingEvent → Hub → Result (List UserDevice) → List (Text × PushData)
push_targets e h (err failed) = []
push_targets e h (ok devices) =
    map (λ (d : UserDevice). (d.push_token, push_data e)) (select (is_pushed e h) devices)

-- The messages that are handed to the push service, whose error is only logged.
unfoldable pub notify_incoming_push :
    FcmConfig → IncomingEvent → Hub → Store → List (Text × PushData) × Store
unfolding can_send is_pushed map_incoming_push_event format_int list_user_devices_by_user_ids
notify_incoming_push cfg e h s =
    if not (can_send cfg) || is_nil e.user_ids
    then ([], s)
    else (let (r, s') = list_user_devices_by_user_ids e.user_ids s in (push_targets e h r, s'))
