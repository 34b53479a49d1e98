-- ===== src/Web/BoxStatus.antt =====
-- internal/web/server.go, lines 318 to 379: the loop that watches the boxes, and what it tells the clients.
pub mod Changes
pub mod Replay
use callfxo.Prelude.{
  ℕ, Bool, true, false, ◌&&◌, not, Option, none, some, List, [], ◌∷◌, ◌++◌, if◌then◌else◌,
}
use callfxo.Prelude.Integers.{ℤ}
use callfxo.Prelude.Equality.{int_eq}
use callfxo.Prelude.GoMap.{GoMap, lookup, insert}
use callfxo.Store.Schema.{Result, ok, err}
use callfxo.Store.Boxes.{FxoBoxWithStatus, list_fxo_boxes_with_status}
use callfxo.Call.State.{Manager, run_store}
use callfxo.Call.Registry.{is_box_in_use}
use callfxo.Web.Events.{BoxRuntimeState, box_status, Hub, Up, send_to_all}

-- A Go map of the states, written once for each box.
unfoldable pub current_states : Manager → List FxoBoxWithStatus → GoMap ℤ BoxRuntimeState
unfolding is_box_in_use
current_states m [] = []
current_states m (b ∷ bs) =
    insert b.box.id (record { online = b.online; in_use = is_box_in_use b.box.id m })
      (current_states m bs)

abbrev pub bool_beq : Bool → Bool → Bool
bool_beq true b = b
bool_beq false b = not b

abbrev pub same_state : Option BoxRuntimeState → BoxRuntimeState → Bool
same_state none state = false
same_state (some old) state = bool_beq old.online state.online && bool_beq old.in_use state.in_use

-- What is new or differs.
unfoldable pub changed : GoMap ℤ BoxRuntimeState → GoMap ℤ BoxRuntimeState → GoMap ℤ BoxRuntimeState
changed previous [] = []
changed previous ((id, state) ∷ rest) =
    let others = changed previous rest in
    if same_state (lookup id previous) state then others else (id, state) ∷ others

abbrev pub off : BoxRuntimeState
off = record { online = false; in_use = false }

abbrev pub is_there : Option BoxRuntimeState → Bool
is_there none = false
is_there (some state) = true

-- What is gone.
unfoldable pub vanished :
    GoMap ℤ BoxRuntimeState → GoMap ℤ BoxRuntimeState → GoMap ℤ BoxRuntimeState
vanished current [] = []
vanished current ((id, state) ∷ rest) =
    let others = vanished current rest in
    if is_there (lookup id current) then others else (id, off) ∷ others

unfoldable pub box_changes :
    GoMap ℤ BoxRuntimeState → GoMap ℤ BoxRuntimeState → GoMap ℤ BoxRuntimeState
unfolding changed vanished
box_changes previous current = changed previous current ++ vanished current previous

-- Every change goes to the clients that there are when it is its turn.
unfoldable pub send_changes : Up → GoMap ℤ BoxRuntimeState → Hub → Hub
unfolding send_to_all
send_changes up [] h = h
send_changes up ((id, state) ∷ rest) h =
    send_changes up rest (send_to_all up h.ws_clients (box_status id state) h)

-- `first` and `boxState`.
pub record Watch : Type 0 where
  pub first : Bool
  pub box_state : GoMap ℤ BoxRuntimeState

abbrev pub tick_states : Up → GoMap ℤ BoxRuntimeState → Watch → Hub → Watch × Hub
tick_states up current w h =
    let w' : Watch = record { first = false; box_state = current } in
    if w.first then (w', h) else (w', send_changes up (box_changes w.box_state current) h)

abbrev pub tick_listed :
    Up → Result (List FxoBoxWithStatus) × Manager → Watch → Hub → (Watch × Hub) × Manager
tick_listed up (ok items, m) w h = (tick_states up (current_states m items) w h, m)
tick_listed up (err e, m) w h = ((w, h), m)

-- One round of boxStatusLoop.
unfoldable pub box_status_tick : Up → ℕ → Watch → Hub → Manager → (Watch × Hub) × Manager
unfolding run_store current_states box_changes send_changes
box_status_tick up now w h m = tick_listed up (run_store (list_fxo_boxes_with_status now) m) w h
