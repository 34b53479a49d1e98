-- ===== src/Call/Ringing.antt =====
-- internal/call/manager.go, lines 378 to 466: an incoming call rings for the users of a box.
use callfxo.Prelude.{ℕ, suc, ◌+◌, true, false, Option, some, List, [], ◌∷◌, map}
use callfxo.Prelude.Integers.{ℤ, pos}
use callfxo.Prelude.Equality.{nat_eq, int_eq, list_eq}
use callfxo.Prelude.GoMap.{insert}
use callfxo.Text.{Text, txt}
use callfxo.Store.Schema.{User, UserDevice, FxoBox, Result, ok, err}
use callfxo.Store.Permissions.{list_users_for_incoming_fxo}
use callfxo.Store.Devices.{list_user_devices_by_user_ids}
use callfxo.Call.Sdp.{SessionDescription, Target, found, failed, parse_sip_audio_target}
use callfxo.Call.State.{
  Address, ringing, InboundInvite, Status, trying, ringing_180, temporarily_unavailable,
  not_acceptable_here, internal_server_error, respond, dialog_close, Manager, effect, set_invite,
  run_store,
}
use callfxo.Call.Registry.{emit_incoming_event}
use callfxo.Call.Invite.{event_of}

-- A new invite, in the table of the pending ones.
unfoldable pub ring :
    FxoBox → Text → Text → ℕ → Text → Text → ℕ → List ℤ → Address → ℕ → Manager → Manager
unfolding set_invite emit_incoming_event
ring box caller_id remote_number dialog sip_call_id fresh_id now users addr pt m =
    let pointer = m.next_pointer in
    let inv : InboundInvite = record {
      meta = record {
        id = fresh_id;
        sip_call_id = sip_call_id;
        box_id = box.id;
        box_name = box.name;
        caller_id = caller_id;
        remote_number = remote_number;
        state = txt "ringing";
        created_at = now;
        expires_at = now + 35;
        answered_by_user_id = pos 0;
        answered_by_device_token = [];
      };
      users = users;
      dialog = dialog;
      remote_rtp = some addr;
      sip_pt = pt;
      timer = true;
      ended = false;
      connected = false;
    } in
    let added = set_invite pointer inv (record m {
      next_pointer = suc pointer;
      incoming_by_id = insert fresh_id pointer m.incoming_by_id;
    }) in
    emit_incoming_event (event_of ringing inv (txt "incoming")) added

-- A refusal before there is an invite.
abbrev pub turn_away : ℕ → Status → Text → Manager → Manager
turn_away dialog status reason m =
    effect (dialog_close dialog) (effect (respond dialog status reason) m)

abbrev pub user_ids_of : List User → List ℤ
user_ids_of us = map (λ (u : User). u.id) us

-- From the result of the two queries on.
abbrev pub with_devices : ℕ → Result (List UserDevice) × Manager → (Manager → Manager) → Manager
with_devices dialog (err e, m) go = turn_away dialog internal_server_error (txt "Server error") m
with_devices dialog (ok [], m) go =
    turn_away dialog temporarily_unavailable (txt "No reachable devices") m
with_devices dialog (ok (d ∷ ds), m) go = go (
    effect (respond dialog ringing_180 (txt "Ringing"))
      (effect (respond dialog trying (txt "Trying")) m))

abbrev pub with_users : ℕ → Result (List User) × Manager → (List ℤ → Manager → Manager) → Manager
with_users dialog (err e, m) go = turn_away dialog internal_server_error (txt "Server error") m
with_users dialog (ok [], m) go =
    turn_away dialog temporarily_unavailable (txt "No receiving devices") m
with_users dialog (ok (u ∷ us), m) go = go (user_ids_of (u ∷ us)) m

abbrev pub with_target :
    ℕ → Target (Address × ℕ) → (Address → ℕ → Manager → Manager) → Manager → Manager
with_target dialog (failed e) go m = turn_away dialog not_acceptable_here (txt "PCMU required") m
with_target dialog (found (addr, pt)) go m = go addr pt m

-- The identifier and the time come from outside, as do the parser and the resolver.
unfoldable pub on_incoming_invite :
    (Text → ℕ → Option Address)
    → Option SessionDescription
    → Text
    → ℕ
    → FxoBox
    → Text
    → Text
    → ℕ
    → Text
    → Manager
    → Manager
unfolding parse_sip_audio_target run_store ring
on_incoming_invite resolve_udp_addr body fresh_id now box caller_id remote_number dialog sip_call_id
      m =
    with_target dialog (parse_sip_audio_target resolve_udp_addr body)
      (λ addr pt m₀.
        with_users dialog (run_store (list_users_for_incoming_fxo box.id) m₀) λ users m₁.
          with_devices dialog (run_store (list_user_devices_by_user_ids users) m₁)
            (ring box caller_id remote_number dialog sip_call_id fresh_id now users addr pt))
      m
