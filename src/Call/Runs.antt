-- ===== src/Call/Runs.antt =====
-- Runs of the handlers of incoming and outgoing calls, on the manager of `Tests`.
use callfxo.Prelude.{
  ℕ, Bool, true, false, Option, none, some, List, [], ◌∷◌, ◌≡◌, ◌≢◌, ◌↔◌, ◌≤◌, ◌⊎◌, is_nil, suc,
  if◌then◌else◌, refl, inl, inr, arith, IsIn,
}
use callfxo.Prelude.Integers.{ℤ, pos, is_positive}
use callfxo.Prelude.Equality.{nat_eq, list_eq}
use callfxo.Prelude.GoMap.{lookup}
use callfxo.Text.{Text, txt, trim_space}
use callfxo.Call.State.{
  SignalCallbacks, already_active, InboundInvite, IncomingEvent, EventKind, Manager, Answer, done,
  refused, stopped,
}
use callfxo.Call.Registry.{get_user_call, is_box_in_use, list_pending_incoming, register_call}
use callfxo.Call.Invite.{respond_error, ended_invite, finish_inbound, on_timer, reject_incoming}
use callfxo.Store.Tests.{healthy}
use callfxo.Call.Session.{close}
use callfxo.Call.Outbound.{DialWorld, invite_error, invited, start_call}
use callfxo.Call.Outbound.Placed.{Outcome, start_call-Outcome}
use callfxo.Call.Outbound.Stale.{start_call_stale}
use callfxo.Call.Inbound.{AcceptWorld, connecting_invite, accept_begin, accept_finish}
use callfxo.Call.Invite.Finish.{closes, told, TellsEnd, finish_inbound-ends, on_timer-ends}
use callfxo.Call.Inbound.Accept.{Settled, accept_finish-settles}
use callfxo.Call.Inbound.Guards.{accept_begin_twice, reject_incoming-outcome}
use callfxo.Call.Tests.{audio, set_up, quiet, ringing_call, running}

finish_inbound-ends_example :
    let m' = finish_inbound 11 stopped (txt "timeout") running in
    ((inv' : InboundInvite) × (lookup 11 m'.invites ≡ some inv')
      × (inv'.ended ≡ true)
      × (inv'.timer ≡ false)
      × (inv'.dialog ≡ ringing_call.dialog))
    × (lookup (txt "i1") m'.incoming_by_id ≡ none)
    × (closes ringing_call.dialog m'.trace ≡ suc (closes ringing_call.dialog running.trace))
    × ((event : IncomingEvent) × TellsEnd ringing_call stopped (txt "timeout") event
        × (told m'.trace
            ≡ (if running.notifier then event ∷ told running.trace else told running.trace)))
    × ((again : EventKind) (why : Text) → finish_inbound 11 again why m' ≡ m')
unfolding lookup
finish_inbound-ends_example =
    finish_inbound-ends 11 ringing_call stopped (txt "timeout") running refl refl

on_timer-ends_example :
    (lookup 11 (on_timer 11 false running).invites ≡ some (ended_invite ringing_call))
    × (lookup (txt "i1") (on_timer 11 false running).incoming_by_id ≡ none)
unfolding lookup
on_timer-ends_example = on_timer-ends 11 ringing_call false running refl refl

abbrev world : AcceptWorld
world = record {
  now = 105;
  fresh_id = txt "c2";
  media = set_up;
  can_respond = true;
  can_respond_sdp = true;
}

accept_finish-settles_example :
    Settled
      (pos 2)
      11
      ringing_call
      (accept_finish (pos 2) (txt "t2") 11 ringing_call world quiet running)
unfolding lookup
accept_finish-settles_example =
    accept_finish-settles (pos 2) (txt "t2") 11 ringing_call world refl refl quiet running refl

accept_begin_twice_example :
    let first = connecting_invite (pos 2) (txt "t2") ringing_call in
    let (a, m₁) = accept_begin (pos 2) (txt "t2") (txt "i1") running in
    (a ≡ done (11, first))
    × ((accept_begin (pos 3) (txt "t3") (txt "i1") m₁).0
        ≡ done (11, connecting_invite (pos 3) (txt "t3") first))
unfolding lookup callfxo.Prelude.Equality.list_beq callfxo.Text.trim_space callfxo.Text.is_space
    callfxo.Call.Registry.has_user callfxo.Prelude.Integers.int_beq get_user_call
accept_begin_twice_example =
    accept_begin_twice (pos 2) (pos 3) (txt "t2") (txt "t3") (txt "i1") 11 ringing_call running refl
      refl refl refl refl refl refl refl

reject_incoming-outcome_example :
    let (e, m') = reject_incoming (pos 2) (txt "i1") [] false running in
    (e ≡ some respond_error)
    × (lookup 11 m'.invites ≡ some (record ringing_call { timer = false }))
    × (m'.incoming_by_id ≡ running.incoming_by_id)
unfolding lookup callfxo.Prelude.Equality.list_beq callfxo.Text.trim_space callfxo.Text.is_space
    callfxo.Call.Registry.has_user callfxo.Prelude.Integers.int_beq
reject_incoming-outcome_example =
    reject_incoming-outcome (pos 2) (txt "i1") [] false 11 ringing_call running refl refl refl refl
      refl

-- The box of the test database answers the INVITE with an error.
abbrev dial : DialWorld
dial = record {
  peer_fails = false;
  now = 150;
  fresh_id = txt "c2";
  media = set_up;
  invite = invite_error (txt "busy");
  resolve_udp_addr = λ host port. none;
}

abbrev dialable : Manager
dialable = record running { store = healthy }

-- The far end answers with its address.
abbrev answered_dial : DialWorld
answered_dial = record dial {
  invite =
      invited 5
        (some (record {
          connection = some (txt "10.0.0.5");
          media_descriptions = record audio { formats = txt "0" ∷ [] } ∷ [];
        }))
        (txt "s9");
  resolve_udp_addr = λ host port. some (record { ip = host; port = port });
}

abbrev is_done : {A : Type 0} → Answer A × Manager → Bool
is_done (done a, m) = true
is_done (refused e, m) = false

is_done-answered_dial :
    is_done (start_call (pos 2) (txt "t2") (pos 7) (txt "0800") answered_dial quiet dialable) ≡ true
unfolding start_call lookup callfxo.Prelude.Integers.int_beq callfxo.Store.Boxes.get_fxo_box_by_id
    callfxo.Prelude.Rows.first callfxo.Store.Registrations.get_active_registration
    callfxo.Prelude.Equality.list_beq
is_done-answered_dial = refl

start_call-Outcome_example :
    Outcome
      (pos 2)
      (txt "t2")
      (pos 7)
      false
      (txt "0800")
      (start_call (pos 2) (txt "t2") (pos 7) (txt "0800") answered_dial quiet dialable)
unfolding lookup callfxo.Prelude.Integers.int_beq get_user_call trim_space callfxo.Text.is_space
start_call-Outcome_example =
    start_call-Outcome (pos 2) (txt "t2") (pos 7) answered_dial refl (txt "0800") quiet dialable
      refl

-- As before, but the peer connection fails in between.
abbrev lost_dial : DialWorld
lost_dial = record answered_dial { peer_fails = true }

abbrev session_of : Answer (ℕ × Text) → ℕ × Text
session_of (done a) = a
session_of (refused e) = (0, [])

abbrev lost : Answer (ℕ × Text) × Manager
lost = start_call (pos 2) (txt "t2") (pos 7) (txt "0800") lost_dial quiet dialable

start_call_stale_example :
    ((bye : Bool) (status reason : Text) (now : ℕ)
      → close (session_of lost.0).0 bye status reason now lost.1 ≡ lost.1)
    × ((token next_number : Text) (box : ℤ) (later : DialWorld) (cb' : SignalCallbacks)
        → is_nil (trim_space next_number) ≡ false
        → start_call (pos 2) token box next_number later cb' lost.1
          ≡ (refused already_active, lost.1))
unfolding lookup callfxo.Prelude.Integers.int_beq get_user_call start_call
    callfxo.Store.Boxes.get_fxo_box_by_id callfxo.Prelude.Rows.first
    callfxo.Store.Registrations.get_active_registration callfxo.Prelude.Equality.list_beq
start_call_stale_example =
    start_call_stale (pos 2) (txt "t2") (pos 7) lost_dial refl (txt "0800") quiet dialable
      {session = (session_of lost.0).0} {sdp = (session_of lost.0).1} {m' = lost.1} refl refl refl
