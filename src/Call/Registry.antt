-- ===== src/Call/Registry.antt =====
-- internal/call/manager.go, lines 231 to 269 and 477 to 516: the maps of the manager.
pub mod Listing
use callfxo.Prelude.{
  ℕ, Bool, true, false, Option, none, some, List, [], ◌∷◌, ◌&&◌, not, is_nil, if◌then◌else◌,
}
use callfxo.Prelude.Integers.{ℤ, pos, is_positive}
use callfxo.Prelude.Equality.{◌==◌, nat_eq, int_eq, list_eq}
use callfxo.Prelude.GoMap.{GoMap, lookup, insert, remove, remove_values}
use callfxo.Text.{Text}
use callfxo.Call.State.{
  CallSession, InboundInvite, IncomingCall, IncomingEvent, Manager, effect, notify,
}

unfoldable pub get_user_call : ℤ → Manager → Option ℕ
get_user_call user_id m = lookup user_id m.calls_by_user

abbrev pub has_box_id : ℤ → Option CallSession → Bool
has_box_id box_id none = false
has_box_id box_id (some c) = c.box_id == box_id

-- The loop over callsByID.
unfoldable pub some_call_uses : ℤ → GoMap ℕ CallSession → GoMap Text ℕ → Bool
some_call_uses box_id heap [] = false
some_call_uses box_id heap ((k, p) ∷ calls) =
    let rest = some_call_uses box_id heap calls in
    if has_box_id box_id (lookup p heap) then true else rest

unfoldable pub is_box_in_use : ℤ → Manager → Bool
unfolding some_call_uses
is_box_in_use box_id m =
    if is_positive box_id then some_call_uses box_id m.sessions m.calls_by_id else false

unfoldable pub has_user_id : ℤ → List ℤ → Bool
has_user_id user_id [] = false
has_user_id user_id (u ∷ us) = if u == user_id then true else has_user_id user_id us

unfoldable pub has_user : ℤ → InboundInvite → Bool
unfolding has_user_id
has_user user_id inv = has_user_id user_id inv.users

abbrev pub pending_one : ℤ → Option InboundInvite → List IncomingCall → List IncomingCall
pending_one user_id none rest = rest
pending_one user_id (some inv) rest =
    if has_user user_id inv && not inv.ended then inv.meta ∷ rest else rest

unfoldable pub pending_of : ℤ → GoMap ℕ InboundInvite → GoMap Text ℕ → List IncomingCall
unfolding has_user
pending_of user_id heap [] = []
pending_of user_id heap ((k, p) ∷ incoming) =
    pending_one user_id (lookup p heap) (pending_of user_id heap incoming)

unfoldable pub list_pending_incoming : ℤ → Manager → List IncomingCall
unfolding pending_of
list_pending_incoming user_id m = pending_of user_id m.invites m.incoming_by_id

unfoldable pub register_call : ℕ → CallSession → Text → Manager → Manager
register_call pointer c sip_call_id m = record m {
  calls_by_id = insert c.id pointer m.calls_by_id;
  calls_by_sip_id =
      if is_nil sip_call_id
      then m.calls_by_sip_id
      else insert sip_call_id pointer m.calls_by_sip_id;
  calls_by_user =
      if is_positive c.user_id then insert c.user_id pointer m.calls_by_user else m.calls_by_user;
}

unfoldable pub unregister_call : ℕ → CallSession → Manager → Manager
unregister_call pointer c m = record m {
  calls_by_id = remove c.id m.calls_by_id;
  calls_by_user =
      if is_positive c.user_id then remove c.user_id m.calls_by_user else m.calls_by_user;
  calls_by_sip_id = remove_values (λ p. p == pointer) m.calls_by_sip_id;
}

unfoldable pub remove_inbound : Text → Manager → Manager
remove_inbound invite_id m = record m { incoming_by_id = remove invite_id m.incoming_by_id }

unfoldable pub emit_incoming_event : IncomingEvent → Manager → Manager
emit_incoming_event event m = if m.notifier then effect (notify event) m else m
