-- ===== src/Call/Outbound/Stale.antt =====
-- What is left of a StartCall whose peer connection fails before the session is registered.
use callfxo.Prelude.{ℕ, Bool, true, false, subst, none, ◌≡◌, refl, ◌∙◌, is_nil}
use callfxo.Prelude.Integers.{ℤ, is_positive}
use callfxo.Prelude.Equality.{nat_eq, int_eq, list_eq}
use callfxo.Text.{Text, trim_space}
use callfxo.Call.State.{SignalCallbacks, Manager, done, refused, already_active}
use callfxo.Call.Registry.{get_user_call}
use callfxo.Call.Session.{close}
use callfxo.Call.Session.Close.{close-closed}
use callfxo.Call.Outbound.{DialWorld, start_call}
use callfxo.Call.Outbound.Placed.{Outcome, start_call-Outcome}

module _ (user_id : ℤ) (device_token : Text) (box_id : ℤ) (w : DialWorld)
    (positive : is_positive user_id ≡ true) where
  -- A StartCall whose peer connection fails before the session is registered, and that returns a session
  -- nevertheless, leaves its user, who had no call, with a call that is over: no close of the session changes anything
  -- any more, and the user's next StartCall, with whatever number that is not blank, is refused since a call
  -- is active.
  pub start_call_stale :
      (raw_number : Text) (cb : SignalCallbacks) (m : Manager) {session : ℕ} {sdp : Text}
      {m' : Manager}
      → get_user_call user_id m ≡ none
      → w.peer_fails ≡ true
      → start_call user_id device_token box_id raw_number w cb m ≡ (done (session, sdp), m')
      → ((bye : Bool) (status reason : Text) (now : ℕ)
          → close session bye status reason now m' ≡ m')
        × ((token next_number : Text) (box : ℤ) (later : DialWorld) (cb' : SignalCallbacks)
            → is_nil (trim_space next_number) ≡ false
            → start_call user_id token box next_number later cb' m' ≡ (refused already_active, m'))
  unfolding start_call
  start_call_stale raw_number cb m {session} {sdp} {m'} free fails h =
      let (c, there, _, (shut, _, _, _, _, _), busy) =
        subst (Outcome user_id device_token box_id w.peer_fails (trim_space raw_number)) h
          (start_call-Outcome user_id device_token box_id w positive raw_number cb m free) in
      (
        λ bye status reason now.
            close-closed session c bye status reason now m' there (shut ∙ fails),
        λ token next_number box later cb' named. rw (named, busy) refl,
      )
