-- ===== src/Call/Inbound/Guards.antt =====
-- The guards of AcceptIncoming and RejectIncoming, and what two users do to one invite.
use callfxo.Prelude.{ℕ, Bool, true, false, none, some, ◌≡◌, refl, arith, ap, ◌∙◌, if◌then◌else◌}
use callfxo.Prelude.Integers.{ℤ}
use callfxo.Prelude.Equality.{nat_eq, int_eq, list_eq}
use callfxo.Prelude.GoMap.{lookup, lookup-insert_self}
use callfxo.Text.{Text, txt, trim_space, is_blank}
use callfxo.Call.State.{
  InboundInvite, Manager, Answer, done, refused, stopped, set_invite, Status, busy_here,
}
use callfxo.Call.Registry.{get_user_call, has_user}
use callfxo.Call.Invite.Finish.{reject-finish, reject-keeps, rejected}
use callfxo.Call.Invite.{
  respond_error, ended_invite, invite_by_id, reject_incoming, reject_with_response,
}
use callfxo.Call.Inbound.{connecting_invite, accept_begin}

invite_by_id-found :
    (id : Text) (pointer : ℕ) (inv : InboundInvite) (m : Manager)
    → lookup (trim_space id) m.incoming_by_id ≡ some pointer
    → lookup pointer m.invites ≡ some inv
    → invite_by_id id m ≡ some (pointer, inv)
unfolding invite_by_id
invite_by_id-found id pointer inv m h k = rw (invite_by_id, h, k) refl

-- What AcceptIncoming has done once it releases the lock of the invite for the first time. A refusal changes
-- nothing. Else the invite is in the heap with its timer stopped and with who answers, as it is returned, and
-- nothing but the invites has changed.
abbrev pub Begun : ℤ → Text → Text → Manager → Answer (ℕ × InboundInvite) × Manager → Type 0
Begun user_id token id m (refused e, m') = m' ≡ m
Begun user_id token id m (done (pointer, inv'), m') =
    ((inv : InboundInvite) × (invite_by_id id m ≡ some (pointer, inv))
      × (has_user user_id inv ≡ true)
      × (inv.ended ≡ false)
      × (inv.connected ≡ false)
      × (inv' ≡ record inv {
        timer = false;
        meta = record (inv.meta) {
          state = txt "connecting";
          answered_by_user_id = user_id;
          answered_by_device_token = trim_space token;
        };
      }))
    × (get_user_call user_id m ≡ none)
    × (lookup pointer m'.invites ≡ some inv')
    × (m' ≡ record m { invites = m'.invites })

accept_begin-passes :
    (user_id : ℤ) (token id : Text) (pointer : ℕ) (inv : InboundInvite) (m : Manager)
    → lookup (trim_space id) m.incoming_by_id ≡ some pointer
    → lookup pointer m.invites ≡ some inv
    → has_user user_id inv ≡ true
    → get_user_call user_id m ≡ none
    → inv.ended ≡ false
    → inv.connected ≡ false
    → accept_begin user_id token id m ≡ (
      done (pointer, connecting_invite user_id token inv),
      set_invite pointer (connecting_invite user_id token inv) m,
    )
unfolding accept_begin
accept_begin-passes user_id token id pointer inv m h k mine free live waiting =
    rw (invite_by_id-found id pointer inv m h k, mine, free, live, waiting) refl

-- The guards let a second user accept a pending invite that a first user is accepting, where it is for
-- both of them and neither has a call: neither `ended` nor
-- `connected` is set before the first one's media and answer are through, and the state "connecting"
-- is not looked at.
pub accept_begin_twice :
    (user_id other_id : ℤ) (token other_token id : Text) (pointer : ℕ) (inv : InboundInvite)
    (m : Manager)
    → lookup (trim_space id) m.incoming_by_id ≡ some pointer
    → lookup pointer m.invites ≡ some inv
    → has_user user_id inv ≡ true
    → has_user other_id inv ≡ true
    → get_user_call user_id m ≡ none
    → get_user_call other_id m ≡ none
    → inv.ended ≡ false
    → inv.connected ≡ false
    → let first = connecting_invite user_id token inv in
      let (a, m₁) = accept_begin user_id token id m in
      (a ≡ done (pointer, first))
      × ((accept_begin other_id other_token id m₁).0
          ≡ done (pointer, connecting_invite other_id other_token first))
unfolding set_invite has_user get_user_call
accept_begin_twice user_id other_id token other_token id pointer inv m h k mine theirs free free'
      live waiting =
    let first = connecting_invite user_id token inv in
    rw (accept_begin-passes user_id token id pointer inv m h k mine free live waiting) (
      refl,
      ap (λ x. x.0)
          (accept_begin-passes other_id other_token id pointer first (set_invite pointer first m) h
            (lookup-insert_self pointer first m.invites) theirs free' live waiting),
    )

reject-sent :
    (pointer : ℕ) (inv : InboundInvite) (status : Status) (reason : Text) (sent : Bool)
    (m : Manager)
    → lookup pointer m.invites ≡ some inv
    → inv.ended ≡ false
    → inv.connected ≡ false
    → ((reject_with_response pointer status reason sent m).0 ≡ sent)
      × (rejected inv ≡ record inv { timer = false })
unfolding reject_with_response
reject-sent pointer inv status reason sent m h live waiting =
    (rw (h, live, waiting) refl, ground arith)

-- A rejection of a pending invite, neither ended nor answered, by a user it is for ends the invite where the
-- response is sent. Where it cannot be
-- sent, the rejection is an error, and the invite stays pending and has not ended, without a timer.
pub reject_incoming-outcome :
    (user_id : ℤ) (id reason : Text) (sent : Bool) (pointer : ℕ) (inv : InboundInvite) (m : Manager)
    → lookup (trim_space id) m.incoming_by_id ≡ some pointer
    → lookup pointer m.invites ≡ some inv
    → has_user user_id inv ≡ true
    → inv.ended ≡ false
    → inv.connected ≡ false
    → let (e, m') = reject_incoming user_id id reason sent m in
      if sent
      then (e ≡ none)
        × (lookup pointer m'.invites ≡ some (ended_invite inv))
        × (lookup inv.meta.id m'.incoming_by_id ≡ none)
      else (e ≡ some respond_error)
        × (lookup pointer m'.invites ≡ some (record inv { timer = false }))
        × (m'.incoming_by_id ≡ m.incoming_by_id)
unfolding reject_incoming
reject_incoming-outcome user_id id reason true pointer inv m h k mine live waiting =
    let why = if is_blank reason then txt "declined" else reason in
    let (over, gone) = reject-finish pointer inv busy_here why true stopped why m k live in
    rw
      (
        invite_by_id-found id pointer inv m h k,
        mine,
        (reject-sent pointer inv busy_here why true m k live waiting).0,
      )
      (refl, over, gone)
reject_incoming-outcome user_id id reason false pointer inv m h k mine live waiting =
    let why = if is_blank reason then txt "declined" else reason in
    let (unsent, same) = reject-sent pointer inv busy_here why false m k live waiting in
    let (kept, pending, _) = reject-keeps pointer inv busy_here why false m k in
    rw (invite_by_id-found id pointer inv m h k, mine, unsent) (refl, kept ∙ ap some same, pending)
