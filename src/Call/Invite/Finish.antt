-- ===== src/Call/Invite/Finish.antt =====
-- finishInbound, and the paths that reach it: an invite ends once, and is pending no more.
use callfxo.Prelude.{
  ℕ, Bool, true, false, none, some, List, [], ◌∷◌, suc, ◌≡◌, refl, arith, ap, ◌∙◌, Bool-cases,
  Option-cases, inl, inr, if_of_true, if_of_false, if◌then◌else◌, ◌||◌, subst,
}
use callfxo.Prelude.Equality.{◌==◌, nat_eq, int_eq, list_eq, ==_iff}
use callfxo.Prelude.GoMap.{lookup, insert, remove, lookup-insert_self, lookup-remove_self}
use callfxo.Text.{Text, txt}
use callfxo.Call.State.{
  InboundInvite, EventKind, stopped, Status, temporarily_unavailable, Manager, IncomingEvent,
  Effect, notify, dialog_close, set_invite,
}
use callfxo.Call.Registry.{emit_incoming_event}
use callfxo.Call.Invite.{
  event_of, ended_invite, finish_body, finish_inbound, reject_with_response, reject_, on_timer,
  on_dialog_done,
}

-- What the end of an invite adds to the trace: the closed dialog, and the event, if anyone listens.
abbrev pub finish_trace : InboundInvite → EventKind → Text → Manager → List Effect
finish_trace inv kind reason m =
    dialog_close inv.dialog
    ∷ (if m.notifier then notify (event_of kind (ended_invite inv) reason) ∷ m.trace else m.trace)

module _ (pointer : ℕ) (inv : InboundInvite) (kind : EventKind) (reason : Text) (m : Manager) where
  finish_body-parts :
      ((finish_body pointer inv kind reason m).invites
        ≡ insert pointer (ended_invite inv) m.invites)
      × ((finish_body pointer inv kind reason m).incoming_by_id
          ≡ remove inv.meta.id m.incoming_by_id)
      × ((finish_body pointer inv kind reason m).trace ≡ finish_trace inv kind reason m)
  unfolding finish_body emit_incoming_event
  finish_body-parts = (ground arith, ground arith, ground arith)

  finish_inbound-live :
      lookup pointer m.invites ≡ some inv
      → inv.ended ≡ false
      → finish_inbound pointer kind reason m ≡ finish_body pointer inv kind reason m
  unfolding finish_inbound
  finish_inbound-live h live = rw h (if_of_false _ _ live)

  pub finish_inbound-ended :
      lookup pointer m.invites ≡ some inv
      → inv.ended ≡ true
      → finish_inbound pointer kind reason m ≡ m
  unfolding finish_inbound
  finish_inbound-ended h over = rw h (if_of_true _ _ over)

  pub finish_inbound-parts :
      lookup pointer m.invites ≡ some inv
      → inv.ended ≡ false
      → (lookup pointer (finish_inbound pointer kind reason m).invites ≡ some (ended_invite inv))
        × (lookup inv.meta.id (finish_inbound pointer kind reason m).incoming_by_id ≡ none)
        × ((finish_inbound pointer kind reason m).trace ≡ finish_trace inv kind reason m)
  finish_inbound-parts h live =
      let (heap, pending, done) = finish_body-parts in
      rw (finish_inbound-live h live) (
        rw heap (lookup-insert_self pointer (ended_invite inv) m.invites),
        rw pending (lookup-remove_self inv.meta.id m.incoming_by_id),
        done,
      )

finish_inbound-absent :
    (pointer : ℕ) (kind : EventKind) (reason : Text) (m : Manager)
    → lookup pointer m.invites ≡ none
    → finish_inbound pointer kind reason m ≡ m
unfolding finish_inbound
finish_inbound-absent pointer kind reason m h = rw h refl

-- However many of the timer, the rejections and the end of the dialog reach an invite, and in whatever
-- order, only the first finishInbound has an effect.
pub finish_inbound_twice :
    (pointer : ℕ) (kind₁ kind₂ : EventKind) (reason₁ reason₂ : Text) (m : Manager)
    → finish_inbound pointer kind₂ reason₂ (finish_inbound pointer kind₁ reason₁ m)
      ≡ finish_inbound pointer kind₁ reason₁ m
finish_inbound_twice pointer kind₁ kind₂ reason₁ reason₂ m =
    elim (Option-cases (lookup pointer m.invites)) [
      | inl absent ↦
          rw (finish_inbound-absent pointer kind₁ reason₁ m absent)
            (finish_inbound-absent pointer kind₂ reason₂ m absent)
      | inr (inv, h) ↦ elim (Bool-cases inv.ended) [
        | inl over ↦
            rw (finish_inbound-ended pointer inv kind₁ reason₁ m h over)
              (finish_inbound-ended pointer inv kind₂ reason₂ m h over)
        | inr live ↦
            finish_inbound-ended pointer (ended_invite inv) kind₂ reason₂ _
              (finish_inbound-parts pointer inv kind₁ reason₁ m h live).0 refl
      ]
    ]

-- The events that the notifier was told of, and how often a dialog was closed.
abbrev pub told : List Effect → List IncomingEvent
told [] = []
told (notify event ∷ es) = event ∷ told es
told (other ∷ es) = told es

unfoldable pub closes : ℕ → List Effect → ℕ
closes dialog [] = 0
closes dialog (dialog_close d ∷ es) =
    let rest = closes dialog es in if d == dialog then suc rest else rest
closes dialog (other ∷ es) = closes dialog es

notified-closes :
    (dialog : ℕ) (b : Bool) (event : IncomingEvent) (es : List Effect)
    → closes dialog (if b then notify event ∷ es else es) ≡ closes dialog es
unfolding closes
notified-closes dialog true event es = refl
notified-closes dialog false event es = refl

notified-told :
    (b : Bool) (event : IncomingEvent) (es : List Effect)
    → told (if b then notify event ∷ es else es) ≡ (if b then event ∷ told es else told es)
notified-told true event es = refl
notified-told false event es = refl

-- The event tells of the end of the invite.
abbrev pub TellsEnd : InboundInvite → EventKind → Text → IncomingEvent → Type 0
TellsEnd inv kind reason event =
    (event.kind ≡ kind)
    × (event.reason ≡ reason)
    × (event.call.id ≡ inv.meta.id)
    × (event.call.state ≡ txt "ended")
    × (event.user_ids ≡ inv.users)

-- finishInbound at an invite in the heap that has not ended marks it as ended and stops its timer, takes it out of the
-- pending ones, closes its dialog once, and tells the notifier, where there is one, of its end, and of nothing
-- else; whatever calls finishInbound for it again changes nothing.
pub finish_inbound-ends :
    (pointer : ℕ) (inv : InboundInvite) (kind : EventKind) (reason : Text) (m : Manager)
    → lookup pointer m.invites ≡ some inv
    → inv.ended ≡ false
    → let m' = finish_inbound pointer kind reason m in
      ((inv' : InboundInvite) × (lookup pointer m'.invites ≡ some inv')
        × (inv'.ended ≡ true)
        × (inv'.timer ≡ false)
        × (inv'.dialog ≡ inv.dialog))
      × (lookup inv.meta.id m'.incoming_by_id ≡ none)
      × (closes inv.dialog m'.trace ≡ suc (closes inv.dialog m.trace))
      × ((event : IncomingEvent) × TellsEnd inv kind reason event
          × (told m'.trace ≡ (if m.notifier then event ∷ told m.trace else told m.trace)))
      × ((again : EventKind) (why : Text) → finish_inbound pointer again why m' ≡ m')
unfolding closes
finish_inbound-ends pointer inv kind reason m h live =
    let (heap, pending, traced) = finish_inbound-parts pointer inv kind reason m h live in
    (
      (ended_invite inv, heap, refl, refl, refl),
      pending,
      ap (closes inv.dialog) traced
          ∙ if_of_true _ _ ((==_iff inv.dialog inv.dialog).1 refl)
          ∙ ap suc (
              notified-closes inv.dialog m.notifier (event_of kind (ended_invite inv) reason)
                m.trace),
      (
        event_of kind (ended_invite inv) reason,
        (refl, refl, refl, refl, refl),
        ap told traced ∙ notified-told m.notifier (event_of kind (ended_invite inv) reason) m.trace,
      ),
      λ again why. finish_inbound_twice pointer kind again reason why m,
    )

-- The invite that rejectWithResponse leaves: its timer is stopped, unless it had ended or was answered.
abbrev pub rejected : InboundInvite → InboundInvite
rejected inv = if inv.ended || inv.connected then inv else record inv { timer = false }

pub reject-keeps :
    (pointer : ℕ) (inv : InboundInvite) (status : Status) (reason : Text) (sent : Bool)
    (m : Manager)
    → lookup pointer m.invites ≡ some inv
    → (lookup pointer (reject_ pointer status reason sent m).invites ≡ some (rejected inv))
      × ((reject_ pointer status reason sent m).incoming_by_id ≡ m.incoming_by_id)
      × ((reject_ pointer status reason sent m).notifier ≡ m.notifier)
unfolding reject_with_response set_invite
reject-keeps pointer inv status reason sent m h =
    ground (arith, h, lookup-insert_self pointer (record inv { timer = false }) m.invites)

rejected-same :
    (inv : InboundInvite)
    → inv.ended ≡ false
    → (ended_invite (rejected inv) ≡ ended_invite inv)
      × ((rejected inv).meta.id ≡ inv.meta.id)
      × ((rejected inv).ended ≡ false)
rejected-same inv live = (ground arith, ground arith, ground arith)

-- A rejection, sent or not, and the end of the invite behind it.
pub reject-finish :
    (pointer : ℕ) (inv : InboundInvite) (status : Status) (said : Text) (sent : Bool)
    (kind : EventKind) (reason : Text) (m : Manager)
    → lookup pointer m.invites ≡ some inv
    → inv.ended ≡ false
    → let m' = finish_inbound pointer kind reason (reject_ pointer status said sent m) in
      (lookup pointer m'.invites ≡ some (ended_invite inv))
      × (lookup inv.meta.id m'.incoming_by_id ≡ none)
reject-finish pointer inv status said sent kind reason m h live =
    let (kept, _, _) = reject-keeps pointer inv status said sent m h in
    let (same, same_id, live') = rejected-same inv live in
    let m₁ = reject_ pointer status said sent m in
    let (over, gone, _) = finish_inbound-parts pointer (rejected inv) kind reason m₁ kept live' in
    (
      over ∙ ap some same,
      subst (λ id. lookup id (finish_inbound pointer kind reason m₁).incoming_by_id ≡ none) same_id
          gone,
    )

-- The timer ends every invite in the heap that has not ended, whether or not the response can be sent, also one
-- that has been answered in the meantime.
pub on_timer-ends :
    (pointer : ℕ) (inv : InboundInvite) (sent : Bool) (m : Manager)
    → lookup pointer m.invites ≡ some inv
    → inv.ended ≡ false
    → (lookup pointer (on_timer pointer sent m).invites ≡ some (ended_invite inv))
      × (lookup inv.meta.id (on_timer pointer sent m).incoming_by_id ≡ none)
unfolding on_timer
on_timer-ends pointer inv sent m h live =
    reject-finish pointer inv temporarily_unavailable (txt "No answer") sent stopped (txt "timeout")
      m h live

-- Once an invite is answered, the end of its dialog changes nothing any more.
pub on_dialog_done-connected :
    (pointer : ℕ) (inv : InboundInvite) (m : Manager)
    → lookup pointer m.invites ≡ some inv
    → inv.connected ≡ true
    → on_dialog_done pointer m ≡ m
unfolding on_dialog_done
on_dialog_done-connected pointer inv m h answered = rw h (ground arith)
