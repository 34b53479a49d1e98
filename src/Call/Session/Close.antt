-- ===== src/Call/Session/Close.antt =====
-- The end of a call: close runs its body once, and takes the call out of the maps.
use callfxo.Prelude.{
  ℕ, Bool, true, false, none, some, ◌≡◌, ◌≢◌, refl, arith, Bool-cases, Option-cases, inl, inr,
  if_of_false, if◌then◌else◌,
}
use callfxo.Prelude.Integers.{is_positive}
use callfxo.Prelude.Equality.{◌==◌, nat_eq, int_eq, list_eq, ==_iff}
use callfxo.Prelude.GoMap.{
  lookup, insert, remove, remove_values, lookup-insert_self, lookup-remove_self,
  lookup-remove_values,
}
use callfxo.Text.{Text}
use callfxo.Call.State.{CallSession, Manager}
use callfxo.Call.Registry.{get_user_call}
use callfxo.Call.Session.{send_bye_to, close_dialogs, close_body, close}

-- The session after its end.
abbrev pub closed_session : CallSession → CallSession
closed_session c = record c { closed = true; remote_ready = true }

module _ (pointer : ℕ) (c : CallSession) (send_bye : Bool) (status reason : Text) (now : ℕ)
    (m : Manager) where
  abbrev after_body : Manager
  after_body = close_body pointer c send_bye status reason now m

  close_body-sessions : after_body.sessions ≡ insert pointer (closed_session c) m.sessions
  unfolding close_body send_bye_to close_dialogs
  close_body-sessions = ground arith

  pub close_body-maps :
      (after_body.calls_by_id ≡ remove c.id m.calls_by_id)
      × (after_body.calls_by_sip_id ≡ remove_values (λ p. p == pointer) m.calls_by_sip_id)
      × (after_body.calls_by_user
          ≡ (if is_positive c.user_id then remove c.user_id m.calls_by_user else m.calls_by_user))
  unfolding close_body send_bye_to close_dialogs
  close_body-maps = (ground arith, ground arith, ground arith)

  pub close_body-inbound :
      (after_body.invites ≡ m.invites)
      × (after_body.incoming_by_id ≡ m.incoming_by_id)
      × (after_body.notifier ≡ m.notifier)
  unfolding close_body send_bye_to close_dialogs
  close_body-inbound = (ground arith, ground arith, ground arith)

close-live :
    (pointer : ℕ) (c : CallSession) (send_bye : Bool) (status reason : Text) (now : ℕ) (m : Manager)
    → lookup pointer m.sessions ≡ some c
    → c.closed ≡ false
    → close pointer send_bye status reason now m ≡ close_body pointer c send_bye status reason now m
unfolding close
close-live pointer c send_bye status reason now m h live = rw h (if_of_false _ _ live)

-- The close of a session in the heap that is not closed marks it as closed, and takes it out of every map:
-- its identifier and, where it is positive, its user
-- find no call, and no SIP identifier finds the session.
pub close-unregisters :
    (pointer : ℕ) (c : CallSession) (send_bye : Bool) (status reason : Text) (now : ℕ) (m : Manager)
    → lookup pointer m.sessions ≡ some c
    → c.closed ≡ false
    → let m' = close pointer send_bye status reason now m in
      (lookup pointer m'.sessions ≡ some (closed_session c))
      × (lookup c.id m'.calls_by_id ≡ none)
      × (is_positive c.user_id ≡ true → get_user_call c.user_id m' ≡ none)
      × ((sip_call_id : Text) → lookup sip_call_id m'.calls_by_sip_id ≢ some pointer)
unfolding get_user_call
close-unregisters pointer c send_bye status reason now m h live =
    let (by_id, by_sip, by_user) = close_body-maps pointer c send_bye status reason now m in
    rw (close-live pointer c send_bye status reason now m h live) (
      rw (close_body-sessions pointer c send_bye status reason now m)
          (lookup-insert_self pointer (closed_session c) m.sessions),
      rw by_id (lookup-remove_self c.id m.calls_by_id),
      λ positive. rw (by_user, positive) (lookup-remove_self c.user_id m.calls_by_user),
      λ sip_call_id found. cc (
        lookup-remove_values (λ p. p == pointer) sip_call_id m.calls_by_sip_id (rw by_sip at found),
        (==_iff pointer pointer).1 refl,
      ),
    )

pub close-closed :
    (pointer : ℕ) (c : CallSession) (send_bye : Bool) (status reason : Text) (now : ℕ) (m : Manager)
    → lookup pointer m.sessions ≡ some c
    → c.closed ≡ true
    → close pointer send_bye status reason now m ≡ m
unfolding close
close-closed pointer c send_bye status reason now m h shut = rw (h, shut) refl

close-absent :
    (pointer : ℕ) (send_bye : Bool) (status reason : Text) (now : ℕ) (m : Manager)
    → lookup pointer m.sessions ≡ none
    → close pointer send_bye status reason now m ≡ m
unfolding close
close-absent pointer send_bye status reason now m h = rw h refl

-- However often a session is closed, and for whatever reasons, only the first close has an effect: no
-- second BYE, no second end of the log, no second callback.
pub close_twice :
    (pointer : ℕ) (bye₁ bye₂ : Bool) (status₁ reason₁ status₂ reason₂ : Text) (now₁ now₂ : ℕ)
    (m : Manager)
    → close pointer bye₂ status₂ reason₂ now₂ (close pointer bye₁ status₁ reason₁ now₁ m)
      ≡ close pointer bye₁ status₁ reason₁ now₁ m
close_twice pointer bye₁ bye₂ status₁ reason₁ status₂ reason₂ now₁ now₂ m =
    elim (Option-cases (lookup pointer m.sessions)) [
      | inl absent ↦
          rw (close-absent pointer bye₁ status₁ reason₁ now₁ m absent)
            (close-absent pointer bye₂ status₂ reason₂ now₂ m absent)
      | inr (c, h) ↦ elim (Bool-cases c.closed) [
        | inl shut ↦
            rw (close-closed pointer c bye₁ status₁ reason₁ now₁ m h shut)
              (close-closed pointer c bye₂ status₂ reason₂ now₂ m h shut)
        | inr live ↦
            close-closed pointer (closed_session c) bye₂ status₂ reason₂ now₂ _
              (close-unregisters pointer c bye₁ status₁ reason₁ now₁ m h live).0 refl
      ]
    ]
