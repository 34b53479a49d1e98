-- ===== src/Call/Registry/Listing.antt =====
-- IsBoxInUse and ListPendingIncoming say what the maps hold.
use callfxo.Prelude.{
  if_both, ◌⊎◌, ℕ, true, false, Option, none, some, List, [], ◌∷◌, ◌≡◌, ◌↔◌, ◌&&◌, not, refl, arith,
  ap, sym, ◌∙◌, Bool-cases, Option-cases, inl, inr, if_of_true, if_of_false, IsIn,
}
use callfxo.Prelude.Integers.{ℤ, is_positive}
use callfxo.Prelude.Equality.{nat_eq, int_eq, list_eq, ==_iff}
use callfxo.Prelude.GoMap.{GoMap, lookup}
use callfxo.Text.{Text}
use callfxo.Call.State.{CallSession, InboundInvite, IncomingCall, Manager}
use callfxo.Call.Registry.{
  has_box_id, some_call_uses, is_box_in_use, has_user, pending_one, pending_of,
  list_pending_incoming,
}

-- A session of the box stands under some key of the map.
abbrev pub Uses : ℤ → GoMap ℕ CallSession → GoMap Text ℕ → Type 0
Uses box_id heap calls =
    (k : Text) × (p : ℕ) × (c : CallSession) × IsIn (k, p) calls
    × (lookup p heap ≡ some c)
    × (c.box_id ≡ box_id)

some_call_uses-Uses :
    (box_id : ℤ) (heap : GoMap ℕ CallSession) (calls : GoMap Text ℕ)
    → some_call_uses box_id heap calls ≡ true
    → Uses box_id heap calls
unfolding some_call_uses
some_call_uses-Uses box_id heap [] h = cc
some_call_uses-Uses box_id heap ((k, p) ∷ calls) h =
    elim (Bool-cases (has_box_id box_id (lookup p heap))) [
      | inr other ↦
          let (j, q, c, at, found, same) =
            some_call_uses-Uses box_id heap calls (sym (if_of_false _ _ other) ∙ h) in
          (j, q, c, inr at, found, same)
      | inl mine ↦ elim (Option-cases (lookup p heap)) [
        | inl absent ↦ cc (rw absent at mine)
        | inr (c, found) ↦ (k, p, c, inl refl, found, (==_iff c.box_id box_id).0 (rw found at mine))
      ]
    ]

Uses-some_call_uses :
    (box_id : ℤ) (heap : GoMap ℕ CallSession) (calls : GoMap Text ℕ)
    → Uses box_id heap calls
    → some_call_uses box_id heap calls ≡ true
unfolding some_call_uses
Uses-some_call_uses box_id heap [] (k, p, c, at, found, same) = elim at [ ]
Uses-some_call_uses box_id heap ((j, q) ∷ calls) (k, p, c, inl here, found, same) = if_of_true _ _ (
    ap (λ x. has_box_id box_id (lookup x.1 heap)) (sym here)
    ∙ ap (has_box_id box_id) found
    ∙ (==_iff c.box_id box_id).1 same)
Uses-some_call_uses box_id heap ((j, q) ∷ calls) (k, p, c, inr there, found, same) =
    ground (arith, Uses-some_call_uses box_id heap calls (k, p, c, there, found, same))

-- IsBoxInUse holds exactly where the identifier of the box is positive and a registered call uses the box.
pub is_box_in_use_iff :
    (box_id : ℤ) (m : Manager)
    → (is_box_in_use box_id m ≡ true)
      ↔ ((is_positive box_id ≡ true) × Uses box_id m.sessions m.calls_by_id)
unfolding is_box_in_use
is_box_in_use_iff box_id m = elim (Bool-cases (is_positive box_id)) [
  | inl positive ↦ rw positive (
    λ h. (refl, some_call_uses-Uses box_id m.sessions m.calls_by_id h),
    λ (_, u). Uses-some_call_uses box_id m.sessions m.calls_by_id u,
  )
  | inr negative ↦ rw negative ((λ h. cc), (λ (h, _). cc))
]

-- An invite for the user that has not ended stands under some key, and the call is its own.
abbrev pub Pending : ℤ → IncomingCall → GoMap ℕ InboundInvite → GoMap Text ℕ → Type 0
Pending user_id call heap incoming =
    (k : Text) × (p : ℕ) × (inv : InboundInvite) × IsIn (k, p) incoming
    × (lookup p heap ≡ some inv)
    × (has_user user_id inv ≡ true)
    × (inv.ended ≡ false)
    × (call ≡ inv.meta)

Pending-tail :
    (user_id : ℤ) (call : IncomingCall) (heap : GoMap ℕ InboundInvite) (e : Text × ℕ)
    (incoming : GoMap Text ℕ)
    → Pending user_id call heap incoming
    → Pending user_id call heap (e ∷ incoming)
Pending-tail user_id call heap e incoming (k, p, inv, at, a, b, c, d) =
    (k, p, inv, inr at, a, b, c, d)

pending_of-Pending :
    (user_id : ℤ) (call : IncomingCall) (heap : GoMap ℕ InboundInvite) (incoming : GoMap Text ℕ)
    → IsIn call (pending_of user_id heap incoming)
    → Pending user_id call heap incoming
unfolding pending_of
pending_of-Pending user_id call heap [] h = elim h [ ]
pending_of-Pending user_id call heap ((k, p) ∷ incoming) h =
    let later = λ (i : IsIn call (pending_of user_id heap incoming)).
      Pending-tail user_id call heap (k, p) incoming
        (pending_of-Pending user_id call heap incoming i) in
    elim (Option-cases (lookup p heap)) [
      | inl absent ↦ later (rw absent at h)
      | inr (inv, found) ↦ elim (Bool-cases (has_user user_id inv)) [
        | inr other ↦ later (rw (found, other) at h)
        | inl mine ↦ elim (Bool-cases inv.ended) [
          | inl over ↦ later (rw (found, mine, over) at h)
          | inr live ↦ at later inv found mine live (rw (found, mine, live) at h)
        ]
      ]
    ]
  where
    at :
        (IsIn call (pending_of user_id heap incoming)
          → Pending user_id call heap ((k, p) ∷ incoming))
        → (inv : InboundInvite) → lookup p heap ≡ some inv
        → has_user user_id inv ≡ true
        → inv.ended ≡ false
        → (call ≡ inv.meta) ⊎ IsIn call (pending_of user_id heap incoming)
        → Pending user_id call heap ((k, p) ∷ incoming)
    at later inv found mine live (inl same) = (k, p, inv, inl refl, found, mine, live, same)
    at later inv found mine live (inr i) = later i

pending_one-keeps :
    (user_id : ℤ) (call : IncomingCall) (o : Option InboundInvite) (rest : List IncomingCall)
    → IsIn call rest
    → IsIn call (pending_one user_id o rest)
pending_one-keeps user_id call none rest h = h
pending_one-keeps user_id call (some inv) rest h =
    if_both (IsIn call) (has_user user_id inv && not inv.ended) (inr h) h

Pending-pending_of :
    (user_id : ℤ) (call : IncomingCall) (heap : GoMap ℕ InboundInvite) (incoming : GoMap Text ℕ)
    → Pending user_id call heap incoming
    → IsIn call (pending_of user_id heap incoming)
unfolding pending_of
Pending-pending_of user_id call heap [] (k, p, inv, at, a, b, c, d) = elim at [ ]
Pending-pending_of user_id call heap ((j, q) ∷ incoming) (k, p, inv, inr at, a, b, c, d) =
    pending_one-keeps user_id call (lookup q heap) _
      (Pending-pending_of user_id call heap incoming (k, p, inv, at, a, b, c, d))
Pending-pending_of user_id call heap ((j, q) ∷ incoming)
      (k, p, inv, inl here, found, mine, live, same) =
    rw (ap (λ x. lookup x.1 heap) (sym here) ∙ found, mine, live) (inl same)

-- ListPendingIncoming lists a call exactly where it is that of a pending invite for the user that has
-- not ended.
pub list_pending_incoming_iff :
    (user_id : ℤ) (call : IncomingCall) (m : Manager)
    → IsIn call (list_pending_incoming user_id m) ↔ Pending user_id call m.invites m.incoming_by_id
unfolding list_pending_incoming
list_pending_incoming_iff user_id call m = (
  pending_of-Pending user_id call m.invites m.incoming_by_id,
  Pending-pending_of user_id call m.invites m.incoming_by_id,
)
