-- ===== src/Sip/Invite/Source.antt =====
-- An INVITE reaches the handler only from where its box has registered.
use callfxo.Prelude.{
  ℕ, Bool, true, false, Option, none, some, List, [], ◌∷◌, ◌≡◌, refl, arith, ap, sym, ◌∙◌,
  Bool-cases, Option-cases, inl, inr, IsIn,
}
use mathlib.Core.Option.{some-injective}
use callfxo.Prelude.Equality.{nat_eq, list_eq}
use callfxo.Text.{Text, trim_space}
use callfxo.Store.Schema.{FxoBox, Registration, Result, ok, err}
use callfxo.Store.Boxes.{FxoBoxWithStatus, list_fxo_boxes_with_status}
use callfxo.Sip.Tokens.{same_address}
use callfxo.Sip.Nonces.{Service}
use callfxo.Sip.Register.{run_store}
use callfxo.Sip.Invite.{
  InviteRequest, from_user, fits_user, match_one, match_boxes, match_items,
  match_invite_registration, InviteVerdict, refused, handed, same_transport, hand_over, on_invite,
}

-- The box is listed as online with the registration, which has the source, and its name fits the user.
abbrev pub Listed : Text → Text → List FxoBoxWithStatus → FxoBox → Registration → Type 0
Listed source user items box reg =
    (item : FxoBoxWithStatus) × IsIn item items
    × (item.box ≡ box)
    × (item.online ≡ true)
    × (item.registration ≡ some reg)
    × (same_address source reg.source_addr ≡ true)
    × (fits_user user box.sip_username ≡ true)

match_one_sound :
    (source user : Text) (box : FxoBox) (online : Bool) (o : Option Registration)
    (reg : Registration)
    → match_one source user box online o ≡ some reg
    → (online ≡ true)
      × (o ≡ some reg)
      × (same_address source reg.source_addr ≡ true)
      × (fits_user user box.sip_username ≡ true)
match_one_sound source user box online none reg h = cc
match_one_sound source user box online (some r) reg h =
    (ground arith, ground arith, ground arith, ground arith)

match_boxes-Listed :
    (source user : Text) (items : List FxoBoxWithStatus) (box : FxoBox) (reg : Registration)
    → match_boxes source user items ≡ some (box, reg)
    → Listed source user items box reg
unfolding match_boxes
match_boxes-Listed source user [] box reg h = cc
match_boxes-Listed source user (item ∷ items) box reg h =
    elim (Option-cases (match_one source user item.box item.online item.registration)) [
      | inl passed ↦
          let (i, at, a, b, c, d, e) =
            match_boxes-Listed source user items box reg (rw (match_boxes, passed) at h) in
          (i, inr at, a, b, c, d, e)
      | inr (r, here) ↦
          let both = some-injective (item.box, r) (box, reg) (rw (match_boxes, here) at h) in
          let same = ap (λ (x : FxoBox × Registration). x.1) both in
          let (a, b, c, d) =
            match_one_sound source user item.box item.online item.registration r here in
          (
            item,
            inl refl,
            ap (λ (x : FxoBox × Registration). x.0) both,
            a,
            b ∙ ap some same,
            ap (λ (x : Registration). same_address source x.source_addr) (sym same) ∙ c,
            ap (λ (x : FxoBox × Registration). fits_user user x.0.sip_username) (sym both) ∙ d,
          )
    ]

verdict_box : FxoBox → InviteVerdict → FxoBox
verdict_box b (refused r) = b
verdict_box b (handed box c n) = box

handed-box : {a b : FxoBox} {c n c' n' : Text} → handed a c n ≡ handed b c' n' → a ≡ b
unfolding verdict_box
handed-box {a = a} h = ap (verdict_box a) h

hand_over_sound :
    (handler : Bool) (req : InviteRequest) (o : Option (FxoBox × Registration)) (box : FxoBox)
    (caller_id number : Text)
    → hand_over handler req o ≡ handed box caller_id number
    → (reg : Registration) × (o ≡ some (box, reg))
      × (same_address req.source reg.source_addr ≡ true)
      × (same_transport req.transport reg.transport ≡ true)
hand_over_sound handler req none box caller_id number h = cc
hand_over_sound false req (some (b, reg)) box caller_id number h = ground arith
hand_over_sound true req (some (b, reg)) box caller_id number h =
    elim (Bool-cases (same_address req.source reg.source_addr)) [
      | inr away ↦ cc (rw away at h)
      | inl near ↦ elim (Bool-cases (same_transport req.transport reg.transport)) [
        | inr other ↦ cc (rw (near, other) at h)
        | inl same ↦ (reg, ap (λ x. some (x, reg)) (handed-box (rw (near, same) at h)), near, same)
      ]
    ]

match_items_sound :
    (req : InviteRequest) (r : Result (List FxoBoxWithStatus)) (s : Service) (box : FxoBox)
    (reg : Registration)
    → (match_items req (r, s)).0 ≡ some (box, reg)
    → (items : List FxoBoxWithStatus) × (r ≡ ok items)
      × (match_boxes (trim_space req.source) (from_user req.caller.from) items ≡ some (box, reg))
match_items_sound req (err e) s box reg h = cc
match_items_sound req (ok items) s box reg h = (items, refl, h)

-- An INVITE is handed over only for a box that is listed as online, with a registration from the
-- source of the request over its transport, and whose name is the user of the From header, where it has one.
pub on_invite-registered :
    (read handler : Bool) (now : ℕ) (req : InviteRequest) (s : Service) (box : FxoBox)
    (caller_id number : Text)
    → (on_invite read handler now req s).0 ≡ handed box caller_id number
    → (items : List FxoBoxWithStatus) × (reg : Registration) × ((run_store
          (list_fxo_boxes_with_status now)
          s).0
        ≡ ok items)
      × Listed (trim_space req.source) (from_user req.caller.from) items box reg
      × (same_address req.source reg.source_addr ≡ true)
      × (same_transport req.transport reg.transport ≡ true)
unfolding on_invite match_invite_registration
on_invite-registered false handler now req s box caller_id number h = cc
on_invite-registered true handler now req s box caller_id number h =
    let (reg, matched, near, same) = hand_over_sound handler req _ box caller_id number h in
    let looked = run_store (list_fxo_boxes_with_status now) s in
    let (items, listed, hit) = match_items_sound req looked.0 looked.1 box reg matched in
    (items, reg, listed, match_boxes-Listed _ _ items box reg hit, near, same)
