-- ===== src/Sip/Invite.antt =====
-- internal/sipx/service.go, lines 315 to 384 and 442 to 467: a box is told by where it has registered.
pub mod Source
use callfxo.Prelude.{
  ℕ, Bool, true, false, not, ◌||◌, ◌&&◌, Option, none, some, List, [], ◌∷◌, is_nil, if◌then◌else◌,
}
use callfxo.Prelude.Equality.{◌==◌, nat_eq, list_eq}
use callfxo.Text.{Text, txt, trim_space, equal_fold}
use callfxo.Store.Schema.{FxoBox, Registration, Result, ok, err}
use callfxo.Store.Boxes.{FxoBoxWithStatus, list_fxo_boxes_with_status}
use callfxo.Sip.Tokens.{same_address}
use callfxo.Sip.Identity.{FromHeader, CallerHeaders, extract_caller_id}
use callfxo.Sip.Nonces.{Service, Response, respond}
use callfxo.Sip.Register.{run_store}

pub record InviteRequest : Type 0 where
  pub source : Text
  pub transport : Text
  pub caller : CallerHeaders

unfoldable pub from_user : Option FromHeader → Text
unfolding trim_space
from_user none = []
from_user (some from) = trim_space from.user

-- An empty user of the From header fits every box.
unfoldable pub fits_user : Text → Text → Bool
unfolding equal_fold trim_space
fits_user user sip_username = is_nil user || equal_fold user (trim_space sip_username)

abbrev pub match_one : Text → Text → FxoBox → Bool → Option Registration → Option Registration
match_one source user box online none = none
match_one source user box online (some reg) =
    if online && same_address source reg.source_addr && fits_user user box.sip_username
    then some reg
    else none

-- The loop over the boxes.
unfoldable pub match_boxes : Text → Text → List FxoBoxWithStatus → Option (FxoBox × Registration)
unfolding same_address fits_user
match_boxes source user [] = none
match_boxes source user (item ∷ items) =
    let rest = match_boxes source user items in
    elim (match_one source user item.box item.online item.registration) [
      | none ↦ rest
      | some reg ↦ some (item.box, reg)
    ]

abbrev pub match_items :
    InviteRequest
    → Result (List FxoBoxWithStatus) × Service
    → Option (FxoBox × Registration) × Service
match_items req (err e, s) = (none, s)
match_items req (ok items, s) =
    (match_boxes (trim_space req.source) (from_user req.caller.from) items, s)

-- `none` is either of its errors.
unfoldable pub match_invite_registration :
    ℕ → InviteRequest → Service → Option (FxoBox × Registration) × Service
unfolding run_store match_boxes from_user trim_space
match_invite_registration now req s = match_items req (run_store (list_fxo_boxes_with_status now) s)

-- What becomes of an INVITE: a refusal, with the dialog closed if there is one, or the handler is given
-- the box, the caller and the number.
pub data InviteVerdict : Type 0 where
  refused : Response → InviteVerdict
  handed : FxoBox → Text → Text → InviteVerdict

abbrev pub same_transport : Text → Text → Bool
same_transport a b = equal_fold (trim_space a) (trim_space b)

abbrev pub hand_over : Bool → InviteRequest → Option (FxoBox × Registration) → InviteVerdict
hand_over handler req none = refused (respond 403 (txt "Registration mismatch"))
hand_over handler req (some (box, reg)) =
    if same_address req.source reg.source_addr && same_transport req.transport reg.transport
    then (if handler
        then (let (caller_id, number) = extract_caller_id req.caller in handed box caller_id number)
        else refused (respond 480 (txt "No handler")))
    else refused (respond 403 (txt "Source address mismatch"))

-- `read` says whether the library reads a dialog from the request, `handler` whether there is one.
unfoldable pub on_invite : Bool → Bool → ℕ → InviteRequest → Service → InviteVerdict × Service
unfolding match_invite_registration same_address extract_caller_id equal_fold trim_space
on_invite read handler now req s =
    if read
    then (let (matched, s') = match_invite_registration now req s in
        (hand_over handler req matched, s'))
    else (refused (respond 481 (txt "Dialog error")), s)

-- The end of onBye: which of the two caches of dialogs reads the request, and whether the identifier of
-- the call, if it is not blank, is given to the handler.
pub data ByeVerdict : Type 0 where
  dialog_not_found ignored : ByeVerdict
  notified : Text → ByeVerdict

unfoldable pub on_bye : Bool → Bool → Bool → Text → ByeVerdict
unfolding trim_space
on_bye server_reads client_reads handler call_id =
    if server_reads || client_reads
    then (if is_nil (trim_space call_id) || not handler then ignored else notified call_id)
    else dialog_not_found
