-- ===== src/Sip/Register.antt =====
-- internal/sipx/service.go, lines 230 to 313: a box registers where it can be reached.
pub mod Authenticated
use callfxo.Prelude.{
  ℕ, Bool, true, false, not, Option, none, some, List, [], ◌∷◌, is_nil, if◌then◌else◌,
}
use callfxo.Prelude.Integers.{ℤ, is_positive, to_nat}
use callfxo.Prelude.Equality.{◌==◌, nat_eq, list_eq}
use callfxo.Text.{Text, txt, trim_space}
use callfxo.Store.Schema.{FxoBox, Registration, Error, not_found, Result, ok, err, Action}
use callfxo.Store.Boxes.{get_fxo_box_by_sip_username}
use callfxo.Store.Registrations.{delete_registration, upsert_registration}
use callfxo.Sip.Tokens.{Credentials, verify_digest_response, parse_register_expires, expiry}
use callfxo.Sip.Nonces.{Service, Response, respond, validate_nonce, reply_auth_challenge}

pub record ContactHeader : Type 0 where
  pub address : Text
  pub wildcard : Bool
  pub expires : Option Text

-- sip.Request, as far as REGISTER reads it; `none` is a header that is not there.
pub record RegisterRequest : Type 0 where
  pub method : Text
  pub source : Text
  pub transport : Text
  pub authorization : Option Text
  pub to_user : Option Text
  pub contact : Option ContactHeader
  pub expires : Option Text
  pub call_id : Option Text
  pub user_agent : Option Text

-- digest.ParseCredentials and MD5 are the libraries'; the time and the tokens come from outside.
pub record RegisterWorld : Type 0 where
  pub parse_credentials : Text → Option Credentials
  pub md5_hex : Text → Text
  pub now : ℕ
  pub nonce : Text
  pub opaque : Text

abbrev pub or_empty : Option Text → Text
or_empty none = []
or_empty (some s) = s

abbrev pub contact_expires : Option ContactHeader → Option Text
contact_expires none = none
contact_expires (some c) = c.expires

-- A name of white space is replaced by the user of the To header, if there is one.
abbrev pub name_credentials : Option Text → Credentials → Credentials
name_credentials none cred = cred
name_credentials (some user) cred =
    if is_nil (trim_space cred.username) then record cred { username = user } else cred

unfoldable pub run_store : {A : Type 0} → Action A → Service → Result A × Service
run_store action s = let (r, store') = action s.store in (r, record s { store = store' })

abbrev pub new_registration : RegisterRequest → RegisterWorld → FxoBox → Text → ℕ → Registration
new_registration req w box contact expires = record {
  fxo_box_id = box.id;
  contact_uri = contact;
  source_addr = req.source;
  transport = req.transport;
  call_id = or_empty req.call_id;
  user_agent = or_empty req.user_agent;
  expires_at = expiry w.now expires;
  updated_at = w.now;
}

abbrev pub answer_store : Result (Unit {0}) × Service → Response × Service
answer_store (ok u, s) = (respond 200 (txt "OK"), s)
answer_store (err e, s) = (respond 500 (txt "Server error"), s)

-- From where the digest is verified.
unfoldable pub register_box :
    RegisterRequest → RegisterWorld → FxoBox → Service → Response × Service
unfolding run_store parse_register_expires expiry
register_box req w box s =
    let expires = parse_register_expires (contact_expires req.contact) req.expires in
    if is_positive expires
    then elim req.contact [
      | none ↦ (respond 400 (txt "Missing contact"), s)
      | some c ↦
          if c.wildcard
          then (respond 400 (txt "Missing contact"), s)
          else answer_store (
              run_store
                (upsert_registration (new_registration req w box c.address (to_nat expires))) s)
    ]
    else (respond 200 (txt "OK"), (run_store (delete_registration box.id) s).1)

-- The answer to an account that was not found.
abbrev pub lookup_failed : Error → Response
lookup_failed not_found = respond 403 (txt "Unknown FXO account")
lookup_failed e = respond 500 (txt "Server error")

-- From the result of the lookup of the account.
abbrev pub register_account :
    RegisterRequest → RegisterWorld → Credentials → Result FxoBox × Service → Response × Service
register_account req w cred (err e, s) = (lookup_failed e, s)
register_account req w cred (ok box, s) =
    if verify_digest_response w.md5_hex (some cred) box.sip_password req.method
    then register_box req w box s
    else reply_auth_challenge w.now w.nonce w.opaque s

-- From where there are credentials.
unfoldable pub register_credentials :
    RegisterRequest → RegisterWorld → Credentials → Service → Response × Service
unfolding validate_nonce reply_auth_challenge run_store register_box verify_digest_response
register_credentials req w cred s =
    if is_nil cred.username
    then (respond 403 (txt "Missing username"), s)
    else (let (valid, s') = validate_nonce w.now cred.nonce s in
        if valid
        then register_account req w cred (run_store (get_fxo_box_by_sip_username cred.username) s')
        else reply_auth_challenge w.now w.nonce w.opaque s')

unfoldable pub parse_authorization : (Text → Option Credentials) → Option Text → Option Credentials
parse_authorization parse none = none
parse_authorization parse (some header) = parse header

unfoldable pub on_register : RegisterRequest → RegisterWorld → Service → Response × Service
unfolding reply_auth_challenge register_credentials parse_authorization
on_register req w s = elim (parse_authorization w.parse_credentials req.authorization) [
  | none ↦ reply_auth_challenge w.now w.nonce w.opaque s
  | some cred ↦ register_credentials req w (name_credentials req.to_user cred) s
]
