-- ===== src/Sip/Tokens.antt =====
-- internal/sipx/service.go, lines 469 to 530 and 556 to 589: digest responses, expiries, addresses and
-- DTMF digits.
pub mod Expiry
pub mod NonceCount
use callfxo.Prelude.{
  ℕ, zero, suc, ◌+◌, ◌-◌, ◌*◌, ◌/◌, ◌%◌, ◌^◌, Bool, true, false, ◌&&◌, ◌||◌, not, Option, none,
  some, List, [], ◌∷◌, ◌++◌, length, ltb, leb, is_nil, if◌then◌else◌,
}
use callfxo.Prelude.Integers.{ℤ, pos, negsuc}
use callfxo.Prelude.Equality.{◌==◌, nat_eq, list_eq}
use callfxo.Text.{Text, txt, trim_space, equal_fold}
use callfxo.Text.Parse.{atoi}

-- digest.Credentials
pub record Credentials : Type 0 where
  pub username : Text
  pub realm : Text
  pub nonce : Text
  pub uri : Text
  pub response : Text
  pub cnonce : Text
  pub qop : Text
  pub nc : ℤ

abbrev pub hex_digit : ℕ → ℕ
hex_digit d = if ltb d 10 then b'0' + d else b'a' + (d - 10)

-- The hexadecimal digits of a number in front of a text; 16 digits hold 64 bits.
unfoldable pub hex : ℕ → ℕ → Text → Text
hex zero n acc = acc
hex (suc fuel) n acc =
    let rest = hex fuel (n / 16) (hex_digit (n % 16) ∷ acc) in
    if ltb n 16 then hex_digit n ∷ acc else rest

-- Zeros in front, up to a width.
unfoldable pub zeros : ℕ → Text → Text
zeros zero s = s
zeros (suc n) s = b'0' ∷ zeros n s

abbrev pub pad : ℕ → Text → Text
pad width s = zeros (width - length s) s

-- fmt.Sprintf("%08x", n)
unfoldable pub format_nc : ℤ → Text
unfolding hex zeros
format_nc (pos n) = pad 8 (hex 16 n [])
format_nc (negsuc n) = b'-' ∷ pad 7 (hex 16 (suc n) [])

abbrev pub colon : Text → Text → Text
colon a b = a ++ b':' ∷ b

-- The text whose MD5 is the expected response.
unfoldable pub digest_text : (Text → Text) → Credentials → Text → Text → Text
unfolding format_nc
digest_text md5_hex cred password method =
    let ha1 = md5_hex (colon cred.username (colon cred.realm password)) in
    let ha2 = md5_hex (colon method cred.uri) in
    if is_nil cred.qop
    then colon ha1 (colon cred.nonce ha2)
    else colon ha1
        (colon cred.nonce (colon (format_nc cred.nc) (colon cred.cnonce (colon cred.qop ha2))))

-- `none` is the nil pointer.
unfoldable pub verify_digest_response : (Text → Text) → Option Credentials → Text → Text → Bool
unfolding digest_text equal_fold
verify_digest_response md5_hex none password method = false
verify_digest_response md5_hex (some cred) password method =
    equal_fold (md5_hex (digest_text md5_hex cred password method)) cred.response

-- The first of the two values that is there and is a number.
abbrev pub expires_of : Option Text → Option ℤ
expires_of none = none
expires_of (some raw) = atoi (trim_space raw)

-- From the `expires` parameter of the contact and the Expires header.
unfoldable pub parse_register_expires : Option Text → Option Text → ℤ
unfolding trim_space atoi
parse_register_expires parameter header = elim (expires_of parameter) [
  | some n ↦ n
  | none ↦ elim (expires_of header) [ some n ↦ n | none ↦ pos 3600 ]
]

-- `now.Add(time.Duration(expires) * time.Second)`, where the product wraps around at 64 bits and is read
-- as a signed number of nanoseconds. A time before 1970 stands at 0.
unfoldable pub expiry : ℕ → ℕ → ℕ
expiry now expires =
    let product = expires * 10 ^ 9 % 2 ^ 64 in
    if ltb product (2 ^ 63)
    then now + product / 10 ^ 9
    else now - (2 ^ 64 - product + (10 ^ 9 - 1)) / 10 ^ 9

unfoldable pub same_address : Text → Text → Bool
unfolding equal_fold trim_space
same_address a b = equal_fold (trim_space a) (trim_space b)

unfoldable pub is_dtmf_digit : ℕ → Bool
is_dtmf_digit r =
    leb b'0' r && leb r b'9'
    || r == b'*'
    || r == b'#'
    || r == b'A'
    || r == b'B'
    || r == b'C'
    || r == b'D'

-- What becomes of an INFO request: an error, or a status.
pub data SendOutcome : Type 0 where
  send_error : SendOutcome
  status : ℕ → SendOutcome

pub data DtmfError : Type 0 where
  invalid_digit : ℕ → DtmfError
  send_failed : DtmfError
  dtmf_rejected : ℕ → DtmfError

abbrev pub refusal : SendOutcome → Option DtmfError
refusal send_error = some send_failed
refusal (status code) = if leb 300 code then some (dtmf_rejected code) else none

-- The digits that were sent, in order, and the error. `send` answers the request of a position.
unfoldable pub send_dialog_dtmf : (ℕ → ℕ → SendOutcome) → ℕ → Text → Option DtmfError × List ℕ
unfolding is_dtmf_digit
send_dialog_dtmf send n [] = (none, [])
send_dialog_dtmf send n (r ∷ digits) =
    let (e, sent) = send_dialog_dtmf send (suc n) digits in
    if is_dtmf_digit r
    then elim (refusal (send n r)) [ some why ↦ (some why, r ∷ []) | none ↦ (e, r ∷ sent) ]
    else (some (invalid_digit r), [])
