-- ===== src/Call/Sdp.antt =====
-- internal/call/manager.go, lines 820 to 919: what is read out of a session description. The parser of
-- the text is the library's: its result is an argument, `none` where it fails. So is the resolver of
-- addresses.
mod Formats
pub mod Payload
use callfxo.Prelude.{
  ℕ, ◌<◌, Bool, true, false, ◌&&◌, not, Option, none, some, List, [], ◌∷◌, ltb, leb, is_nil,
  if◌then◌else◌,
}
use callfxo.Prelude.Integers.{ℤ, pos, negsuc}
use callfxo.Prelude.Equality.{◌==◌, nat_eq, list_eq}
use callfxo.Text.{Text, txt, trim_space, equal_fold, is_blank}
use callfxo.Text.Parse.{atoi, fields, before, to_upper}

-- What the program reads of psdp.MediaDescription.
pub record MediaDescription : Type 0 where
  pub media : Text
  pub connection : Option Text
  pub port : ℕ
  pub formats : List Text
  pub attributes : List (Text × Text)

pub record SessionDescription : Type 0 where
  pub connection : Option Text
  pub media_descriptions : List MediaDescription

-- A number that fits a uint8, as both loops accept it.
unfoldable pub payload_number : Text → Option ℕ
unfolding atoi
payload_number s = elim (atoi s) [
  | none ↦ none
  | some (pos n) ↦ if ltb 255 n then none else some n
  | some (negsuc n) ↦ none
]

abbrev pub is_zero_payload : Option ℕ → Bool
is_zero_payload none = false
is_zero_payload (some n) = n == 0

abbrev pub note_payload : Option ℕ → List ℕ → List ℕ
note_payload none seen = seen
note_payload (some n) seen = n ∷ seen

-- The set of the formats; `none` where the loop returns at the static payload 0.
unfoldable pub format_set : List Text → List ℕ → Option (List ℕ)
unfolding payload_number trim_space
format_set [] seen = some seen
format_set (f ∷ fs) seen =
    let n = payload_number (trim_space f) in
    let rest = format_set fs (note_payload n seen) in if is_zero_payload n then none else rest

unfoldable pub in_set : ℕ → List ℕ → Bool
in_set n [] = false
in_set n (m ∷ ms) = if m == n then true else in_set n ms

-- The payload of `<number> PCMU/…` among the fields of an rtpmap.
abbrev pub pcmu_fields : List Text → Option ℕ
pcmu_fields [] = none
pcmu_fields (number ∷ []) = none
pcmu_fields (number ∷ codec ∷ rest) =
    if to_upper (before b'/' codec) == txt "PCMU" then payload_number number else none

-- The payload that an attribute maps to PCMU.
unfoldable pub rtpmap_payload : Text × Text → Option ℕ
unfolding payload_number fields before to_upper equal_fold is_blank
rtpmap_payload (key, value) =
    if equal_fold key (txt "rtpmap") && not (is_blank value)
    then pcmu_fields (fields value)
    else none

unfoldable pub mapped_payload : List ℕ → List (Text × Text) → Option ℕ
unfolding rtpmap_payload in_set
mapped_payload formats [] = none
mapped_payload formats (a ∷ rest) =
    let next = mapped_payload formats rest in
    elim (rtpmap_payload a) [ none ↦ next | some n ↦ if in_set n formats then some n else next ]

unfoldable pub find_pcmu_payload : MediaDescription → Option ℕ
unfolding format_set mapped_payload
find_pcmu_payload md = elim (format_set md.formats []) [
  | none ↦ some 0
  | some formats ↦ mapped_payload formats md.attributes
]

-- The text before the first `/`, unless that is the first character.
unfoldable pub sanitize_sdp_address : Text → Text
unfolding trim_space before
sanitize_sdp_address addr =
    let a = trim_space addr in if is_nil (before b'/' a) then a else before b'/' a

pub data SdpError : Type 0 where
  unmarshal not_pcmu resolve no_target : SdpError

pub data Target {ℓ} (A : Type ℓ) : Type ℓ where
  found : A → Target A
  failed : SdpError → Target A

abbrev pub connection_host : Option Text → Text → Text
connection_host none host = host
connection_host (some address) host = sanitize_sdp_address address

module _ {Address : Type 0} (resolve_udp_addr : Text → ℕ → Option Address) where
  -- The answer of the first media section that is taken.
  abbrev pub audio_answer : Text → ℕ → Option ℕ → Target (Address × ℕ)
  audio_answer host port none = failed not_pcmu
  audio_answer host port (some pt) = elim (resolve_udp_addr host port) [
    | none ↦ failed resolve
    | some addr ↦ found (addr, pt)
  ]

  unfoldable pub audio_target : Text → List MediaDescription → Target (Address × ℕ)
  unfolding find_pcmu_payload sanitize_sdp_address
  audio_target host [] = failed no_target
  audio_target host (md ∷ rest) =
      let here = connection_host md.connection host in
      let skipped = audio_target host rest in
      let unusable = audio_target here rest in
      if md.media == txt "audio"
      then (if is_nil here
          then unusable
          else if md.port == 0
          then unusable
          else audio_answer here md.port (find_pcmu_payload md))
      else skipped

  unfoldable pub parse_sip_audio_target : Option SessionDescription → Target (Address × ℕ)
  unfolding audio_target sanitize_sdp_address
  parse_sip_audio_target none = failed unmarshal
  parse_sip_audio_target (some s) =
      audio_target (connection_host s.connection []) s.media_descriptions

-- The loop over the media sections of the browser's answer.
unfoldable pub audio_payload : List MediaDescription → Option ℕ
unfolding find_pcmu_payload
audio_payload [] = none
audio_payload (md ∷ rest) =
    let next = audio_payload rest in
    if md.media == txt "audio"
    then elim (find_pcmu_payload md) [ none ↦ next | some pt ↦ some pt ]
    else next

unfoldable pub parse_webrtc_audio_pcmu_payload : Option SessionDescription → Option ℕ
unfolding audio_payload
parse_webrtc_audio_pcmu_payload none = none
parse_webrtc_audio_pcmu_payload (some s) = audio_payload s.media_descriptions
