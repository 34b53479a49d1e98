-- ===== src/Web/Values.antt =====
-- internal/web/server.go, lines 1319 to 1405: client types, lifetimes, and the configuration of WebRTC with
-- the credentials for a TURN server.
pub mod Turn
use callfxo.Prelude.{
  ℕ, suc, ◌+◌, ◌-◌, ◌*◌, ◌/◌, ◌%◌, ◌^◌, Bool, ◌&&◌, List, [], ◌∷◌, ◌++◌, map, ltb, is_nil,
  if◌then◌else◌,
}
use callfxo.Prelude.Integers.{ℤ, pos, negsuc}
use callfxo.Prelude.Equality.{◌==◌, list_eq, nat_eq}
use callfxo.Text.{Text, txt, trim_space, to_lower}
use callfxo.Text.Decimal.{format_int}
use callfxo.Config.{MediaConfig}
use callfxo.Web.Http.{Site, WebRtcIceServer}

unfoldable pub hash_token : Site → Text → Text
unfolding trim_space
hash_token site v = site.sha256_hex (trim_space v)

unfoldable pub normalize_device_token : Text → Text
unfolding trim_space
normalize_device_token v = trim_space v

unfoldable pub normalize_client_type : Text → Text
unfolding to_lower trim_space
normalize_client_type v =
    if to_lower (trim_space v) == txt "android" then txt "android" else txt "web"

-- `time.Duration(n) * unit`, as the bits of an int64.
abbrev pub duration : ℤ → ℕ → ℕ
duration (pos n) unit = n * unit % 2 ^ 64
duration (negsuc n) unit = (2 ^ 64 - suc n * unit % 2 ^ 64) % 2 ^ 64

-- `now.Add(d)` for the bits of a duration, in whole seconds. A time before 1970 stands at 0.
abbrev pub add_duration : ℕ → ℕ → ℕ
add_duration now d =
    if ltb d (2 ^ 63) then now + d / 10 ^ 9 else now - (2 ^ 64 - d + (10 ^ 9 - 1)) / 10 ^ 9

abbrev pub hour : ℕ
hour = 3600 * 10 ^ 9

abbrev pub minute : ℕ
minute = 60 * 10 ^ 9

unfoldable pub refresh_deadline : ℕ → ℤ → ℕ
refresh_deadline now hours = add_duration now (duration hours hour)

-- `d <= 0`
abbrev pub is_lasting : ℕ → Bool
is_lasting d = ltb 0 d && ltb d (2 ^ 63)

unfoldable pub turn_deadline : ℕ → ℤ → ℕ
turn_deadline now minutes =
    let ttl = duration minutes minute in
    add_duration now (if is_lasting ttl then ttl else 60 * minute)

unfoldable pub trim_non_blank_list : List Text → List Text
unfolding trim_space
trim_non_blank_list [] = []
trim_non_blank_list (raw ∷ items) =
    let rest = trim_non_blank_list items in
    if is_nil (trim_space raw) then rest else trim_space raw ∷ rest

abbrev pub colon_to_underscore : ℕ → ℕ
colon_to_underscore c = if c == b':' then b'_' else c

unfoldable pub normalize_turn_subject : Text → Text
unfolding trim_space
normalize_turn_subject raw =
    let subject = trim_space raw in
    if is_nil subject then txt "anonymous" else map colon_to_underscore subject

-- The user name holds the time at which the credentials expire.
unfoldable pub build_turn_credentials : Site → Text → Text → ℕ → Text × Text
build_turn_credentials site secret subject expires =
    let username = format_int (pos expires) ++ b':' ∷ subject in
    (username, site.hmac_sha1_base64 secret username)

unfoldable pub turn_credentials : Site → Text → ℕ → Text × Text
unfolding build_turn_credentials normalize_turn_subject turn_deadline trim_space
turn_credentials site subject now =
    let media : MediaConfig = site.cfg.media in
    let shared_secret = trim_space media.ice_turn_shared_secret in
    if is_nil shared_secret
    then (trim_space media.ice_turn_username, trim_space media.ice_turn_credential)
    else build_turn_credentials site shared_secret (normalize_turn_subject subject)
        (turn_deadline now media.ice_turn_credential_ttl_minutes)

abbrev pub stun_servers : List Text → List WebRtcIceServer
stun_servers [] = []
stun_servers (url ∷ urls) = record { urls = url ∷ urls; username = []; credential = [] } ∷ []

abbrev pub turn_servers : Text × Text → List Text → List WebRtcIceServer
turn_servers (username, credential) [] = []
turn_servers (username, credential) (url ∷ urls) =
    record { urls = url ∷ urls; username = username; credential = credential } ∷ []

unfoldable pub public_webrtc_config : Site → Text → ℕ → List WebRtcIceServer
unfolding trim_non_blank_list turn_credentials
public_webrtc_config site subject now =
    stun_servers (trim_non_blank_list site.cfg.media.ice_stun_urls)
    ++ turn_servers (turn_credentials site subject now)
        (trim_non_blank_list site.cfg.media.ice_turn_urls)
