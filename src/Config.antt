-- ===== src/Config.antt =====
-- internal/config/config.go: the settings, their defaults and what Load makes of a file. YAML is a
-- parameter, and so is what the operating system answers for the file. An int has 64 bits.
mod Laws
mod Tests
use callfxo.Prelude.{
  ℕ, ◌+◌, ◌-◌, ◌*◌, ◌%◌, ◌^◌, Bool, true, false, Option, none, some, List, [], ◌∷◌, ltb,
  if◌then◌else◌,
}
use callfxo.Prelude.Integers.{ℤ, pos, negsuc, is_positive}
use callfxo.Text.{Text, txt}

pub record SipConfig : Type 0 where
  pub transport : Text
  pub listen : Text
  pub realm : Text
  pub domain : Text
  pub advertised_ip : Text
  pub contact_user : Text
  pub nonce_ttl_hours : ℤ

pub record MediaConfig : Type 0 where
  pub rtp_bind_ip : Text
  pub public_ip : Text
  pub ice_stun_urls : List Text
  pub ice_turn_urls : List Text
  pub ice_turn_username : Text
  pub ice_turn_credential : Text
  pub ice_turn_shared_secret : Text
  pub ice_turn_credential_ttl_minutes : ℤ

pub record AuthConfig : Type 0 where
  pub cookie_name : Text
  pub session_secret : Text
  pub access_ttl_minutes : ℤ
  pub refresh_ttl_hours : ℤ
  pub legacy_session_ttl : ℤ

pub record FcmConfig : Type 0 where
  pub enabled : Bool
  pub project_id : Text
  pub web_app_id : Text
  pub web_api_key : Text
  pub android_app_id : Text
  pub android_api_key : Text
  pub messaging_sender_id : Text
  pub auth_domain : Text
  pub storage_bucket : Text
  pub measurement_id : Text
  pub vapid_key : Text
  pub service_account_json : Text

-- The structs of one field are inlined.
pub record Config : Type 0 where
  pub http_listen : Text
  pub sip : SipConfig
  pub media : MediaConfig
  pub database_path : Text
  pub auth : AuthConfig
  pub fcm : FcmConfig
  pub admin_username : Text
  pub admin_password : Text

unfoldable pub default : Config
default = record {
  http_listen = txt ":8080";
  sip = record {
    transport = txt "udp";
    listen = txt "0.0.0.0:5060";
    realm = txt "callfxo";
    domain = txt "callfxo.local";
    advertised_ip = txt "127.0.0.1";
    contact_user = txt "callfxo";
    nonce_ttl_hours = pos 1;
  };
  media = record {
    rtp_bind_ip = txt "0.0.0.0";
    public_ip = txt "127.0.0.1";
    ice_stun_urls = txt "stun:stun.l.google.com:19302" ∷ [];
    ice_turn_urls = [];
    ice_turn_username = [];
    ice_turn_credential = [];
    ice_turn_shared_secret = [];
    ice_turn_credential_ttl_minutes = pos 60;
  };
  database_path = txt "./callfxo.db";
  auth = record {
    cookie_name = txt "callfxo_access";
    session_secret = txt "change-me-very-long-random-string";
    access_ttl_minutes = pos 60;
    refresh_ttl_hours = pos 720;
    legacy_session_ttl = pos 24;
  };
  fcm = record {
    enabled = false;
    project_id = [];
    web_app_id = [];
    web_api_key = [];
    android_app_id = [];
    android_api_key = [];
    messaging_sender_id = [];
    auth_domain = [];
    storage_bucket = [];
    measurement_id = [];
    vapid_key = [];
    service_account_json = [];
  };
  admin_username = txt "admin";
  admin_password = txt "admin123";
}

-- A product of two non-negative ints as the int that it wraps around to.
unfoldable pub wrap_int : ℕ → ℤ
wrap_int n =
    let bits = n % 2 ^ 64 in if ltb bits (2 ^ 63) then pos bits else negsuc (2 ^ 64 - bits - 1)

-- `legacy * 60` of a positive `legacy`.
abbrev pub minutes_of_hours : ℤ → ℤ
minutes_of_hours (pos n) = wrap_int (n * 60)
minutes_of_hours (negsuc n) = negsuc n

abbrev pub positive_or : ℤ → ℤ → ℤ
positive_or n fallback = if is_positive n then n else fallback

abbrev pub normalize_auth : AuthConfig → AuthConfig
normalize_auth a = record a {
  access_ttl_minutes =
      positive_or a.access_ttl_minutes (
        if is_positive a.legacy_session_ttl then minutes_of_hours a.legacy_session_ttl else pos 60);
  refresh_ttl_hours = positive_or a.refresh_ttl_hours (pos 720);
}

-- What Load does to the settings that it parsed; 60, 720 and 60 are those of Default.
unfoldable pub normalize : Config → Config
unfolding wrap_int
normalize c = record c {
  auth = normalize_auth c.auth;
  media = record (c.media) {
    ice_turn_credential_ttl_minutes = positive_or c.media.ice_turn_credential_ttl_minutes (pos 60);
  };
}

-- yaml.Unmarshal into settings that are there, and yaml.Marshal; `none` is an error.
pub record Yaml : Type 0 where
  pub unmarshal : Text → Config → Option Config
  pub marshal : Config → Option Text

-- The file at the path: what it holds, and whether a stat, a read or a write fails for another reason
-- than its absence.
pub record Disk : Type 0 where
  pub file : Option Text
  pub stat_fails : Bool
  pub read_fails : Bool
  pub write_fails : Bool

abbrev pub load_parsed : Option Config → Option Config
load_parsed none = none
load_parsed (some c) = some (normalize c)

abbrev pub load_text : Yaml → Option Text → Option Config
load_text yaml none = none
load_text yaml (some b) = load_parsed (yaml.unmarshal b default)

unfoldable pub load : Yaml → Disk → Option Config
unfolding normalize default
load yaml disk = if disk.read_fails then none else load_text yaml disk.file

-- os.WriteFile
abbrev pub write_file : Text → Disk → Bool × Disk
write_file b disk =
    if disk.write_fails then (false, disk) else (true, record disk { file = some b })

abbrev pub save_text : Option Text → Disk → Bool × Disk
save_text none disk = (false, disk)
save_text (some b) disk = write_file b disk

unfoldable pub save : Yaml → Config → Disk → Bool × Disk
save yaml cfg disk = save_text (yaml.marshal cfg) disk

abbrev pub saved : Config → Bool × Disk → Option Config × Disk
saved cfg (true, disk) = (some cfg, disk)
saved cfg (false, disk) = (none, disk)

abbrev pub ensure_file : Yaml → Option Text → Disk → Option Config × Disk
ensure_file yaml (some b) disk = (load yaml disk, disk)
ensure_file yaml none disk = saved default (save yaml default disk)

unfoldable pub ensure : Yaml → Disk → Option Config × Disk
unfolding load save default
ensure yaml disk = if disk.stat_fails then (none, disk) else ensure_file yaml disk.file disk
