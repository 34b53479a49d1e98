-- ===== src/Config/Tests.antt =====
-- Runs of Load and Ensure with a YAML that knows little.
use callfxo.Prelude.{◌*◌, ◌^◌, ◌<◌, true, false, none, some, ◌≡◌, refl, arith, subst}
use mathlib.Core.Option.{some-injective}
use callfxo.Prelude.Integers.{pos, is_positive, to_nat}
use callfxo.Text.{txt}
use callfxo.Config.{Config, default, normalize, Yaml, Disk, load, ensure}
use callfxo.Config.Laws.{load-positive, ensure_twice}

-- The file sets a lifetime to 0 and changes nothing else.
abbrev zero_access : Config
zero_access = record default { auth = record (default.auth) { access_ttl_minutes = pos 0 } }

abbrev zero_yaml : Yaml
zero_yaml = record { unmarshal = λ b c. some zero_access; marshal = λ c. some (txt "auth:") }

abbrev there : Disk
there = record {
  file = some (txt "auth:");
  stat_fails = false;
  read_fails = false;
  write_fails = false;
}

load-positive_example :
    (is_positive (normalize zero_access).auth.access_ttl_minutes ≡ true)
    × (is_positive (normalize zero_access).auth.refresh_ttl_hours ≡ true)
    × (is_positive (normalize zero_access).media.ice_turn_credential_ttl_minutes ≡ true)
unfolding load default
load-positive_example =
    load-positive zero_yaml there {cfg = normalize zero_access} refl λ b raw e k.
      subst (λ (c : Config). to_nat c.auth.legacy_session_ttl * 60 < 2 ^ 63)
        (some-injective zero_access raw k) (omega arith)

abbrev plain_yaml : Yaml
plain_yaml = record { unmarshal = λ b c. some c; marshal = λ c. some (txt "http:") }

abbrev missing : Disk
missing = record { file = none; stat_fails = false; read_fails = false; write_fails = false }

abbrev made : Disk
made = record missing { file = some (txt "http:") }

ensure_twice_example : ensure plain_yaml made ≡ (some default, made)
unfolding ensure
ensure_twice_example = ensure_twice plain_yaml (λ b e. refl) missing refl refl
