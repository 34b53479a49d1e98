-- ===== src/Startup/Tests.antt =====
-- Runs of the preparations with a new database.
use callfxo.Prelude.{ℕ, Bool, true, false, Option, none, some, [], ◌≡◌, refl, subst}
use mathlib.Core.Option.{some-injective}
use callfxo.Text.{Text, txt, trim_space}
use callfxo.Prelude.{is_nil}
use callfxo.Store.Schema.{Store, empty}
use callfxo.Startup.{Start, ready, ensure_session_secret, bootstrap_admin}
use callfxo.Startup.Accounts.{HasAdmin}
use callfxo.Startup.Admin.{bootstrap_admin-HasAdmin}
use callfxo.Startup.Secret.{ensure_session_secret_twice}

abbrev fresh : Store
fresh = record { tables = empty; faults = [] }

-- The password is taken for its hash.
abbrev started : Start (Text × Bool) × Store
started =
    bootstrap_admin (λ p. some p) (some (txt "r")) (txt " root ") (txt "admin123") false 100 fresh

bootstrap_admin-HasAdmin_example : HasAdmin started.1
unfolding bootstrap_admin callfxo.Store.Users.get_user_credential_by_username
    callfxo.Prelude.Rows.first callfxo.Store.Users.count_admins callfxo.Prelude.Rows.count_where
    callfxo.Text.is_space callfxo.Store.Users.create_user callfxo.Prelude.Rows.exists
bootstrap_admin-HasAdmin_example =
    bootstrap_admin-HasAdmin {p = (txt "admin123", false)} {s' = started.1} (λ p. some p)
      (some (txt "r")) (txt " root ") (txt "admin123") false 100 fresh refl

abbrev drawn : Text
drawn = txt "s3cret"

abbrev first_start : Start (Text × Bool) × Store
first_start = ensure_session_secret (some drawn) 100 fresh

ensure_session_secret_twice_example :
    ensure_session_secret (some (txt "other")) 200 first_start.1
    ≡ (ready (drawn, false), first_start.1)
unfolding trim_space callfxo.Text.is_space ensure_session_secret callfxo.Store.Settings.get_setting
    callfxo.Prelude.Rows.first callfxo.Store.Settings.upsert_setting
ensure_session_secret_twice_example =
    ensure_session_secret_twice {v = drawn} {g = true} {s' = first_start.1} (some drawn)
      (some (txt "other")) 100 200 fresh
      (λ t e.
        subst (λ (x : Text). (trim_space x ≡ x) × (is_nil x ≡ false)) (some-injective drawn t e)
          (refl, refl))
      refl refl
