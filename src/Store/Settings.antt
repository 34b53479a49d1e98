-- ===== src/Store/Settings.antt =====
-- internal/store/store.go, lines 504 to 528: app_settings.
use callfxo.Prelude.{ℕ, [], ◌∷◌, ◌++◌, if◌then◌else◌}
use callfxo.Prelude.Equality.{◌==◌, list_eq, nat_eq}
use callfxo.Prelude.Rows.{update_where, first, exists}
use callfxo.Text.{Text}
use callfxo.Store.Schema.{Setting, Tables, ok, Action, ◌>>=◌, pure, statement, read, found}

unfoldable pub get_setting : Text → Action Text
unfolding read
get_setting key = do
  row ← read (λ t. found (first (λ (r : Setting). r.key == key) t.settings))
  pure row.value

unfoldable pub put_setting : Setting → Tables → Tables
put_setting new t =
    if exists (λ (r : Setting). r.key == new.key) t.settings
    then record t {
      settings = update_where (λ (r : Setting). r.key == new.key) (λ r. new) t.settings;
    }
    else record t { settings = t.settings ++ new ∷ [] }

unfoldable pub upsert_setting : Text → Text → ℕ → Action (Unit {0})
unfolding statement put_setting
upsert_setting key value now =
    statement (λ t. (ok tt, put_setting (record { key = key; value = value; updated_at = now }) t))
