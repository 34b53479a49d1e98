-- ===== src/Store/Devices/Upsert.antt =====
-- UpsertUserDevice against the lookup by token.
use callfxo.Prelude.{ℕ, Option, some, ◌≡◌, refl, ap, sym, ◌∙◌, Bool-cases, inl, inr, if◌then◌else◌}
use callfxo.Prelude.Equality.{◌==◌, int_eq, nat_eq, list_eq}
use callfxo.Prelude.Rows.{first-upsert, overwrite}
use callfxo.Text.{Text, trim_space}
use callfxo.Store.Schema.{UserDevice, Tables, Store, Result, ok, has_user}
use callfxo.Store.Statements.{statement-eq-ok}
use callfxo.Store.Devices.{
  device_row, merge_device, put_device, upsert_user_device, device_by_token,
}

-- After a successful UpsertUserDevice the device of the trimmed token is the one that was written,
-- merged with the row that stood, and every other token finds what it found.
pub upsert_user_device-device_by_token :
    (dev : UserDevice) (created : Option ℕ) (now : ℕ) (s : Store) {s' : Store}
    → upsert_user_device dev created now s ≡ (ok tt, s')
    → (token : Text)
    → device_by_token token s'.tables ≡ (
        if trim_space dev.device_token == trim_space token
        then some (
            overwrite
              (device_row dev created now)
              (merge_device (device_row dev created now))
              (device_by_token dev.device_token s.tables))
        else device_by_token token s.tables)
unfolding upsert_user_device put_device device_by_token device_row
upsert_user_device-device_by_token dev created now s h token =
    let new = device_row dev created now in
    let e = statement-eq-ok (put_device new) s h in
    elim (Bool-cases (has_user dev.user_id s.tables)) [
      | inl there ↦
          ap (λ (p : Result (Unit {0}) × Tables). device_by_token token p.1) (sym (rw there at e))
          ∙ unfold merge_device in
            first-upsert (λ (d : UserDevice). d.device_token) new (merge_device new)
              (trim_space token) s.tables.devices (λ d. refl)
      | inr gone ↦ cc (rw gone at e)
    ]
