-- ===== src/Store/Devices.antt =====
-- internal/store/store.go, lines 958 to 1108: the devices, their push tokens and refresh sessions.
pub mod Upsert
use callfxo.Prelude.{
  ℕ, Bool, true, false, Option, none, some, List, [], ◌∷◌, ◌++◌, ◌&&◌, is_nil, if◌then◌else◌,
}
use callfxo.Prelude.Integers.{ℤ}
use callfxo.Prelude.Equality.{◌==◌, int_eq, list_eq, nat_eq}
use callfxo.Prelude.Rows.{select, update_where, first, exists}
use callfxo.Text.{Text, trim_space}
use callfxo.Store.Schema.{
  UserDevice, Tables, Store, constraint, Result, ok, err, Action, statement, read, or_not_found,
  found, has_user,
}

-- The row that is inserted: `time.Time{}` as the creation time stands for the present, here `none`.
unfoldable pub device_row : UserDevice → Option ℕ → ℕ → UserDevice
unfolding trim_space
device_row dev created now = record {
  device_token = trim_space dev.device_token;
  user_id = dev.user_id;
  client_type = trim_space dev.client_type;
  device_name = trim_space dev.device_name;
  push_platform = trim_space dev.push_platform;
  push_token = trim_space dev.push_token;
  refresh_token_hash = trim_space dev.refresh_token_hash;
  refresh_expires_at = dev.refresh_expires_at;
  last_seen_at = now;
  created_at = elim created [ none ↦ now | some at ↦ at ];
  updated_at = now;
}

-- CASE WHEN excluded.c <> '' THEN excluded.c ELSE user_devices.c END
abbrev pub keep_if_empty : Text → Text → Text
keep_if_empty new old = if is_nil new then old else new

-- DO UPDATE SET: the row that stands, overwritten by the row that was to be inserted.
unfoldable pub merge_device : UserDevice → UserDevice → UserDevice
merge_device new old = record new {
  device_token = old.device_token;
  push_platform = keep_if_empty new.push_platform old.push_platform;
  push_token = keep_if_empty new.push_token old.push_token;
  created_at = old.created_at;
}

-- The foreign key on users(id) is checked where the row's user changes, and on an insertion.
unfoldable pub put_device : UserDevice → Tables → Result (Unit {0}) × Tables
unfolding merge_device has_user
put_device new t =
    if has_user new.user_id t
    then (
      ok tt,
      record t {
        devices =
            if exists (λ (d : UserDevice). d.device_token == new.device_token) t.devices
            then update_where (λ (d : UserDevice). d.device_token == new.device_token)
                (merge_device new) t.devices
            else t.devices ++ new ∷ [];
      },
    )
    else (err constraint, t)

unfoldable pub upsert_user_device : UserDevice → Option ℕ → ℕ → Action (Unit {0})
unfolding statement put_device device_row
upsert_user_device dev created now = statement (put_device (device_row dev created now))

unfoldable pub device_by_token : Text → Tables → Option UserDevice
unfolding trim_space
device_by_token token t = first (λ (d : UserDevice). d.device_token == trim_space token) t.devices

unfoldable pub get_user_device_by_token : Text → Action UserDevice
unfolding read device_by_token
get_user_device_by_token token = read (λ t. found (device_by_token token t))

-- WHERE user_id = ? AND device_token = ?
unfoldable pub is_device : ℤ → Text → UserDevice → Bool
unfolding trim_space
is_device user_id token d = d.user_id == user_id && d.device_token == trim_space token

unfoldable pub update_device :
    ℤ → Text → (UserDevice → UserDevice) → Tables → Result (Unit {0}) × Tables
unfolding is_device
update_device user_id token f t =
    or_not_found (exists (is_device user_id token) t.devices)
      (record t { devices = update_where (is_device user_id token) f t.devices }) t

unfoldable pub touch_user_device : ℤ → Text → ℕ → Action (Unit {0})
unfolding statement update_device
touch_user_device user_id token now =
    statement (update_device user_id token (λ d. record d { last_seen_at = now; updated_at = now }))

unfoldable pub update_user_device_push : ℤ → Text → Text → Text → ℕ → Action (Unit {0})
unfolding statement update_device trim_space
update_user_device_push user_id token platform push_token now = statement (
    update_device user_id token (λ d. record d {
      push_platform = trim_space platform;
      push_token = trim_space push_token;
      last_seen_at = now;
      updated_at = now;
    }))

-- SET refresh_token_hash = '', refresh_expires_at = 0, updated_at = ?
abbrev pub without_auth : ℕ → UserDevice → UserDevice
without_auth now d = record d { refresh_token_hash = []; refresh_expires_at = 0; updated_at = now }

unfoldable pub clear_user_device_auth : ℤ → Text → ℕ → Action (Unit {0})
unfolding statement update_device
clear_user_device_auth user_id token now =
    statement (update_device user_id token (without_auth now))

unfoldable pub clear_user_device_auth_by_user_id : ℤ → ℕ → Action (Unit {0})
unfolding statement
clear_user_device_auth_by_user_id user_id now = statement λ t. (
  ok tt,
  record t {
    devices = update_where (λ (d : UserDevice). d.user_id == user_id) (without_auth now) t.devices;
  },
)

-- user_id IN (…)
unfoldable pub is_one_of : List ℤ → ℤ → Bool
is_one_of [] id = false
is_one_of (x ∷ xs) id = if x == id then true else is_one_of xs id

-- With no user there is no statement.
unfoldable pub list_user_devices_by_user_ids : List ℤ → Action (List UserDevice)
unfolding read is_one_of
list_user_devices_by_user_ids [] s = (ok [], s)
list_user_devices_by_user_ids (id ∷ ids) s =
    read (λ t. ok (select (λ (d : UserDevice). is_one_of (id ∷ ids) d.user_id) t.devices)) s
