-- ===== src/Store/Runs.antt =====
-- Runs of the permissions, the call log, the contacts and the devices.
use callfxo.Prelude.{
  ℕ, suc, ◌+◌, ◌*◌, ◌^◌, Bool, true, false, Option, none, some, List, [], ◌∷◌, ◌≡◌, refl, arith,
  ◌&&◌, ◌||◌, All, map,
}
use callfxo.Prelude.Integers.{ℤ, pos}
use callfxo.Prelude.Equality.{◌==◌, int_eq}
use callfxo.Text.{txt}
use callfxo.Store.Schema.{
  UserCredential, CallLogRow, CallLog, Contact, UserDevice, PermissionRow, Tables, Store, Result,
  ok, err,
}
use callfxo.Store.Tests.{database, healthy, logged}
use callfxo.Store.Permissions.{set_user_fxo_permission, user_can_dial_fxo}
use callfxo.Store.Permissions.Rung.{set_user_fxo_permission-user_can_dial_fxo}
use callfxo.Store.CallLogs.{page_offset, logs_of_user, list_call_logs_by_user}
use callfxo.Store.CallLogs.Pages.{start, next, Browse-logs_of_user, list_call_logs_by_user-wraps}

-- The store after an administrator lets ann dial out, but not receive.
abbrev permitted : Store
permitted = (set_user_fxo_permission (pos 1) (pos 7) true false 100 healthy).1

abbrev row : ℕ → ℕ → ℕ → PermissionRow
row can_dial can_receive notify = record {
  user_id = pos 1;
  fxo_box_id = pos 7;
  can_dial = can_dial;
  can_receive = can_receive;
  notify_incoming = notify;
  updated_at = 100;
}

-- What UserCanDialFXO answers for ann then.
abbrev granted : Bool
granted = elim (user_can_dial_fxo (pos 1) (pos 7) false permitted).0 [ ok b ↦ b | err e ↦ false ]

set_user_fxo_permission-user_can_dial_fxo_example : granted ≡ true
unfolding set_user_fxo_permission callfxo.Prelude.Rows.exists callfxo.Prelude.Integers.int_beq
    user_can_dial_fxo callfxo.Prelude.Equality.list_beq callfxo.Prelude.Rows.first
set_user_fxo_permission-user_can_dial_fxo_example =
    set_user_fxo_permission-user_can_dial_fxo (pos 1) (pos 7) true false 100 healthy
      {answer = granted} refl refl

Browse-logs_of_user_example :
    (record { row = logged (pos 3); fxo_box_name = txt "hall" }
      ∷ record { row = logged (pos 2); fxo_box_name = txt "hall" }
      ∷ record { row = logged (pos 1); fxo_box_name = txt "hall" }
      ∷ [])
    ≡ logs_of_user (pos 1) database
unfolding logs_of_user list_call_logs_by_user callfxo.Prelude.Rows.select
    callfxo.Prelude.Integers.int_beq callfxo.Store.Schema.read callfxo.Store.CallLogs.count_logs
    callfxo.Prelude.Rows.count_where callfxo.Store.CallLogs.page_of_logs
    callfxo.Store.CallLogs.normalize_page_size page_offset callfxo.Store.CallLogs.normalize_page
    callfxo.Prelude.Rows.first
Browse-logs_of_user_example =
    Browse-logs_of_user {user_id = pos 1} {size = 2} {t = database} {n = 2} (omega arith)
      (omega arith) (omega arith) (omega arith)
      (next 3 healthy healthy (next 3 healthy healthy start refl refl) refl refl)

list_call_logs_by_user-wraps_example :
    list_call_logs_by_user (pos 1) (pos (suc (0 + 3 * 2 ^ 58))) (pos 64) healthy
    ≡ list_call_logs_by_user (pos 1) (pos 1) (pos 64) healthy
list_call_logs_by_user-wraps_example = list_call_logs_by_user-wraps (pos 1) 0 3 healthy

abbrev phone : UserDevice
phone = record {
  device_token = txt " t1 ";
  user_id = pos 1;
  client_type = txt "android";
  device_name = txt "phone";
  push_platform = [];
  push_token = [];
  refresh_token_hash = txt "h";
  refresh_expires_at = 900;
  last_seen_at = 0;
  created_at = 0;
  updated_at = 0;
}
