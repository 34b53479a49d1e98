-- ===== src/Store/Tests.antt =====
-- Runs of the store on a small database.
use callfxo.Prelude.{
  ℕ, Bool, true, false, Option, none, some, List, [], ◌∷◌, ◌≡◌, ◌≢◌, ◌≤◌, ◌⊎◌, refl, arith, All,
  is_some, ◌&&◌, ◌||◌, ltb, leb,
}
use callfxo.Prelude.Integers.{ℤ, pos}
use callfxo.Prelude.Rows.{exists}
use callfxo.Text.{Text, txt}
use callfxo.Store.Schema.{
  UserCredential, FxoBox, Registration, CallLogRow, Contact, Tables, Store, Error, engine, has_user,
  role_admin, role_user,
}
use callfxo.Store.Users.{delete_user}
use callfxo.Store.Users.Deletion.{without_user, delete_user-ok, delete_user-err}
use callfxo.Store.Registrations.{active_registration}
use callfxo.Store.Boxes.{FxoBoxWithStatus, list_fxo_boxes_with_status}
use callfxo.Store.Registrations.Reachable.{list_fxo_boxes_with_status-online}

abbrev pub account : ℤ → Text → Text → UserCredential
account id name role = record {
  user = record { id = id; username = name; role = role; created_at = 5 };
  password_hash = txt "hash";
}

abbrev pub ann : UserCredential
ann = account (pos 1) (txt "ann") role_user

abbrev pub bob : UserCredential
bob = account (pos 2) (txt "bob") role_admin

abbrev pub gateway : FxoBox
gateway = record {
  id = pos 7;
  name = txt "hall";
  sip_username = txt "fxo7";
  sip_password = txt "secret";
  created_at = 6;
}

abbrev pub reachable : Registration
reachable = record {
  fxo_box_id = pos 7;
  contact_uri = txt "sip:fxo7@10.0.0.7:5060";
  source_addr = txt "10.0.0.7:5060";
  transport = txt "udp";
  call_id = txt "r1";
  user_agent = [];
  expires_at = 200;
  updated_at = 90;
}

abbrev pub logged : ℤ → CallLogRow
logged id = record {
  id = id;
  user_id = pos 1;
  fxo_box_id = pos 7;
  number = txt "0800";
  started_at = 50;
  ended_at = some 60;
  status = txt "ended";
  reason = [];
}

abbrev pub sue : Contact
sue = record { id = pos 3; user_id = pos 1; name = txt "Sue"; number = txt "0800"; created_at = 8 }

abbrev pub database : Tables
database = record {
  users = ann ∷ bob ∷ [];
  next_user = 3;
  boxes = gateway ∷ [];
  next_box = 8;
  registrations = reachable ∷ [];
  call_logs = logged (pos 1) ∷ logged (pos 2) ∷ logged (pos 3) ∷ [];
  next_call_log = 4;
  contacts = sue ∷ [];
  next_contact = 4;
  devices = [];
  permissions = [];
  settings = [];
}

abbrev pub healthy : Store
healthy = record { tables = database; faults = [] }

-- The engine fails on the third statement to come.
abbrev pub failing : Store
failing = record { tables = database; faults = false ∷ false ∷ true ∷ [] }

delete_user-ok_example :
    (has_user (pos 1) database ≡ true)
    × ((delete_user (pos 1) healthy).1.tables ≡ without_user (pos 1) database)
unfolding delete_user callfxo.Prelude.Rows.count_where callfxo.Prelude.Integers.int_beq
delete_user-ok_example = delete_user-ok (pos 1) healthy refl

delete_user-err_example :
    let s' = (delete_user (pos 1) failing).1 in
    (s'.tables ≡ database)
    ⊎ ((◌≡◌ {A = Error} engine engine)
        × (has_user (pos 1) database ≡ true)
        × (s'.tables ≡ without_user (pos 1) database))
unfolding delete_user callfxo.Prelude.Rows.count_where callfxo.Prelude.Integers.int_beq
delete_user-err_example = delete_user-err (pos 1) failing engine refl

list_fxo_boxes_with_status-online_example :
    All
      (λ (i : FxoBoxWithStatus). i.online ≡ is_some (active_registration 100 i.box.id database))
      (record { box = gateway; online = true; in_use = false; registration = some reachable } ∷ [])
unfolding list_fxo_boxes_with_status active_registration exists callfxo.Prelude.Rows.first
    callfxo.Prelude.Integers.int_beq
list_fxo_boxes_with_status-online_example =
    list_fxo_boxes_with_status-online 100 healthy (refl, tt) refl
