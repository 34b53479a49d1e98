-- ===== src/Store/Registrations.antt =====
-- internal/store/store.go, lines 741 to 796: where a box can be reached.
pub mod Reachable
use callfxo.Prelude.{
  ℕ, Bool, true, false, Option, none, some, List, [], ◌∷◌, ◌++◌, ◌&&◌, ltb, leb, if◌then◌else◌,
}
use callfxo.Prelude.Integers.{ℤ}
use callfxo.Prelude.Equality.{◌==◌, int_eq, list_eq, nat_eq}
use callfxo.Prelude.Rows.{delete_where, update_where, first, exists}
use callfxo.Store.Schema.{
  Registration, Tables, Store, constraint, Result, ok, err, Action, statement, read, found, has_box,
}

-- INSERT … ON CONFLICT(fxo_box_id) DO UPDATE; a new row needs its box.
unfoldable pub put_registration : Registration → Tables → Result (Unit {0}) × Tables
unfolding has_box
put_registration reg t =
    if exists (λ (r : Registration). r.fxo_box_id == reg.fxo_box_id) t.registrations
    then (
      ok tt,
      record t {
        registrations =
            update_where (λ (r : Registration). r.fxo_box_id == reg.fxo_box_id) (λ r. reg)
              t.registrations;
      },
    )
    else if has_box reg.fxo_box_id t
    then (ok tt, record t { registrations = t.registrations ++ reg ∷ [] })
    else (err constraint, t)

unfoldable pub upsert_registration : Registration → Action (Unit {0})
unfolding statement put_registration
upsert_registration reg = statement (put_registration reg)

unfoldable pub delete_registration : ℤ → Action (Unit {0})
unfolding statement
delete_registration box_id = statement λ t. (
  ok tt,
  record t {
    registrations = delete_where (λ (r : Registration). r.fxo_box_id == box_id) t.registrations;
  },
)

unfoldable pub active_registration : ℕ → ℤ → Tables → Option Registration
active_registration now box_id t =
    first (λ (r : Registration). r.fxo_box_id == box_id && ltb now r.expires_at) t.registrations

unfoldable pub get_active_registration : ℕ → ℤ → Action Registration
unfolding read active_registration
get_active_registration now box_id = read (λ t. found (active_registration now box_id t))

unfoldable pub drop_expired : ℕ → Tables → Tables
drop_expired now t = record t {
  registrations = delete_where (λ (r : Registration). leb r.expires_at now) t.registrations;
}

unfoldable pub cleanup_expired_registrations : ℕ → Action (Unit {0})
unfolding statement drop_expired
cleanup_expired_registrations now = statement (λ t. (ok tt, drop_expired now t))
