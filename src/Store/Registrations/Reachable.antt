-- ===== src/Store/Registrations/Reachable.antt =====
-- GetActiveRegistration against the operations that write fxo_registrations, and against the Online
-- flag of the listing.
use callfxo.Prelude.{
  ℕ, Bool, false, none, some, List, [], ◌∷◌, ◌++◌, ◌≡◌, refl, ◌≤◌, ◌&&◌, ltb, leb, arith, ap, sym,
  ◌∙◌, Bool-cases, is_some, All, map, subst, inl, inr, if◌then◌else◌,
}
use callfxo.Prelude.Integers.{ℤ, int_beq_iff}
use callfxo.Prelude.Equality.{◌==◌, int_eq}
use callfxo.Prelude.Rows.{delete_where, update_where, first, exists, exists-delete_where, Unique}
use callfxo.Store.Schema.{Registration, Tables, Store, Result, ok, has_box, FxoBox}
use callfxo.Store.Statements.{statement-eq-ok, read-eq-ok, ok-injective}
use callfxo.Store.Boxes.{
  registration_of, is_online, with_status, FxoBoxWithStatus, list_fxo_boxes_with_status,
}
use callfxo.Store.Registrations.{
  put_registration, upsert_registration, delete_registration, active_registration, drop_expired,
  cleanup_expired_registrations,
}

abbrev is_active : ℕ → ℤ → Registration → Bool
is_active now id r = r.fxo_box_id == id && ltb now r.expires_at

abbrev at_box : ℤ → Registration → Bool
at_box id r = r.fxo_box_id == id

first-overwritten :
    (now : ℕ) (id : ℤ) (reg : Registration) (rs : List Registration)
    → first (is_active now id) (update_where (at_box reg.fxo_box_id) (λ r. reg) rs) ≡ (
        if reg.fxo_box_id == id
        then (if exists (at_box reg.fxo_box_id) rs && ltb now reg.expires_at
            then some reg
            else none)
        else first (is_active now id) rs)
unfolding first update_where exists
first-overwritten now id reg [] = ground arith
first-overwritten now id reg (r ∷ rs) = ground (
  arith,
  first-overwritten now id reg rs,
  int_beq_iff r.fxo_box_id id,
  int_beq_iff reg.fxo_box_id id,
  int_beq_iff r.fxo_box_id reg.fxo_box_id,
)

first-appended :
    (now : ℕ) (id : ℤ) (reg : Registration) (rs : List Registration)
    → exists (at_box reg.fxo_box_id) rs ≡ false
    → first (is_active now id) (rs ++ reg ∷ []) ≡ (
        if reg.fxo_box_id == id
        then (if ltb now reg.expires_at then some reg else none)
        else first (is_active now id) rs)
unfolding first exists
first-appended now id reg [] h = ground arith
first-appended now id reg (r ∷ rs) h = ground (
  arith,
  first-appended now id reg rs,
  int_beq_iff r.fxo_box_id id,
  int_beq_iff reg.fxo_box_id id,
  int_beq_iff r.fxo_box_id reg.fxo_box_id,
)

module _ (reg : Registration) (t : Tables) {t' : Tables} where
  put_registration-active :
      put_registration reg t ≡ (ok tt, t')
      → (now : ℕ) (id : ℤ)
      → active_registration now id t' ≡ (
          if reg.fxo_box_id == id
          then (if ltb now reg.expires_at then some reg else none)
          else active_registration now id t)
  unfolding put_registration active_registration
  put_registration-active h now id =
      elim (Bool-cases (exists (at_box reg.fxo_box_id) t.registrations)) [
        | inl old ↦
            ap (λ u. active_registration now id u)
              (sym (ap (λ (p : Result Unit × Tables). p.1) (rw old at h)))
            ∙ first-overwritten now id reg t.registrations
            ∙ rw old refl
        | inr new ↦ elim (Bool-cases (has_box reg.fxo_box_id t)) [
          | inl there ↦
              ap (λ u. active_registration now id u)
                (sym (ap (λ (p : Result Unit × Tables). p.1) (rw (new, there) at h)))
              ∙ first-appended now id reg t.registrations new
          | inr gone ↦ cc (rw (new, gone) at h)
        ]
      ]

-- After a successful UpsertRegistration a box is reachable at a time exactly by the registration that
-- was written, until it expires; what is known of every other box is unchanged.
pub upsert_registration-active :
    (reg : Registration) (s : Store) {s' : Store}
    → upsert_registration reg s ≡ (ok tt, s')
    → (now : ℕ) (id : ℤ)
    → active_registration now id s'.tables ≡ (
        if reg.fxo_box_id == id
        then (if ltb now reg.expires_at then some reg else none)
        else active_registration now id s.tables)
unfolding upsert_registration
upsert_registration-active reg s h =
    put_registration-active reg s.tables (statement-eq-ok (put_registration reg) s h)

first-deleted :
    (now : ℕ) (gone id : ℤ) (rs : List Registration)
    → first (is_active now id) (delete_where (at_box gone) rs)
      ≡ (if gone == id then none else first (is_active now id) rs)
unfolding first delete_where
first-deleted now gone id [] = ground arith
first-deleted now gone id (r ∷ rs) = ground (
  arith,
  first-deleted now gone id rs,
  int_beq_iff r.fxo_box_id id,
  int_beq_iff gone id,
  int_beq_iff r.fxo_box_id gone,
)

-- After a successful DeleteRegistration the box cannot be reached at any time, and the others can as
-- before.
pub delete_registration-active :
    (box_id : ℤ) (s : Store) {s' : Store}
    → delete_registration box_id s ≡ (ok tt, s')
    → (now : ℕ) (id : ℤ)
    → active_registration now id s'.tables
      ≡ (if box_id == id then none else active_registration now id s.tables)
unfolding delete_registration active_registration
delete_registration-active box_id s h now id =
    ap (λ (p : Result (Unit {0}) × Tables). first (is_active now id) (p.1).registrations)
      (sym (statement-eq-ok _ s h))
    ∙ first-deleted now box_id id s.tables.registrations

first-unexpired :
    (now later : ℕ) (id : ℤ) (rs : List Registration)
    → now ≤ later
    → first (is_active later id) (delete_where (λ (r : Registration). leb r.expires_at now) rs)
      ≡ first (is_active later id) rs
unfolding first delete_where
first-unexpired now later id [] h = refl
first-unexpired now later id (r ∷ rs) h = ground (arith, first-unexpired now later id rs h)

-- The cleanup at one time changes no GetActiveRegistration at that time or later, and no row that it
-- leaves has expired by then.
pub cleanup_expired_registrations-active :
    (now : ℕ) (s : Store) {s' : Store}
    → cleanup_expired_registrations now s ≡ (ok tt, s')
    → ((later : ℕ) (id : ℤ)
        → now ≤ later
        → active_registration later id s'.tables ≡ active_registration later id s.tables)
      × (exists (λ (r : Registration). leb r.expires_at now) s'.tables.registrations ≡ false)
unfolding cleanup_expired_registrations active_registration drop_expired
cleanup_expired_registrations-active now s h =
    let e = sym (statement-eq-ok _ s h) in
    (
      λ later id le.
          ap (λ (p : Result (Unit {0}) × Tables). first (is_active later id) (p.1).registrations) e
          ∙ first-unexpired now later id s.tables.registrations le,
      ap
            (λ (p : Result (Unit {0}) × Tables).
              exists (λ (r : Registration). leb r.expires_at now) (p.1).registrations)
            e
          ∙ exists-delete_where (λ (r : Registration). leb r.expires_at now) s.tables.registrations,
    )

first-absent :
    (now : ℕ) (id : ℤ) (rs : List Registration)
    → exists (at_box id) rs ≡ false
    → first (is_active now id) rs ≡ none
unfolding first exists
first-absent now id [] h = refl
first-absent now id (r ∷ rs) h = ground (arith, first-absent now id rs)

is_online-first :
    (now : ℕ) (id : ℤ) (rs : List Registration)
    → Unique (λ (r : Registration). r.fxo_box_id) rs
    → is_online now (first (at_box id) rs) ≡ is_some (first (is_active now id) rs)
unfolding is_online first
is_online-first now id [] u = refl
is_online-first now id (r ∷ rs) u = elim (Bool-cases (at_box id r)) [
  | inl here ↦
      let alone : exists (at_box id) rs ≡ false =
        subst (λ k. exists (at_box k) rs ≡ false) ((int_beq_iff r.fxo_box_id id).0 here) u.0 in
      ground (arith, first-absent now id rs alone)
  | inr other ↦ rw other (is_online-first now id rs u.1)
]

All-online :
    (now : ℕ) (t : Tables) (bs : List FxoBox)
    → Unique (λ (r : Registration). r.fxo_box_id) t.registrations
    → All
        (λ (i : FxoBoxWithStatus). i.online ≡ is_some (active_registration now i.box.id t))
        (map (with_status now t) bs)
unfolding with_status registration_of active_registration
All-online now t [] u = tt
All-online now t (b ∷ bs) u = (is_online-first now b.id t.registrations u, All-online now t bs u)

-- Where no box has two registrations, ListFXOBoxesWithStatus shows a box as online exactly when
-- GetActiveRegistration, which StartCall asks, finds where to reach it at that time.
pub list_fxo_boxes_with_status-online :
    (now : ℕ) (s : Store) {items : List FxoBoxWithStatus} {s' : Store}
    → Unique (λ (r : Registration). r.fxo_box_id) s.tables.registrations
    → list_fxo_boxes_with_status now s ≡ (ok items, s')
    → All
        (λ (i : FxoBoxWithStatus). i.online ≡ is_some (active_registration now i.box.id s.tables))
        items
unfolding list_fxo_boxes_with_status
list_fxo_boxes_with_status-online now s {items} u h =
    subst
      (All λ (i : FxoBoxWithStatus). i.online ≡ is_some (active_registration now i.box.id s.tables))
      (ok-injective (read-eq-ok (λ t. ok (map (with_status now t) t.boxes)) s h).0)
      (All-online now s.tables s.tables.boxes u)
