-- ===== src/Store/Users/Deletion.antt =====
-- DeleteUser: what the transaction removes, and that it removes all of it or nothing.
use callfxo.Prelude.{
  ℕ, Bool, true, false, List, [], ◌∷◌, ◌≡◌, ◌⊎◌, refl, inl, inr, arith, ap, sym, subst, ◌∙◌,
  Bool-cases,
}
use callfxo.Prelude.Integers.{ℤ}
use callfxo.Prelude.Equality.{◌==◌, int_eq, nat_eq}
use callfxo.Prelude.Rows.{delete_where, count_where-pos, delete_where_twice}
use callfxo.Store.Schema.{
  UserCredential, Contact, CallLogRow, UserDevice, PermissionRow, Tables, Store, Error, engine,
  Result, ok, err, statement, cascade_user, has_user,
}
use callfxo.Store.Statements.{statement-eq-ok, statement-eq-err}
use callfxo.Store.Users.{
  delete_users, delete_contacts_of, delete_call_logs_of, commit_failed, committed,
  call_logs_deleted, contacts_deleted, users_deleted, begun, delete_user,
}

-- The tables with everything of one user taken out.
unfoldable pub without_user : ℤ → Tables → Tables
without_user id t = record t {
  users = delete_where (λ (u : UserCredential). u.id == id) t.users;
  contacts = delete_where (λ (c : Contact). c.user_id == id) t.contacts;
  call_logs = delete_where (λ (l : CallLogRow). l.user_id == id) t.call_logs;
  devices = delete_where (λ (d : UserDevice). d.user_id == id) t.devices;
  permissions = delete_where (λ (p : PermissionRow). p.user_id == id) t.permissions;
}

-- What the two statements after the first take out.
without_rest : ℤ → Tables → Tables
without_rest id t = record t {
  contacts = delete_where (λ (c : Contact). c.user_id == id) t.contacts;
  call_logs = delete_where (λ (l : CallLogRow). l.user_id == id) t.call_logs;
}

-- What a DeleteUser leaves of the tables that it found: all of the user is gone where it succeeds, and where
-- it fails nothing is, or all of it by a COMMIT that the engine failed on.
abbrev pub Atomic : ℤ → Tables → Result (Unit {0}) × Store → Type 0
Atomic id t (ok u, s) = (has_user id t ≡ true) × (s.tables ≡ without_user id t)
Atomic id t (err e, s) =
    (s.tables ≡ t) ⊎ ((e ≡ engine) × (has_user id t ≡ true) × (s.tables ≡ without_user id t))

commit_failed-tables :
    (before t : Tables) (fs : List Bool)
    → ((commit_failed before t fs).tables ≡ before) ⊎ ((commit_failed before t fs).tables ≡ t)
commit_failed-tables before t [] = inl refl
commit_failed-tables before t (true ∷ fs) = inr refl
commit_failed-tables before t (false ∷ fs) = inl refl

module _ (id : ℤ) (t : Tables) (there : has_user id t ≡ true) where
  committed-Atomic :
      (s : Store) (r : Result (Unit {0}) × Store)
      → s.tables ≡ without_user id t
      → statement (λ t. (ok tt, t)) s ≡ r
      → Atomic id t (committed t r)
  committed-Atomic s (ok u, s') gone h =
      let at = statement-eq-ok (λ t. (ok tt, t)) s h in
      (there, sym (ap (λ (p : Result (Unit {0}) × Tables). p.1) at) ∙ gone)
  committed-Atomic s (err e, s') gone h =
      let (broken, kept) = statement-eq-err (λ t. tt) s h in
      elim (commit_failed-tables t s'.tables s'.faults) [
        | inl back ↦ inl back
        | inr stays ↦ inr (broken, there, stays ∙ kept ∙ gone)
      ]

  call_logs-Atomic :
      (s : Store) (r : Result (Unit {0}) × Store)
      → (record (s.tables) {
        call_logs = delete_where (λ (l : CallLogRow). l.user_id == id) s.tables.call_logs;
      })
        ≡ without_user id t
      → statement (delete_call_logs_of id) s ≡ r
      → Atomic id t (call_logs_deleted t r)
  unfolding delete_call_logs_of
  call_logs-Atomic s (err e, s') gone h = inl refl
  call_logs-Atomic s (ok u, s') gone h =
      let at = statement-eq-ok (delete_call_logs_of id) s h in
      committed-Atomic s' (statement (λ t. (ok tt, t)) s')
        (sym (ap (λ (p : Result (Unit {0}) × Tables). p.1) at) ∙ gone) refl

  contacts-Atomic :
      (s : Store) (r : Result (Unit {0}) × Store)
      → without_rest id s.tables ≡ without_user id t
      → statement (delete_contacts_of id) s ≡ r
      → Atomic id t (contacts_deleted id t r)
  unfolding delete_contacts_of without_rest
  contacts-Atomic s (err e, s') gone h = inl refl
  contacts-Atomic s (ok u, s') gone h =
      let at = statement-eq-ok (delete_contacts_of id) s h in
      call_logs-Atomic s' (statement (delete_call_logs_of id) s')
        (ap
            (λ (u : Tables). record u {
              call_logs = delete_where (λ (l : CallLogRow). l.user_id == id) u.call_logs;
            })
            (sym (ap (λ (p : Result (Unit {0}) × Tables). p.1) at))
          ∙ gone)
        refl

-- The rows that the first statement has deleted, and the tables behind it.
users-gone :
    (id : ℤ) (t : Tables) {n : ℕ} {t' : Tables}
    → delete_users id t ≡ (ok n, t')
    → (n == 0) ≡ false
    → (has_user id t ≡ true) × (without_rest id t' ≡ without_user id t)
unfolding without_rest without_user delete_users cascade_user has_user
users-gone id t deleted some_rows = (
  ground (arith, count_where-pos (λ (u : UserCredential). u.id == id) t.users, deleted),
  ap (without_rest id) (sym (ap (λ (p : Result ℕ × Tables). p.1) deleted))
      ∙ ap (λ cs. record (without_user id t) { contacts = cs })
          (delete_where_twice (λ (c : Contact). c.user_id == id) t.contacts),
)

users-Atomic :
    (id : ℤ) (s : Store) (r : Result ℕ × Store)
    → statement (delete_users id) s ≡ r
    → Atomic id s.tables (users_deleted id s.tables r)
users-Atomic id s (err e, s') h = inl refl
users-Atomic id s (ok n, s') h = elim (Bool-cases (n == 0)) [
  | inl empty ↦ rw empty (inl refl)
  | inr some_rows ↦
      let (there, gone) =
        users-gone id s.tables (statement-eq-ok (delete_users id) s h) some_rows in
      rw some_rows
        (contacts-Atomic id s.tables there s' (statement (delete_contacts_of id) s') gone refl)
]

begun-Atomic :
    (id : ℤ) (s : Store) (r : Result (Unit {0}) × Store)
    → statement (λ t. (ok tt, t)) s ≡ r
    → Atomic id s.tables (begun id r)
begun-Atomic id s (err e, s') h = inl (statement-eq-err (λ t. tt) s h).1
begun-Atomic id s (ok u, s') h =
    let at = statement-eq-ok (λ t. (ok tt, t)) s h in
    subst (λ (t : Tables). Atomic id t (begun id (ok u, s')))
      (sym (ap (λ (p : Result (Unit {0}) × Tables). p.1) at))
      (users-Atomic id s' (statement (delete_users id) s') refl)

delete_user-Atomic : (id : ℤ) (s : Store) → Atomic id s.tables (delete_user id s)
unfolding delete_user
delete_user-Atomic id s = begun-Atomic id s (statement (λ t. (ok tt, t)) s) refl

-- A DeleteUser that succeeds found the user, and takes out the account, its contacts, call logs,
-- devices and permissions, and nothing else.
pub delete_user-ok :
    (id : ℤ) (s : Store) {s' : Store}
    → delete_user id s ≡ (ok tt, s')
    → (has_user id s.tables ≡ true) × (s'.tables ≡ without_user id s.tables)
delete_user-ok id s h = subst (Atomic id s.tables) h (delete_user-Atomic id s)

-- A DeleteUser that fails, at whichever statement, leaves every table as it was; or the engine failed on the
-- COMMIT and kept what the transaction had done, and then the user was there and all of it is gone, as by a
-- DeleteUser that succeeds.
pub delete_user-err :
    (id : ℤ) (s : Store) (e : Error) {s' : Store}
    → delete_user id s ≡ (err e, s')
    → (s'.tables ≡ s.tables)
      ⊎ ((e ≡ engine) × (has_user id s.tables ≡ true) × (s'.tables ≡ without_user id s.tables))
delete_user-err id s e h = subst (Atomic id s.tables) h (delete_user-Atomic id s)
