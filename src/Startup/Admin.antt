-- ===== src/Startup/Admin.antt =====
-- bootstrapAdmin: once it has succeeded there is an administrator.
use callfxo.Prelude.{
  ℕ, Bool, true, Option, none, some, ◌≡◌, refl, arith, ap, sym, ◌∙◌, ltb, Bool-cases, if_of_true,
  if_of_false, inl, inr, subst,
}
use callfxo.Prelude.Equality.{◌==◌, nat_eq, list_eq}
use callfxo.Prelude.Rows.{first, exists, count_where-pos}
use callfxo.Text.{Text}
use callfxo.Store.Schema.{
  User, UserCredential, Tables, Store, not_found, constraint, engine, unsupported_field, Result, ok,
  err, pure, read, found, normalize_role, role_admin,
}
use callfxo.Store.Statements.{
  statement-eq-ok, read-eq-ok, >>=-eq-ok, found-injective, ok-injective, or_not_found-eq-ok,
}
use callfxo.Store.Users.{
  scan_credential, get_user_credential_by_username, set_user_role_by_username, count_admins,
  insert_user, create_user,
}
use callfxo.Startup.{
  Start, ready, created, create_admin_hashed, create_admin, promoted, counted, admin_from,
  admin_name, bootstrap_password, bootstrap_admin,
}
use callfxo.Startup.Accounts.{
  is_admin, HasAdmin, exists-found, exists-promote, exists-counted, inserted-HasAdmin, admin_twice,
}

looked_up : Text → Tables → Result UserCredential
looked_up name t = found (first (λ (u : UserCredential). u.username == name) t.users)

found-HasAdmin :
    (name : Text) (s s₁ : Store) (uc : UserCredential)
    → get_user_credential_by_username name s ≡ (ok uc, s₁)
    → (uc.role == role_admin) ≡ true
    → HasAdmin s₁
unfolding looked_up get_user_credential_by_username scan_credential
found-HasAdmin name s s₁ uc h a =
    let (u, s₂, looked, scanned) =
      >>=-eq-ok (read (looked_up name)) (λ v. pure (scan_credential v)) s h in
    let (there, kept) = read-eq-ok (looked_up name) s looked in
    let shown : scan_credential u ≡ uc =
      ok-injective (ap (λ (r : Result UserCredential × Store). r.0) scanned) in
    let role : is_admin u ≡ true =
      subst (λ (v : UserCredential). (v.role == role_admin) ≡ true) (sym shown) a in
    subst HasAdmin (ap (λ (r : Result UserCredential × Store). r.1) scanned) (
      subst (λ (t : Tables). exists is_admin t.users ≡ true) (sym kept)
        (exists-found name s.tables.users (found-injective there) role))

module _ {p : Text × Bool} {s' : Store} where
  created-HasAdmin :
      (password : Text × Bool) (name hash : Text) (now : ℕ) (s : Store)
      → created password (create_user name hash role_admin now s) ≡ (ready p, s')
      → HasAdmin s'
  unfolding create_user
  created-HasAdmin password name hash now s h = from (create_user name hash role_admin now s) refl h
    where
      from :
          (r : Result User × Store)
          → create_user name hash role_admin now s ≡ r
          → created password r ≡ (ready p, s')
          → HasAdmin s'
      from (err e, s₁) same k = cc
      from (ok user, s₁) same k = subst HasAdmin (ap (λ (r : Start (Text × Bool) × Store). r.1) k) (
          inserted-HasAdmin name hash (normalize_role role_admin) now s.tables admin_twice
            (statement-eq-ok (insert_user name hash (normalize_role role_admin) now) s same))

  promoted-HasAdmin :
      (name : Text) (s : Store)
      → promoted (set_user_role_by_username name role_admin s) ≡ (ready p, s')
      → HasAdmin s'
  unfolding set_user_role_by_username
  promoted-HasAdmin name s h = from (set_user_role_by_username name role_admin s) refl h
    where
      from :
          (r : Result (Unit {0}) × Store)
          → set_user_role_by_username name role_admin s ≡ r
          → promoted r ≡ (ready p, s')
          → HasAdmin s'
      from (err e, s₁) same k = cc
      from (ok u, s₁) same k =
          let (there, rows) =
            or_not_found-eq-ok (exists (λ (u : UserCredential). u.username == name) s.tables.users)
              _ s.tables (statement-eq-ok _ s same) in
          subst HasAdmin (ap (λ (r : Start (Text × Bool) × Store). r.1) k) (
            subst (λ (t : Tables). exists is_admin t.users ≡ true) rows
              (exists-promote name s.tables.users there))

  counted-HasAdmin :
      (make : Store → Start (Text × Bool) × Store) (s : Store)
      → ((s₁ : Store) → make s₁ ≡ (ready p, s') → HasAdmin s')
      → counted make (count_admins s) ≡ (ready p, s')
      → HasAdmin s'
  unfolding count_admins
  counted-HasAdmin make s made h = from (count_admins s) refl h
    where
      from :
          (r : Result ℕ × Store) → count_admins s ≡ r → counted make r ≡ (ready p, s') → HasAdmin s'
      from (err e, s₁) same k = cc
      from (ok n, s₁) same k = elim (Bool-cases (ltb 0 n)) [
        | inr none_there ↦ made s₁ (sym (if_of_false _ _ none_there) ∙ k)
        | inl some_there ↦
            let (counted_n, kept) = read-eq-ok _ s same in
            subst HasAdmin
              (ap (λ (r : Start (Text × Bool) × Store). r.1) (sym (if_of_true _ _ some_there) ∙ k))
              (subst (λ (t : Tables). exists is_admin t.users ≡ true) (sym kept)
                (exists-counted s.tables.users (
                  ground (
                    arith,
                    some_there,
                    ok-injective counted_n,
                    count_where-pos (λ (u : UserCredential). u.role == role_admin) s.tables.users,
                  ))))
      ]

  made-HasAdmin :
      (generate : Text → Option Text) (name : Text) (o : Option (Text × Bool)) (now : ℕ) (s : Store)
      → create_admin generate name o now s ≡ (ready p, s')
      → HasAdmin s'
  made-HasAdmin generate name none now s h = cc
  made-HasAdmin generate name (some password) now s h = from (generate password.0) h
    where
      from :
          (hash : Option Text)
          → create_admin_hashed name password hash now s ≡ (ready p, s')
          → HasAdmin s'
      from none k = cc
      from (some hash) k = created-HasAdmin password name hash now s k

  -- Once the start has prepared its administrator, some account of the store reads as an administrator's,
  -- whichever of the accounts were there before.
  pub bootstrap_admin-HasAdmin :
      (generate : Text → Option Text) (random : Option Text) (username password : Text)
      (fresh_db : Bool) (now : ℕ) (s : Store)
      → bootstrap_admin generate random username password fresh_db now s ≡ (ready p, s')
      → HasAdmin s'
  unfolding bootstrap_admin
  bootstrap_admin-HasAdmin generate random username password fresh_db now s h =
      from (get_user_credential_by_username (admin_name username) s) refl h
    where
      make : Store → Start (Text × Bool) × Store
      make =
          create_admin generate (admin_name username) (bootstrap_password fresh_db password random)
            now

      from :
          (r : Result UserCredential × Store)
          → get_user_credential_by_username (admin_name username) s ≡ r
          → admin_from (admin_name username) make r ≡ (ready p, s')
          → HasAdmin s'
      from (ok uc, s₁) same k = elim (Bool-cases (uc.role == role_admin)) [
        | inl admin ↦
            subst HasAdmin
              (ap (λ (r : Start (Text × Bool) × Store). r.1) (sym (if_of_true _ _ admin) ∙ k))
              (found-HasAdmin (admin_name username) s s₁ uc same admin)
        | inr other ↦ promoted-HasAdmin (admin_name username) s₁ (sym (if_of_false _ _ other) ∙ k)
      ]
      from (err not_found, s₁) same k =
          counted-HasAdmin make s₁ (λ s₂ l. made-HasAdmin generate (admin_name username) _ now s₂ l)
            k
      from (err constraint, s₁) same k = cc
      from (err engine, s₁) same k = cc
      from (err unsupported_field, s₁) same k = cc
