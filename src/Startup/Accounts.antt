-- ===== src/Startup/Accounts.antt =====
-- The rows of the accounts that read as an administrator's, through what the start does to them.
use callfxo.Prelude.{
  ℕ, suc, Bool, true, false, ◌||◌, Option, none, some, List, [], ◌∷◌, ◌++◌, ◌≡◌, refl, arith, ap,
  sym, ◌∙◌, ltb, is_nil, if◌then◌else◌, Bool-cases, if_of_true, if_of_false, inl, inr, subst,
  if_both,
}
use mathlib.Core.Option.{some-injective}
use callfxo.Prelude.Integers.{pos}
use callfxo.Prelude.Equality.{◌==◌, nat_eq, list_eq, ==_iff}
use callfxo.Prelude.Rows.{update_where, first, exists, exists-append}
use callfxo.Text.{Text, trim_space}
use callfxo.Store.Schema.{
  User, UserCredential, Tables, Store, Result, ok, normalize_role, role_admin,
}
use callfxo.Store.Users.{insert_user}

-- The account reads as an administrator's.
abbrev pub is_admin : UserCredential → Bool
is_admin u = normalize_role u.role == role_admin

admin_role : (normalize_role role_admin == role_admin) ≡ true
unfolding normalize_role callfxo.Text.to_lower trim_space callfxo.Text.is_space
    callfxo.Prelude.Equality.list_beq
admin_role = refl

is_admin_of_role : (u : UserCredential) → (u.role == role_admin) ≡ true → is_admin u ≡ true
is_admin_of_role u h =
    subst (λ (r : Text). (normalize_role r == role_admin) ≡ true)
      (sym ((==_iff u.role role_admin).0 h)) admin_role

pub admin_twice : (normalize_role (normalize_role role_admin) == role_admin) ≡ true
admin_twice =
    subst (λ (r : Text). (normalize_role r == role_admin) ≡ true)
      (sym ((==_iff (normalize_role role_admin) role_admin).0 admin_role)) admin_role

module _ (name : Text) where
  pub exists-promote :
      (us : List UserCredential)
      → exists (λ (u : UserCredential). u.username == name) us ≡ true
      → exists is_admin (
          update_where
            (λ (u : UserCredential). u.username == name)
            (λ u. record u { user = record (u.user) { role = normalize_role role_admin } })
            us)
        ≡ true
  unfolding exists update_where
  exists-promote [] h = cc
  exists-promote (u ∷ us) h = elim (Bool-cases (u.username == name)) [
    | inl it ↦ ground (arith, it, admin_twice)
    | inr other ↦ ground (arith, other, exists-promote us (sym (if_of_false _ _ other) ∙ h))
  ]

  pub exists-found :
      (us : List UserCredential) {u : UserCredential}
      → first (λ (u : UserCredential). u.username == name) us ≡ some u
      → is_admin u ≡ true
      → exists is_admin us ≡ true
  unfolding exists first
  exists-found [] h k = cc
  exists-found (v ∷ us) {u} h k = elim (Bool-cases (v.username == name)) [
    | inl it ↦
        let same : v ≡ u = some-injective v u (sym (if_of_true _ _ it) ∙ h) in
        if_of_true _ _ (subst (λ (w : UserCredential). is_admin w ≡ true) (sym same) k)
    | inr other ↦ ground (arith, exists-found us (sym (if_of_false _ _ other) ∙ h) k)
  ]

pub exists-counted :
    (us : List UserCredential)
    → exists (λ (u : UserCredential). u.role == role_admin) us ≡ true
    → exists is_admin us ≡ true
unfolding exists
exists-counted [] h = cc
exists-counted (u ∷ us) h = elim (Bool-cases (u.role == role_admin)) [
  | inl it ↦ if_of_true _ _ (is_admin_of_role u it)
  | inr other ↦ ground (arith, exists-counted us (sym (if_of_false _ _ other) ∙ h))
]

-- Some account of the store reads as an administrator's.
abbrev pub HasAdmin : Store → Type 0
HasAdmin s = exists is_admin s.tables.users ≡ true

pub inserted-HasAdmin :
    (name hash role : Text) (now : ℕ) (t : Tables) {user : User} {t' : Tables}
    → (normalize_role role == role_admin) ≡ true
    → insert_user name hash role now t ≡ (ok user, t')
    → exists is_admin t'.users ≡ true
unfolding insert_user exists
inserted-HasAdmin name hash role now t {t'} a h =
    elim (Bool-cases (exists (λ (u : UserCredential). u.username == name) t.users)) [
      | inl taken ↦ cc (rw taken at h)
      | inr fresh ↦
          let new : UserCredential = record {
            user = record { id = pos t.next_user; username = name; role = role; created_at = now };
            password_hash = hash;
          } in
          let rows : t.users ++ new ∷ [] ≡ t'.users =
            ap (λ (r : Result User × Tables). (r.1).users) (rw fresh at h) in
          subst (λ us. exists is_admin us ≡ true) rows
            (exists-append is_admin t.users (new ∷ [])
              ∙ if_both (λ b. b ≡ true) (exists is_admin t.users) refl (if_of_true _ _ a))
    ]
