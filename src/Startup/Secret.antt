-- ===== src/Startup/Secret.antt =====
-- ensureSessionSecret: the secret that one start returns is the one that the next returns.
use callfxo.Prelude.{
  ℕ, Bool, true, false, Option, none, some, List, [], ◌∷◌, ◌++◌, ◌≡◌, refl, arith, ap, sym, ◌∙◌,
  is_nil, Bool-cases, if_of_true, if_of_false, inl, inr, subst,
}
use callfxo.Prelude.Equality.{◌==◌, nat_eq, list_eq, beq_refl}
use callfxo.Prelude.Rows.{update_where, first, exists}
use callfxo.Text.{Text, trim_space}
use callfxo.Store.Schema.{
  Setting, Tables, Store, not_found, constraint, engine, unsupported_field, Result, ok, err,
  continue, pure, read, found,
}
use callfxo.Store.Statements.{
  statement-eq-ok, read-eq-ok, >>=-eq-ok, found-injective, ok-injective, read_healthy,
}
use callfxo.Store.Settings.{get_setting, put_setting, upsert_setting}
use callfxo.Startup.{
  Start, ready, failed, setting_auth_session_secret_key, stored_secret, make_secret, secret_from,
  ensure_session_secret,
}

setting_of : Text → Tables → Option Setting
setting_of key t = first (λ (r : Setting). r.key == key) t.settings

module _ (new : Setting) where
  same_key : (new.key == new.key) ≡ true
  same_key = beq_refl list_eq new.key

  first-overwritten :
      (rs : List Setting)
      → exists (λ (r : Setting). r.key == new.key) rs ≡ true
      → first
          (λ (r : Setting). r.key == new.key)
          (update_where (λ (r : Setting). r.key == new.key) (λ r. new) rs)
        ≡ some new
  unfolding first exists update_where
  first-overwritten [] h = cc
  first-overwritten (r ∷ rs) h = ground (arith, same_key, first-overwritten rs)

  first-appended :
      (rs : List Setting)
      → exists (λ (r : Setting). r.key == new.key) rs ≡ false
      → first (λ (r : Setting). r.key == new.key) (rs ++ new ∷ []) ≡ some new
  unfolding first exists
  first-appended [] h = if_of_true _ _ same_key
  first-appended (r ∷ rs) h = ground (arith, first-appended rs)

  -- A stored setting is read back.
  setting_of-put : (t : Tables) → setting_of new.key (put_setting new t) ≡ some new
  unfolding setting_of put_setting
  setting_of-put t = elim (Bool-cases (exists (λ (r : Setting). r.key == new.key) t.settings)) [
    | inl old ↦ rw old (first-overwritten t.settings old)
    | inr fresh ↦ rw fresh (first-appended t.settings fresh)
  ]

-- What GetSetting answers where the engine does not fail.
get_setting-healthy :
    (key : Text) (s : Store) (r : Setting)
    → s.faults ≡ []
    → setting_of key s.tables ≡ some r
    → get_setting key s ≡ (ok r.value, s)
unfolding get_setting setting_of
get_setting-healthy key s r f h =
    ap (λ (p : Result Setting × Store). continue p.0 (λ (r : Setting). pure r.value) p.1)
      (read_healthy (λ t. found (setting_of key t)) s f)
    ∙ rw h refl

-- The secret is there.
Holds : Text → Store → Type 0
Holds v s =
    (r : Setting) × (setting_of setting_auth_session_secret_key s.tables ≡ some r)
    × (trim_space r.value ≡ v)
    × (is_nil v ≡ false)

again :
    (random : Option Text) (now : ℕ) (s : Store) (v : Text)
    → Holds v s
    → s.faults ≡ []
    → ensure_session_secret random now s ≡ (ready (v, false), s)
unfolding Holds ensure_session_secret
again random now s v (r, at, same, there) f =
    ap (secret_from random now) (get_setting-healthy setting_auth_session_secret_key s r f at)
    ∙ rw (same, there) refl

reads : Text → Tables → Result Setting
reads key t = found (setting_of key t)

found-Holds :
    (s s₁ : Store) (value : Text)
    → get_setting setting_auth_session_secret_key s ≡ (ok value, s₁)
    → is_nil (trim_space value) ≡ false
    → Holds (trim_space value) s₁
unfolding get_setting Holds setting_of reads
found-Holds s s₁ value h there =
    let (r, s₂, looked, done) =
      >>=-eq-ok (read (reads setting_auth_session_secret_key)) (λ r. pure r.value) s h in
    let (at, kept) = read-eq-ok (reads setting_auth_session_secret_key) s looked in
    let same : s₂ ≡ s₁ = ap (λ (q : Result Text × Store). q.1) done in
    (
      r,
      subst (λ (x : Store). setting_of setting_auth_session_secret_key x.tables ≡ some r) same
          (ap (setting_of setting_auth_session_secret_key) kept ∙ found-injective at),
      ap trim_space (ok-injective (ap (λ (q : Result Text × Store). q.0) done)),
      there,
    )

word_of : Start (Text × Bool) → Text
word_of (ready p) = p.0
word_of (failed e) = []

moved :
    {v : Text} {g : Bool} {s' : Store} (w : Text) (b : Bool) (s₁ : Store)
    → ◌≡◌ {A = Start (Text × Bool) × Store} (ready (w, b), s₁) (ready (v, g), s')
    → Holds w s₁
    → Holds v s'
unfolding word_of
moved w b s₁ e h =
    subst (λ (q : Text × Store). Holds q.0 q.1)
      (ap (λ (q : Start (Text × Bool) × Store). (word_of q.0, q.1)) e) h

module _ {v : Text} {g : Bool} {s' : Store} where
  made-Holds :
      (random : Option Text) (now : ℕ) (s : Store)
      → ((t : Text) → random ≡ some t → (trim_space t ≡ t) × (is_nil t ≡ false))
      → make_secret random now s ≡ (ready (v, g), s')
      → Holds v s'
  unfolding make_secret upsert_setting Holds
  made-Holds none now s law h = cc
  made-Holds (some t) now s law h =
      from (upsert_setting setting_auth_session_secret_key t now s) refl h
    where
      from :
          (r : Result (Unit {0}) × Store)
          → upsert_setting setting_auth_session_secret_key t now s ≡ r
          → stored_secret t r ≡ (ready (v, g), s')
          → Holds v s'
      from (err e, s₁) same k = cc
      from (ok u, s₁) same k =
          let new : Setting = record {
            key = setting_auth_session_secret_key;
            value = t;
            updated_at = now;
          } in
          let put =
            ap (λ (q : Result (Unit {0}) × Tables). q.1)
              (statement-eq-ok (λ t. (ok tt, put_setting new t)) s same) in
          moved t true s₁ k (
            new,
            ap (setting_of setting_auth_session_secret_key) (sym put) ∙ setting_of-put new s.tables,
            (law t refl).0,
            (law t refl).1,
          )

  -- The secret that one start returns is the secret that the next start returns, without making another
  -- and without a change to the store, where the engine does not fail on it and a random token is neither
  -- empty nor has blanks around it.
  pub ensure_session_secret_twice :
      (random random' : Option Text) (now now' : ℕ) (s : Store)
      → ((t : Text) → random ≡ some t → (trim_space t ≡ t) × (is_nil t ≡ false))
      → s'.faults ≡ []
      → ensure_session_secret random now s ≡ (ready (v, g), s')
      → ensure_session_secret random' now' s' ≡ (ready (v, false), s')
  unfolding ensure_session_secret
  ensure_session_secret_twice random random' now now' s law f h =
      again random' now' s' v (from (get_setting setting_auth_session_secret_key s) refl h) f
    where
      from :
          (r : Result Text × Store)
          → get_setting setting_auth_session_secret_key s ≡ r
          → secret_from random now r ≡ (ready (v, g), s')
          → Holds v s'
      from (ok value, s₁) same k = elim (Bool-cases (is_nil (trim_space value))) [
        | inl blank ↦ made-Holds random now s₁ law (sym (if_of_true _ _ blank) ∙ k)
        | inr there ↦
            let e : ◌≡◌ {A = Start (Text × Bool) × Store} (ready (trim_space value, false), s₁)
                (ready (v, g), s') =
              sym (if_of_false _ _ there) ∙ k in
            moved _ false s₁ e (found-Holds s s₁ value same there)
      ]
      from (err not_found, s₁) same k = made-Holds random now s₁ law k
      from (err constraint, s₁) same k = cc
      from (err engine, s₁) same k = cc
      from (err unsupported_field, s₁) same k = cc
