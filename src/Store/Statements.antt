-- ===== src/Store/Statements.antt =====
-- What can be read off a statement or a block of internal/store/store.go that returned.
use callfxo.Prelude.{
  Bool, true, false, Option, none, some, List, [], ◌∷◌, ◌≡◌, refl, arith, ap, sym, ◌∙◌,
}
use callfxo.Store.Schema.{
  Tables, Store, Error, engine, Result, ok, err, Action, ◌>>=◌, continue, run_statement, statement,
  read, found, pure, or_not_found,
}

module _ {A : Type 0} where
  ok_or : A → Result A → A
  ok_or a (ok b) = b
  ok_or a (err e) = a

  pub ok-injective : {a b : A} → ok a ≡ ok b → a ≡ b
  unfolding ok_or
  ok-injective {a} h = ap (ok_or a) h

  run_statement-eq-ok :
      (fs : List Bool) (q : Tables → Result A × Tables) (t : Tables) {a : A} {s' : Store}
      → run_statement fs q t ≡ (ok a, s')
      → q t ≡ (ok a, s'.tables)
  run_statement-eq-ok [] q t h = ground arith
  run_statement-eq-ok (false ∷ fs) q t h = ground arith
  run_statement-eq-ok (true ∷ fs) q t h = cc

  -- A statement that succeeds did what its text says.
  pub statement-eq-ok :
      (q : Tables → Result A × Tables) (s : Store) {a : A} {s' : Store}
      → statement q s ≡ (ok a, s')
      → q s.tables ≡ (ok a, s'.tables)
  unfolding statement
  statement-eq-ok q s h = run_statement-eq-ok s.faults q s.tables h

  pub read-eq-ok :
      (q : Tables → Result A) (s : Store) {a : A} {s' : Store}
      → read q s ≡ (ok a, s')
      → (q s.tables ≡ ok a) × (s'.tables ≡ s.tables)
  unfolding read
  read-eq-ok q s h =
      let e = statement-eq-ok (λ t. (q t, t)) s h in
      (ap (λ (p : Result A × Tables). p.0) e, sym (ap (λ (p : Result A × Tables). p.1) e))

  run_statement_keeps :
      (fs : List Bool) (q : Tables → Result A) (t : Tables)
      → (run_statement fs (λ t. (q t, t)) t).1.tables ≡ t
  run_statement_keeps [] q t = refl
  run_statement_keeps (false ∷ fs) q t = refl
  run_statement_keeps (true ∷ fs) q t = refl

  -- A statement that only reads leaves the tables as they were.
  pub read-keeps : (q : Tables → Result A) (s : Store) → (read q s).1.tables ≡ s.tables
  unfolding read statement
  read-keeps q s = run_statement_keeps s.faults q s.tables

  run_healthy :
      (fs : List Bool) (q : Tables → Result A) (t : Tables)
      → fs ≡ []
      → run_statement fs (λ t. (q t, t)) t ≡ (q t, record { tables = t; faults = fs })
  run_healthy [] q t h = refl
  run_healthy (f ∷ fs) q t h = cc

  run_all_healthy :
      (fs : List Bool) (q : Tables → Result A × Tables) (t : Tables)
      → fs ≡ []
      → run_statement fs q t ≡ ((q t).0, record { tables = (q t).1; faults = [] })
  run_all_healthy [] q t h = refl
  run_all_healthy (f ∷ fs) q t h = cc

  -- Where the engine does not fail, a statement does what its text says.
  pub statement_healthy :
      (q : Tables → Result A × Tables) (s : Store)
      → s.faults ≡ []
      → statement q s ≡ ((q s.tables).0, record { tables = (q s.tables).1; faults = [] })
  unfolding statement
  statement_healthy q s h = run_all_healthy s.faults q s.tables h

  -- Where the engine does not fail, a statement that reads returns what it reads.
  pub read_healthy :
      (q : Tables → Result A) (s : Store) → s.faults ≡ [] → read q s ≡ (q s.tables, s)
  unfolding read statement
  read_healthy q s h = run_healthy s.faults q s.tables h

  pub found-injective : {o : Option A} {a : A} → found o ≡ ok a → o ≡ some a
  found-injective {o = none} h = cc
  found-injective {o = some b} h = ap some (ok-injective h)

  run_statement-eq-err :
      (fs : List Bool) (q : Tables → A) (t : Tables) {e : Error} {s' : Store}
      → run_statement fs (λ t. (ok (q t), t)) t ≡ (err e, s')
      → (e ≡ engine) × (s'.tables ≡ t)
  run_statement-eq-err [] q t h = cc
  run_statement-eq-err (false ∷ fs) q t h = cc
  run_statement-eq-err (true ∷ fs) q t h = (cc, sym (ap (λ (p : Result A × Store). (p.1).tables) h))

  -- A statement that only fails where the engine does, and changes nothing.
  pub statement-eq-err :
      (q : Tables → A) (s : Store) {e : Error} {s' : Store}
      → statement (λ t. (ok (q t), t)) s ≡ (err e, s')
      → (e ≡ engine) × (s'.tables ≡ s.tables)
  unfolding statement
  statement-eq-err q s h = run_statement-eq-err s.faults q s.tables h

-- An UPDATE or DELETE that succeeds found a row.
pub or_not_found-eq-ok :
    (b : Bool) (new old : Tables) {u : Unit {0}} {t : Tables}
    → or_not_found b new old ≡ (ok u, t)
    → (b ≡ true) × (new ≡ t)
or_not_found-eq-ok true new old h = (refl, ap (λ (p : Result (Unit {0}) × Tables). p.1) h)
or_not_found-eq-ok false new old h = cc

module _ {A B : Type 0} where
  continue-eq-ok :
      (r : Result A) (f : A → Action B) (s : Store) {b : B} {s' : Store}
      → continue r f s ≡ (ok b, s')
      → (a : A) × (r ≡ ok a) × (f a s ≡ (ok b, s'))
  continue-eq-ok (ok a) f s h = (a, refl, h)
  continue-eq-ok (err e) f s h = cc

  -- A block that succeeds passed through a result of its first part.
  pub >>=-eq-ok :
      (m : Action A) (f : A → Action B) (s : Store) {b : B} {s' : Store}
      → (m >>= f) s ≡ (ok b, s')
      → (a : A) × (s₁ : Store) × (m s ≡ (ok a, s₁)) × (f a s₁ ≡ (ok b, s'))
  >>=-eq-ok m f s h =
      let (a, e, k) = continue-eq-ok (m s).0 f (m s).1 h in
      (a, (m s).1, ap (λ (r : Result A). (r, (m s).1)) e, k)

module _ {A B : Type 0} (q : Tables → Result A) (f : A → B) where
  mapped-store : (r : Result A) (s : Store) → (continue r (λ a. pure (f a)) s).1 ≡ s
  mapped-store (ok a) s = refl
  mapped-store (err e) s = refl

  -- A query whose result is converted.
  pub mapped-keeps : (s : Store) → ((read q >>= λ a. pure (f a)) s).1.tables ≡ s.tables
  mapped-keeps s =
      ap (λ (x : Store). x.tables) (mapped-store (read q s).0 (read q s).1) ∙ read-keeps q s

  pub mapped-faults : (s : Store) → s.faults ≡ [] → ((read q >>= λ a. pure (f a)) s).1.faults ≡ []
  mapped-faults s h =
      ap (λ (x : Store). x.faults) (mapped-store (read q s).0 (read q s).1)
      ∙ ap (λ (p : Result A × Store). (p.1).faults) (read_healthy q s h)
      ∙ h
