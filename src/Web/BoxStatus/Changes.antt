-- ===== src/Web/BoxStatus/Changes.antt =====
-- What the messages of a round say of each box, the last one counting.
use callfxo.Prelude.{
  if_both, Bool, true, false, Option, none, some, [], ◌∷◌, ◌++◌, ◌≡◌, refl, arith, ap, sym, subst,
  ◌∙◌, if◌then◌else◌, Bool-cases, inl, inr, if_of_true, if_of_false,
}
use mathlib.Core.Option.{some-injective}
use callfxo.Prelude.Integers.{ℤ}
use callfxo.Prelude.Equality.{◌==◌, int_eq, ==_iff}
use callfxo.Prelude.GoMap.{GoMap, lookup}
use callfxo.Prelude.Rows.{exists, Unique}
use callfxo.Web.Events.{BoxRuntimeState}
use callfxo.Web.BoxStatus.{bool_beq, same_state, changed, off, is_there, vanished, box_changes}

abbrev pub States : Type 0
States = GoMap ℤ BoxRuntimeState

abbrev pub shown_state : Option BoxRuntimeState → BoxRuntimeState
shown_state none = off
shown_state (some state) = state

-- The last status of a box in a list of messages, and else what was there.
unfoldable pub last : ℤ → States → Option BoxRuntimeState → Option BoxRuntimeState
last id [] o = o
last id ((k, state) ∷ rest) o = last id rest (if k == id then some state else o)

last-append :
    (id : ℤ) (a b : States) (o : Option BoxRuntimeState)
    → last id (a ++ b) o ≡ last id b (last id a o)
unfolding last
last-append id [] b o = refl
last-append id ((k, state) ∷ a) b o = last-append id a b (if k == id then some state else o)

-- A list of keys that does not have the one that is looked for.
last-absent :
    (id : ℤ) (a : States) (o : Option BoxRuntimeState)
    → exists (λ (p : ℤ × BoxRuntimeState). p.0 == id) a ≡ false
    → last id a o ≡ o
unfolding last exists
last-absent id [] o h = refl
last-absent id ((k, state) ∷ a) o h = ground (arith, last-absent id a o)

-- Nothing is said of a box that is not there now.
changed-absent :
    (id : ℤ) (old now : States) (o : Option BoxRuntimeState)
    → lookup id now ≡ none
    → last id (changed old now) o ≡ o
unfolding last changed lookup
changed-absent id old [] o h = refl
changed-absent id old ((k, state) ∷ now) o h =
    ground (arith, changed-absent id old now o, changed-absent id old now (some state))

vanished-there :
    (id : ℤ) (now old : States) (o : Option BoxRuntimeState)
    → is_there (lookup id now) ≡ true
    → last id (vanished now old) o ≡ o
unfolding last vanished
vanished-there id now [] o h = refl
vanished-there id now ((k, state) ∷ old) o h =
    ground (arith, vanished-there id now old o, vanished-there id now old (some off), ==_iff k id)

lookup-absent :
    (id : ℤ) (m : States)
    → exists (λ (p : ℤ × BoxRuntimeState). p.0 == id) m ≡ false
    → lookup id m ≡ none
unfolding lookup exists
lookup-absent id [] h = refl
lookup-absent id ((k, state) ∷ m) h = ground (arith, lookup-absent id m)

lookup-nil : (id : ℤ) → lookup {V = BoxRuntimeState} id [] ≡ none
unfolding lookup
lookup-nil id = refl

changed-here :
    (k : ℤ) (old now : States) (o : Option BoxRuntimeState) (st : BoxRuntimeState)
    → exists (λ (p : ℤ × BoxRuntimeState). p.0 == k) now ≡ false
    → last k (changed old ((k, st) ∷ now)) o ≡ (if same_state (lookup k old) st then o else some st)
unfolding last changed
changed-here k old now o st fresh =
    let gone = lookup-absent k now fresh in
    elim (Bool-cases (same_state (lookup k old) st)) [
      | inl same ↦ rw same (changed-absent k old now o gone)
      | inr differs ↦ rw differs (
          ap (λ (x : Option BoxRuntimeState). last k (changed old now) x)
            (if_of_true _ _ ((==_iff k k).1 refl))
          ∙ changed-absent k old now (some st) gone)
    ]

changed-other :
    (id k : ℤ) (old now : States) (o : Option BoxRuntimeState) (st : BoxRuntimeState)
    → (k == id) ≡ false
    → last id (changed old ((k, st) ∷ now)) o ≡ last id (changed old now) o
unfolding last changed
changed-other id k old now o st other = elim (Bool-cases (same_state (lookup k old) st)) [
  | inl same ↦ rw same refl
  | inr differs ↦
      rw differs
        (ap (λ (x : Option BoxRuntimeState). last id (changed old now) x) (if_of_false _ _ other))
]

lookup-here :
    (id k : ℤ) (st : BoxRuntimeState) (m : States)
    → lookup id ((k, st) ∷ m) ≡ (if k == id then some st else lookup id m)
unfolding lookup
lookup-here id k st m = refl

changed-there :
    (id : ℤ) (old now : States) (o : Option BoxRuntimeState) (state : BoxRuntimeState)
    → Unique (λ (p : ℤ × BoxRuntimeState). p.0) now
    → lookup id now ≡ some state
    → last id (changed old now) o ≡ (if same_state (lookup id old) state then o else some state)
changed-there id old [] o state u h = cc (lookup-nil id, h)
changed-there id old ((k, st) ∷ now) o state (fresh, u) h = elim (Bool-cases (k == id)) [
  | inl here ↦
      let it : st ≡ state =
        some-injective st state (sym (if_of_true _ _ here) ∙ sym (lookup-here id k st now) ∙ h) in
      subst
        (λ (j : ℤ).
          last j (changed old ((k, st) ∷ now)) o
          ≡ (if same_state (lookup j old) state then o else some state))
        ((==_iff k id).0 here)
        (changed-here k old now o st fresh
          ∙ ap (λ (x : BoxRuntimeState). if same_state (lookup k old) x then o else some x) it)
  | inr other ↦
      changed-other id k old now o st other
      ∙ changed-there id old now o state u
          (sym (if_of_false _ _ other) ∙ sym (lookup-here id k st now) ∙ h)
]

vanished-absent :
    (id : ℤ) (now old : States) (o : Option BoxRuntimeState)
    → lookup id now ≡ none
    → last id (vanished now old) o ≡ (if is_there (lookup id old) then some off else o)
unfolding last vanished
vanished-absent id now [] o h =
    sym (ap (λ (x : Option BoxRuntimeState). if is_there x then some off else o) (lookup-nil id))
vanished-absent id now ((k, state) ∷ old) o h = elim (Bool-cases (k == id)) [
  | inl here ↦
      let same : k ≡ id = (==_iff k id).0 here in
      let gone : lookup k now ≡ none = ap (λ (j : ℤ). lookup j now) same ∙ h in
      let shown_here : lookup id ((k, state) ∷ old) ≡ some state =
        lookup-here id k state old ∙ if_of_true _ _ here in
      rw (gone, shown_here, here)
        (vanished-absent id now old (some off) h
          ∙ if_both (λ (x : Option BoxRuntimeState). x ≡ some off) (is_there (lookup id old)) refl
              refl)
  | inr other ↦
      let shown_here : lookup id ((k, state) ∷ old) ≡ lookup id old =
        lookup-here id k state old ∙ if_of_false _ _ other in
      rw shown_here (
        if_both (λ (x : States). last id x o ≡ (if is_there (lookup id old) then some off else o))
          (is_there (lookup k now)) (vanished-absent id now old o h)
          (ap (last id (vanished now old)) (if_of_false _ _ other)
            ∙ vanished-absent id now old o h))
]

bool_beq-eq : (a b : Bool) → bool_beq a b ≡ true → a ≡ b
bool_beq-eq true true h = refl
bool_beq-eq true false h = cc
bool_beq-eq false true h = cc
bool_beq-eq false false h = refl

same_state-eq :
    (o : Option BoxRuntimeState) (state : BoxRuntimeState)
    → same_state o state ≡ true
    → shown_state o ≡ state
same_state-eq none state h = cc
same_state-eq (some old) state h =
    ground (arith, bool_beq-eq old.online state.online, bool_beq-eq old.in_use state.in_use)

off_or : (o : Option BoxRuntimeState) → shown_state (if is_there o then some off else o) ≡ off
off_or none = refl
off_or (some state) = refl

-- The last message on a box, or else what was known of it, shows the box as it is now.
pub changes-shown :
    (id : ℤ) (old now : States) (o : Option BoxRuntimeState)
    → Unique (λ (p : ℤ × BoxRuntimeState). p.0) now
    → lookup id now ≡ o
    → shown_state (last id (box_changes old now) (lookup id old)) ≡ shown_state o
unfolding box_changes
changes-shown id old now none u h =
    ap shown_state (
      last-append id (changed old now) (vanished now old) (lookup id old)
      ∙ ap (last id (vanished now old)) (changed-absent id old now (lookup id old) h)
      ∙ vanished-absent id now old (lookup id old) h)
    ∙ off_or (lookup id old)
changes-shown id old now (some state) u h =
    ap shown_state (
      last-append id (changed old now) (vanished now old) (lookup id old)
      ∙ vanished-there id now old (last id (changed old now) (lookup id old)) (ap is_there h)
      ∙ changed-there id old now (lookup id old) state u h)
    ∙ elim (Bool-cases (same_state (lookup id old) state)) [
      | inl same ↦ ap shown_state (if_of_true _ _ same) ∙ same_state-eq (lookup id old) state same
      | inr differs ↦ ap shown_state (if_of_false _ _ differs)
    ]
