-- ===== src/Prelude/GoMap.antt =====
-- A Go map as an association list: read, write and `delete`.
use mathlib.Core.Path.{◌≡◌, refl}
use mathlib.Core.Bool.{Bool, false}
use mathlib.Core.Option.{Option, none, some}
use mathlib.Core.List.{List, [], ◌∷◌}
use native.Mathlib.Omega.{arith}
use callfxo.Prelude.Tests.{if◌then◌else◌}
use callfxo.Prelude.Equality.{Eq, ◌==◌}

abbrev pub GoMap {ℓ κ} : Type ℓ → Type κ → Type (ℓ ⊔ κ)
GoMap K V = List (K × V)

module _ {ℓ κ} {K : Type ℓ} {V : Type κ} ⦃e : Eq K⦄ where
  unfoldable pub lookup : K → GoMap K V → Option V
  lookup key [] = none
  lookup key ((k, value) ∷ rest) = if k == key then some value else lookup key rest

  unfoldable pub insert : K → V → GoMap K V → GoMap K V
  insert k v [] = (k, v) ∷ []
  insert k v ((j, w) ∷ m) = if j == k then (k, v) ∷ m else (j, w) ∷ insert k v m

  unfoldable pub remove : K → GoMap K V → GoMap K V
  remove k [] = []
  remove k ((j, v) ∷ m) = let rest = remove k m in if j == k then rest else (j, v) ∷ rest

  -- `for k, v := range m { if test(v) { delete(m, k) } }`
  unfoldable pub remove_values : (V → Bool) → GoMap K V → GoMap K V
  remove_values test [] = []
  remove_values test ((j, v) ∷ m) =
      let rest = remove_values test m in if test v then rest else (j, v) ∷ rest

  pub lookup-insert :
      (new key : K) (value : V) (m : GoMap K V)
      → lookup key (insert new value m) ≡ (if new == key then some value else lookup key m)
  unfolding insert lookup
  lookup-insert new key value [] = refl
  lookup-insert new key value ((old, w) ∷ rest) = ground (
    arith,
    lookup-insert new key value rest,
    e.beq_iff new key,
    e.beq_iff old new,
    e.beq_iff old key,
  )

  pub lookup-remove :
      (k j : K) (m : GoMap K V) → lookup j (remove k m) ≡ (if k == j then none else lookup j m)
  unfolding lookup remove
  lookup-remove k j [] = ground arith
  lookup-remove k j ((i, w) ∷ m) =
      ground (arith, lookup-remove k j m, e.beq_iff i k, e.beq_iff i j, e.beq_iff k j)

  pub lookup-insert_self : (k : K) (v : V) (m : GoMap K V) → lookup k (insert k v m) ≡ some v
  lookup-insert_self k v m = rw lookup-insert (ground (arith, e.beq_iff k k))

  pub lookup-remove_self : (k : K) (m : GoMap K V) → lookup k (remove k m) ≡ none
  lookup-remove_self k m = rw lookup-remove (ground (arith, e.beq_iff k k))

  -- What is left under a key fails the test.
  pub lookup-remove_values :
      (test : V → Bool) (k : K) (m : GoMap K V) {v : V}
      → lookup k (remove_values test m) ≡ some v
      → test v ≡ false
  unfolding lookup remove_values
  lookup-remove_values test k [] h = cc
  lookup-remove_values test k ((j, w) ∷ m) {v} h =
      ground (arith, lookup-remove_values test k m {v = v})
