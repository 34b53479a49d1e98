-- ===== src/Prelude/Rows.antt =====
-- A table as the list of its rows, with what a WHERE clause does to it.
use Prim.Native.Nat.{ℕ, suc}
use mathlib.Core.Path.{◌≡◌, refl}
use mathlib.Core.Bool.{Bool, true, false}
use mathlib.Core.Option.{Option, none, some}
use mathlib.Core.List.{List, [], ◌∷◌, ◌++◌}
use native.Mathlib.Omega.{arith}
use callfxo.Prelude.Tests.{if◌then◌else◌, nat_beq, is_some, Bool-cases}
use mathlib.Core.Logic.{inl, inr}
use callfxo.Prelude.Equality.{Eq, ◌==◌}

module _ {ℓ} {A : Type ℓ} where
  unfoldable pub select : (A → Bool) → List A → List A
  select test [] = []
  select test (x ∷ xs) = let rest = select test xs in if test x then x ∷ rest else rest

  unfoldable pub delete_where : (A → Bool) → List A → List A
  delete_where test [] = []
  delete_where test (x ∷ xs) = let rest = delete_where test xs in if test x then rest else x ∷ rest

  unfoldable pub update_where : (A → Bool) → (A → A) → List A → List A
  update_where test f [] = []
  update_where test f (x ∷ xs) = (if test x then f x else x) ∷ update_where test f xs

  unfoldable pub first : (A → Bool) → List A → Option A
  first test [] = none
  first test (x ∷ xs) = if test x then some x else first test xs

  unfoldable pub exists : (A → Bool) → List A → Bool
  exists test [] = false
  exists test (x ∷ xs) = if test x then true else exists test xs

  unfoldable pub count_where : (A → Bool) → List A → ℕ
  count_where test [] = 0
  count_where test (x ∷ xs) = let rest = count_where test xs in if test x then suc rest else rest

  pub exists-delete_where :
      (test : A → Bool) (xs : List A) → exists test (delete_where test xs) ≡ false
  unfolding exists delete_where
  exists-delete_where test [] = refl
  exists-delete_where test (x ∷ xs) = ground (arith, exists-delete_where test xs)

  pub first-append :
      (test : A → Bool) (xs ys : List A)
      → first test (xs ++ ys) ≡ (if exists test xs then first test xs else first test ys)
  unfolding first exists
  first-append test [] ys = refl
  first-append test (x ∷ xs) ys = ground (arith, first-append test xs ys)

  pub exists-append :
      (test : A → Bool) (xs ys : List A)
      → exists test (xs ++ ys) ≡ (if exists test xs then true else exists test ys)
  unfolding exists
  exists-append test [] ys = refl
  exists-append test (x ∷ xs) ys = ground (arith, exists-append test xs ys)

  pub count_where-pos :
      (test : A → Bool) (xs : List A)
      → exists test xs ≡ (if nat_beq (count_where test xs) 0 then false else true)
  unfolding exists count_where
  count_where-pos test [] = refl
  count_where-pos test (x ∷ xs) = ground (arith, count_where-pos test xs)

  pub delete_where_twice :
      (test : A → Bool) (xs : List A)
      → delete_where test (delete_where test xs) ≡ delete_where test xs
  unfolding delete_where
  delete_where_twice test [] = refl
  delete_where_twice test (x ∷ xs) = ground (arith, delete_where_twice test xs)

  -- What INSERT … ON CONFLICT(key) DO UPDATE leaves of one row.
  abbrev pub overwrite : A → (A → A) → Option A → A
  overwrite new f none = new
  overwrite new f (some old) = f old

  -- At most one row holds each key.
  abbrev pub Unique {κ} : {K : Type κ} ⦃e : Eq K⦄ → (A → K) → List A → Type 0
  Unique key [] = Unit
  Unique key (x ∷ xs) = (exists (λ y. key y == key x) xs ≡ false) × Unique key xs

module _ {ℓ κ} {A : Type ℓ} {K : Type κ} ⦃e : Eq K⦄ (key : A → K) where
  pub exists-update_where :
      (k : K) (test : A → Bool) (f : A → A) (xs : List A)
      → ((x : A) → key (f x) ≡ key x)
      → exists (λ x. key x == k) (update_where test f xs) ≡ exists (λ x. key x == k) xs
  unfolding exists update_where
  exists-update_where k test f [] h = refl
  exists-update_where k test f (x ∷ xs) h = ground (arith, h x, exists-update_where k test f xs h)

  pub Unique-update_where :
      (test : A → Bool) (f : A → A) (xs : List A)
      → ((x : A) → key (f x) ≡ key x)
      → Unique key xs
      → Unique key (update_where test f xs)
  unfolding update_where
  Unique-update_where test f [] h u = tt
  Unique-update_where test f (x ∷ xs) h u =
      ground
        (arith, h x, exists-update_where (key x) test f xs h, Unique-update_where test f xs h u.1)

  pub exists-delete_where_le :
      (k : K) (test : A → Bool) (xs : List A)
      → exists (λ x. key x == k) xs ≡ false
      → exists (λ x. key x == k) (delete_where test xs) ≡ false
  unfolding exists delete_where
  exists-delete_where_le k test [] h = refl
  exists-delete_where_le k test (x ∷ xs) h = ground (arith, exists-delete_where_le k test xs)

  pub Unique-delete_where :
      (test : A → Bool) (xs : List A) → Unique key xs → Unique key (delete_where test xs)
  unfolding delete_where
  Unique-delete_where test [] u = tt
  Unique-delete_where test (x ∷ xs) u =
      ground (arith, exists-delete_where_le (key x) test xs, Unique-delete_where test xs u.1)

  pub Unique-append :
      (xs : List A) (y : A)
      → Unique key xs
      → exists (λ x. key x == key y) xs ≡ false
      → Unique key (xs ++ y ∷ [])
  unfolding exists
  Unique-append [] y u h = (refl, tt)
  Unique-append (x ∷ xs) y u h = ground (
    arith,
    e.beq_iff (key x) (key y),
    e.beq_iff (key y) (key x),
    exists-append (λ z. key z == key x) xs (y ∷ []),
    Unique-append xs y u.1,
  )

  first-update_where :
      (k j : K) (f : A → A) (xs : List A)
      → ((x : A) → key (f x) ≡ key x)
      → first (λ x. key x == j) (update_where (λ x. key x == k) f xs) ≡ (
          if k == j
          then elim (first (λ x. key x == k) xs) [ none ↦ none | some x ↦ some (f x) ]
          else first (λ x. key x == j) xs)
  unfolding first update_where
  first-update_where k j f [] h = ground arith
  first-update_where k j f (x ∷ xs) h = ground (
    arith,
    h x,
    first-update_where k j f xs h,
    e.beq_iff k j,
    e.beq_iff (key x) k,
    e.beq_iff (key x) j,
  )

  first-append_row :
      (new : A) (j : K) (xs : List A)
      → exists (λ x. key x == key new) xs ≡ false
      → first (λ x. key x == j) (xs ++ new ∷ [])
        ≡ (if key new == j then some new else first (λ x. key x == j) xs)
  unfolding first exists
  first-append_row new j [] h = refl
  first-append_row new j (x ∷ xs) h = ground (
    arith,
    first-append_row new j xs,
    e.beq_iff (key new) j,
    e.beq_iff (key x) (key new),
    e.beq_iff (key x) j,
  )

  pub exists-eq-is_some : (test : A → Bool) (xs : List A) → exists test xs ≡ is_some (first test xs)
  unfolding exists first
  exists-eq-is_some test [] = refl
  exists-eq-is_some test (x ∷ xs) = ground (arith, exists-eq-is_some test xs)

  -- The rows after it, found by their key.
  pub first-upsert :
      (new : A) (f : A → A) (j : K) (xs : List A)
      → ((x : A) → key (f x) ≡ key x)
      → first
          (λ x. key x == j)
          (if exists (λ x. key x == key new) xs
            then update_where (λ x. key x == key new) f xs
            else xs ++ new ∷ [])
        ≡ (if key new == j
            then some (overwrite new f (first (λ x. key x == key new) xs))
            else first (λ x. key x == j) xs)
  first-upsert new f j xs h = elim (Bool-cases (exists (λ x. key x == key new) xs)) [
    | inl old ↦
        rw (old, first-update_where (key new) j f xs h)
          (ground (arith, exists-eq-is_some (λ x. key x == key new) xs))
    | inr fresh ↦
        rw (fresh, first-append_row new j xs fresh)
          (ground (arith, exists-eq-is_some (λ x. key x == key new) xs))
  ]
