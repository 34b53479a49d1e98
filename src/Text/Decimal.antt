-- ===== src/Text/Decimal.antt =====
-- strconv.FormatInt in base 10, against strconv.Atoi.
use callfxo.Prelude.{
  All, ℕ, zero, suc, ◌+◌, ◌*◌, ◌/◌, ◌%◌, ◌^◌, ◌≤◌, ◌<◌, some, [], ◌∷◌, ◌≡◌, refl, arith, ap, ◌∙◌,
  ltb, if◌then◌else◌, Bool-cases, inl, inr,
}
use callfxo.Prelude.Integers.{ℤ, pos, negsuc}
use callfxo.Prelude.Equality.{nat_eq}
use callfxo.Text.{Text}
use callfxo.Text.Parse.{digits, magnitude, atoi}

-- The decimal digits of a number in front of a text; 20 digits hold 64 bits.
unfoldable pub decimal : ℕ → ℕ → Text → Text
decimal zero n acc = acc
decimal (suc fuel) n acc =
    let rest = decimal fuel (n / 10) ((b'0' + n % 10) ∷ acc) in
    if ltb n 10 then (b'0' + n) ∷ acc else rest

unfoldable pub format_int : ℤ → Text
format_int (pos n) = decimal 20 n []
format_int (negsuc n) = b'-' ∷ decimal 20 (suc n) []

digit-value : (m d : ℕ) (s : Text) → d < 10 → digits m ((b'0' + d) ∷ s) ≡ digits (m * 10 + d) s
unfolding digits
digit-value m d s h = ground arith

digits-decimal :
    (fuel n : ℕ) (acc : Text) → n < 10 ^ fuel → digits 0 (decimal fuel n acc) ≡ digits n acc
unfolding decimal
digits-decimal zero n acc h = let e : n ≡ 0 = omega arith in rw e refl
digits-decimal (suc fuel) n acc h = elim (Bool-cases (ltb n 10)) [
  | inl small ↦
      let e : 0 * 10 + n ≡ n = omega arith in
      rw small (digit-value 0 n acc (ground arith) ∙ ap (λ m. digits m acc) e)
  | inr large ↦
      let e : n / 10 * 10 + n % 10 ≡ n = omega arith in
      rw large (
        digits-decimal fuel (n / 10) ((b'0' + n % 10) ∷ acc) (omega arith)
        ∙ digit-value (n / 10) (n % 10) acc (omega arith)
        ∙ ap (λ m. digits m acc) e)
]

-- The text starts with a digit.
abbrev StartsDigit : Text → Type 0
StartsDigit [] = ⊥
StartsDigit (c ∷ s) = (b'0' ≤ c) × (c ≤ b'9')

decimal-StartsDigit : (fuel n : ℕ) (acc : Text) → StartsDigit acc → StartsDigit (decimal fuel n acc)
unfolding decimal
decimal-StartsDigit zero n acc h = h
decimal-StartsDigit (suc fuel) n acc h = elim (Bool-cases (ltb n 10)) [
  | inl small ↦ rw small (ground arith)
  | inr large ↦
      rw large
        (decimal-StartsDigit fuel (n / 10) ((b'0' + n % 10) ∷ acc) (omega arith, omega arith))
]

decimal_start : (fuel n : ℕ) → StartsDigit (decimal (suc fuel) n [])
unfolding decimal
decimal_start fuel n = elim (Bool-cases (ltb n 10)) [
  | inl small ↦ rw small (ground arith)
  | inr large ↦
      rw large (decimal-StartsDigit fuel (n / 10) ((b'0' + n % 10) ∷ []) (omega arith, omega arith))
]

magnitude-digits :
    (limit n : ℕ) (s : Text)
    → StartsDigit s
    → digits 0 s ≡ some n
    → n < limit
    → magnitude limit s ≡ some n
unfolding magnitude
magnitude-digits limit n [] d h k = elim d [ ]
magnitude-digits limit n (c ∷ s) d h k = ground (arith, h)

atoi-digits :
    (n : ℕ) (s : Text) → StartsDigit s → digits 0 s ≡ some n → n < 2 ^ 63 → atoi s ≡ some (pos n)
unfolding atoi
atoi-digits n [] d h k = elim d [ ]
atoi-digits n (c ∷ s) d h k = ground (arith, magnitude-digits (2 ^ 63) n (c ∷ s) d h k)

-- An int64: -2^63 up to 2^63 - 1.
abbrev pub IsInt64 : ℤ → Type 0
IsInt64 (pos n) = n < 2 ^ 63
IsInt64 (negsuc n) = n < 2 ^ 63

all_digits : (n : ℕ) → n < 2 ^ 63 + 1 → digits 0 (decimal 20 n []) ≡ some n
unfolding digits
all_digits n h = digits-decimal 20 n [] (omega arith)

print_digits : (n : ℕ) → n < 2 ^ 63 → atoi (decimal 20 n []) ≡ some (pos n)
print_digits n h =
    atoi-digits n (decimal 20 n []) (decimal_start 19 n) (all_digits n (omega arith)) h

atoi-minus :
    (n : ℕ) (s : Text) → magnitude (2 ^ 63 + 1) s ≡ some (suc n) → atoi (b'-' ∷ s) ≡ some (negsuc n)
unfolding atoi
atoi-minus n s h = rw h (ground arith)

-- Every int64 that FormatInt prints, Atoi reads back.
pub atoi-format_int : (z : ℤ) → IsInt64 z → atoi (format_int z) ≡ some z
unfolding format_int
atoi-format_int (pos n) h = print_digits n h
atoi-format_int (negsuc n) h = atoi-minus n _ (
    magnitude-digits (2 ^ 63 + 1) (suc n) _ (decimal_start 19 (suc n))
      (all_digits (suc n) (omega arith)) (omega arith))

-- The digits and the minus sign are no other character.
pub decimal-All :
    (P : ℕ → Type 0) (fuel n : ℕ) (acc : Text)
    → ((d : ℕ) → d < 10 → P (b'0' + d))
    → n < 10 ^ fuel
    → All P acc
    → All P (decimal fuel n acc)
unfolding decimal
decimal-All P zero n acc digit h a = a
decimal-All P (suc fuel) n acc digit h a = elim (Bool-cases (ltb n 10)) [
  | inl small ↦ rw small (digit n (ground arith), a)
  | inr large ↦ rw large (
      decimal-All P fuel (n / 10) ((b'0' + n % 10) ∷ acc) digit (omega arith)
        (digit (n % 10) (omega arith), a))
]

-- Twenty digits are enough for every number below 10 ^ 20, as any number of an int64 is: with more of them
-- the loop ends as it did.
pub decimal_enough :
    (fuel more n : ℕ) (acc : Text)
    → n < 10 ^ fuel
    → 0 < fuel
    → fuel ≤ more
    → decimal more n acc ≡ decimal fuel n acc
unfolding decimal
decimal_enough zero more n acc h k l = absurd (omega arith)
decimal_enough (suc fuel) zero n acc h k l = absurd (omega arith)
decimal_enough (suc zero) (suc more) n acc h k l = elim (Bool-cases (ltb n 10)) [
  | inl small ↦ rw small refl
  | inr large ↦ absurd (ground arith)
]
decimal_enough (suc (suc fuel)) (suc more) n acc h k l = elim (Bool-cases (ltb n 10)) [
  | inl small ↦ rw small refl
  | inr large ↦ rw large (
      decimal_enough (suc fuel) more (n / 10) ((b'0' + n % 10) ∷ acc) (omega arith) (omega arith)
        (omega arith))
]

-- What FormatInt prints of a natural number has no character but digits.
pub format_int-All :
    (P : ℕ → Type 0) (n : ℕ)
    → ((d : ℕ) → d < 10 → P (b'0' + d))
    → n < 10 ^ 20
    → All P (format_int (pos n))
unfolding format_int
format_int-All P n digit h = decimal-All P 20 n [] digit h tt
