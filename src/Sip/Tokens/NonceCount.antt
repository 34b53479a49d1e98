-- ===== src/Sip/Tokens/NonceCount.antt =====
-- The nonce count as the digest has it, against reading it as a hexadecimal number.
use callfxo.Prelude.{
  ℕ, zero, suc, ◌+◌, ◌-◌, ◌*◌, ◌/◌, ◌%◌, ◌^◌, ◌≤◌, ◌<◌, [], ◌∷◌, length, ◌≡◌, refl, arith, ap, ◌∙◌,
  ltb, if◌then◌else◌, Bool-cases, inl, inr, true, All, ◌⊎◌,
}
use callfxo.Prelude.Integers.{pos}
use callfxo.Text.{Text}
use callfxo.Sip.Tokens.{hex_digit, hex, zeros, format_nc}

-- What a hexadecimal digit in lower case stands for.
abbrev pub digit_value : ℕ → ℕ
digit_value c = if ltb c b'a' then c - b'0' else c - b'a' + 10

-- The number that a text reads as behind the digits of another.
abbrev pub hex_value : ℕ → Text → ℕ
hex_value m [] = m
hex_value m (c ∷ s) = hex_value (m * 16 + digit_value c) s

digit_value-hex_digit : (d : ℕ) → d < 16 → digit_value (hex_digit d) ≡ d
digit_value-hex_digit d h = ground arith

digit_from_zero : (d : ℕ) → d < 16 → 0 * 16 + digit_value (hex_digit d) ≡ d
digit_from_zero d h = let e = digit_value-hex_digit d h in omega arith

hex_value-hex :
    (fuel n : ℕ) (acc : Text) → n < 16 ^ fuel → hex_value 0 (hex fuel n acc) ≡ hex_value n acc
unfolding hex
hex_value-hex zero n acc h = let e : n ≡ 0 = omega arith in rw e refl
hex_value-hex (suc fuel) n acc h = elim (Bool-cases (ltb n 16)) [
  | inl small ↦
      let e : 0 * 16 + digit_value (hex_digit n) ≡ n = digit_from_zero n (ground arith) in
      rw small (ap (λ d. hex_value d acc) e)
  | inr large ↦
      let e : n / 16 * 16 + n % 16 ≡ n = omega arith in
      rw large (
        hex_value-hex fuel (n / 16) (hex_digit (n % 16) ∷ acc) (omega arith)
        ∙ ap (λ d. hex_value (n / 16 * 16 + d) acc) (digit_value-hex_digit (n % 16) (omega arith))
        ∙ ap (λ m. hex_value m acc) e)
]

hex_value-zeros : (k : ℕ) (s : Text) → hex_value 0 (zeros k s) ≡ hex_value 0 s
unfolding zeros
hex_value-zeros zero s = refl
hex_value-zeros (suc k) s = hex_value-zeros k s

length-zeros : (k : ℕ) (s : Text) → length (zeros k s) ≡ k + length s
unfolding zeros
length-zeros zero s = omega arith
length-zeros (suc k) s = let e = length-zeros k s in omega arith

-- A hexadecimal digit in lower case.
abbrev pub IsHexDigit : ℕ → Type 0
IsHexDigit c = ((b'0' ≤ c) × (c ≤ b'9')) ⊎ ((b'a' ≤ c) × (c ≤ b'f'))

hex_digit-IsHexDigit : (d : ℕ) → d < 16 → IsHexDigit (hex_digit d)
hex_digit-IsHexDigit d h = elim (Bool-cases (ltb d 10)) [
  | inl small ↦ inl (ground arith, ground arith)
  | inr large ↦ inr (ground arith, ground arith)
]

hex-All : (fuel n : ℕ) (acc : Text) → All IsHexDigit acc → All IsHexDigit (hex fuel n acc)
unfolding hex
hex-All zero n acc h = h
hex-All (suc fuel) n acc h = elim (Bool-cases (ltb n 16)) [
  | inl small ↦ rw small (hex_digit-IsHexDigit n (ground arith), h)
  | inr large ↦ rw large (
      hex-All fuel (n / 16) (hex_digit (n % 16) ∷ acc)
        (hex_digit-IsHexDigit (n % 16) (omega arith), h))
]

zeros-All : (k : ℕ) (s : Text) → All IsHexDigit s → All IsHexDigit (zeros k s)
unfolding zeros
zeros-All zero s h = h
zeros-All (suc k) s h = (inl (omega arith, omega arith), zeros-All k s h)

length-hex :
    (fuel k n : ℕ) (acc : Text) → n < 16 ^ suc k → length (hex fuel n acc) ≤ suc k + length acc
unfolding hex
length-hex zero k n acc h = omega arith
length-hex (suc fuel) zero n acc h =
    let small : ltb n 16 ≡ true = ground arith in rw small (omega arith)
length-hex (suc fuel) (suc k) n acc h = elim (Bool-cases (ltb n 16)) [
  | inl small ↦ rw small (omega arith)
  | inr large ↦
      let e = length-hex fuel k (n / 16) (hex_digit (n % 16) ∷ acc) (omega arith) in
      rw large (omega arith)
]

-- The text of a nonce count below 2 ^ 64, as `%08x` makes it for the digest: lower-case hexadecimal digits only, at least
-- 8 of them and exactly 8 for a count below 2 ^ 32, that read as the count again. The 16 digits that it is
-- given are enough.
pub format_nc-reads :
    (n : ℕ)
    → n < 2 ^ 64
    → (hex_value 0 (format_nc (pos n)) ≡ n)
      × All IsHexDigit (format_nc (pos n))
      × (8 ≤ length (format_nc (pos n)))
      × (n < 2 ^ 32 → length (format_nc (pos n)) ≡ 8)
unfolding format_nc
format_nc-reads n h =
    let digits = hex 16 n [] in
    let padded = length-zeros (8 - length digits) digits in
    (
      hex_value-zeros (8 - length digits) digits ∙ hex_value-hex 16 n [] h,
      zeros-All (8 - length digits) digits (hex-All 16 n [] tt),
      omega arith,
      λ small. let short = length-hex 16 7 n [] (omega arith) in omega arith,
    )
