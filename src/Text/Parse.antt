-- ===== src/Text/Parse.antt =====
-- strconv.Atoi and strings.Fields, ToUpper and SplitN, as the program uses them.
use callfxo.Prelude.{
  ℕ, ◌+◌, ◌-◌, ◌*◌, ◌^◌, Bool, true, false, ◌&&◌, Option, none, some, List, [], ◌∷◌, map, ltb, leb,
  if◌then◌else◌,
}
use callfxo.Prelude.Integers.{ℤ, pos, negsuc}
use callfxo.Prelude.Equality.{◌==◌, nat_eq}
use callfxo.Text.{Text, is_space}

-- The value of decimal digits, after those that were read.
unfoldable pub digits : ℕ → Text → Option ℕ
digits n [] = some n
digits n (c ∷ s) =
    let rest = digits (n * 10 + (c - b'0')) s in if leb b'0' c && leb c b'9' then rest else none

-- At least one digit, and a value below the limit.
unfoldable pub magnitude : ℕ → Text → Option ℕ
unfolding digits
magnitude limit [] = none
magnitude limit (c ∷ s) = elim (digits 0 (c ∷ s)) [
  | none ↦ none
  | some n ↦ if ltb n limit then some n else none
]

abbrev pub negate : ℕ → ℤ
negate n = if n == 0 then pos 0 else negsuc (n - 1)

-- strconv.Atoi on a 64-bit machine; `none` is its error.
unfoldable pub atoi : Text → Option ℤ
unfolding magnitude
atoi [] = none
atoi (c ∷ s) =
    if c == b'-'
    then elim (magnitude (2 ^ 63 + 1) s) [ none ↦ none | some n ↦ some (negate n) ]
    else if c == b'+'
    then elim (magnitude (2 ^ 63) s) [ none ↦ none | some n ↦ some (pos n) ]
    else elim (magnitude (2 ^ 63) (c ∷ s)) [ none ↦ none | some n ↦ some (pos n) ]

-- Puts a character in front of the first of the fields of what follows it.
abbrev pub grow_field : ℕ → Bool → List Text → List Text
grow_field c true [] = (c ∷ []) ∷ []
grow_field c true (f ∷ fs) = (c ∷ f) ∷ fs
grow_field c false fs = (c ∷ []) ∷ fs

-- Whether a text starts inside a field.
abbrev pub starts_field : Text → Bool
starts_field [] = false
starts_field (c ∷ s) = if is_space c then false else true

-- strings.Fields
unfoldable pub fields : Text → List Text
unfolding is_space
fields [] = []
fields (c ∷ s) =
    let rest = fields s in if is_space c then rest else grow_field c (starts_field s) rest

-- strings.SplitN(s, sep, 2)[0] for a one-character separator.
unfoldable pub before : ℕ → Text → Text
before sep [] = []
before sep (c ∷ s) = let rest = before sep s in if c == sep then [] else c ∷ rest

unfoldable pub to_upper_rune : ℕ → ℕ
to_upper_rune c =
    if leb b'a' c && leb c b'z'
    then c - 32
    else if c == 0x131
    then b'I'
    else if c == 0x17f
    then b'S'
    else c

-- strings.ToUpper, with the letter case of `Text`.
unfoldable pub to_upper : Text → Text
unfolding to_upper_rune
to_upper = map to_upper_rune
