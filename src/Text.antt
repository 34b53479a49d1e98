-- ===== src/Text.antt =====
-- Go strings as lists of code points, with what the program uses of the package strings: TrimSpace,
-- ToLower, EqualFold, Index, Cut, and firstNonBlank, which internal/call/manager.go,
-- internal/sipx/service.go and internal/web/server.go each declare.
-- Letter case is ASCII's, with the code points beyond ASCII that Go maps onto ASCII letters
-- (U+0130 and U+212A under ToLower, U+017F and U+212A under EqualFold); other scripts have no case.
pub mod Trim
pub mod Parse
pub mod Decimal
use Prim.Native.Char.{code}
use Prim.Native.String.{String}
use callfxo.Prelude.{
  ℕ, ◌+◌, Bool, true, false, ◌&&◌, ◌||◌, not, Option, none, some, List, [], ◌∷◌, map, leb, is_nil,
  if◌then◌else◌,
}
use callfxo.Prelude.Equality.{Eq, ◌==◌, nat_eq, list_eq}

abbrev pub Text : Type 0
Text = List ℕ

-- A literal.
abbrev pub txt : String → Text
txt String.[] = []
txt (String.◌∷◌ c s) = code c ∷ txt s

-- unicode.IsSpace
unfoldable pub is_space : ℕ → Bool
is_space c =
    leb 9 c && leb c 13
    || c == 32
    || c == 0x85
    || c == 0xa0
    || c == 0x1680
    || leb 0x2000 c && leb c 0x200a
    || c == 0x2028
    || c == 0x2029
    || c == 0x202f
    || c == 0x205f
    || c == 0x3000

unfoldable pub trim_left : Text → Text
trim_left [] = []
trim_left (c ∷ s) = let rest = trim_left s in if is_space c then rest else c ∷ s

unfoldable pub trim_right : Text → Text
trim_right [] = []
trim_right (c ∷ s) = let rest = trim_right s in if is_space c && is_nil rest then [] else c ∷ rest

-- strings.TrimSpace
unfoldable pub trim_space : Text → Text
unfolding trim_left trim_right
trim_space s = trim_right (trim_left s)

unfoldable pub is_blank : Text → Bool
unfolding trim_space
is_blank s = is_nil (trim_space s)

unfoldable pub to_lower_rune : ℕ → ℕ
to_lower_rune c =
    if leb b'A' c && leb c b'Z'
    then c + 32
    else if c == 0x130
    then b'i'
    else if c == 0x212a
    then b'k'
    else c

-- strings.ToLower
unfoldable pub to_lower : Text → Text
unfolding to_lower_rune
to_lower = map to_lower_rune

unfoldable pub fold_rune : ℕ → ℕ
fold_rune c =
    if leb b'A' c && leb c b'Z'
    then c + 32
    else if c == 0x17f
    then b's'
    else if c == 0x212a
    then b'k'
    else c

-- strings.EqualFold
unfoldable pub equal_fold : Text → Text → Bool
unfolding fold_rune
equal_fold s t = map fold_rune s == map fold_rune t

-- firstNonBlank of two values
unfoldable pub first_non_blank : Text → Text → Text
unfolding trim_space
first_non_blank s t =
    if is_nil (trim_space s)
    then (if is_nil (trim_space t) then [] else trim_space t)
    else trim_space s

-- strings.HasPrefix
unfoldable pub has_prefix : Text → Text → Bool
has_prefix s [] = true
has_prefix [] (p ∷ ps) = false
has_prefix (c ∷ s) (p ∷ ps) = let rest = has_prefix s ps in c == p && rest

-- strings.Cut at one character: the text before it and the text after it.
unfoldable pub cut : ℕ → Text → Option (Text × Text)
cut sep [] = none
cut sep (c ∷ s) =
    let rest = cut sep s in
    if c == sep then some ([], s) else elim rest [ none ↦ none | some (a, b) ↦ some (c ∷ a, b) ]
