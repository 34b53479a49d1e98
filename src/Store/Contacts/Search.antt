-- ===== src/Store/Contacts/Search.antt =====
-- ListContacts searches for a text inside a name or a number.
use callfxo.Prelude.{
  ℕ, Bool, true, false, [], ◌∷◌, ◌++◌, ◌≡◌, refl, ◌≢◌, arith, ap, ◌&&◌, ◌||◌, All,
}
use mathlib.Core.Path.{fun_ext}
use callfxo.Prelude.Equality.{◌==◌, nat_eq, int_eq}
use callfxo.Prelude.Integers.{ℤ}
use callfxo.Text.{Text}
use callfxo.Store.Schema.{Contact}
use callfxo.Store.Contacts.{nocase, some_suffix, like, matches_query}

-- The text begins with the word, whatever the case of ASCII letters.
pub begins_with : Text → Text → Bool
begins_with [] s = true
begins_with (p ∷ ps) [] = false
begins_with (p ∷ ps) (c ∷ s) = let rest = begins_with ps s in nocase p == nocase c && rest

-- The word stands somewhere in the text.
pub contains : Text → Text → Bool
unfolding begins_with
contains q s = some_suffix (begins_with q) s

-- Not a wildcard of LIKE.
abbrev pub IsPlain : ℕ → Type 0
IsPlain c = (c ≢ b'%') × (c ≢ b'_')

some_suffix-is_nil : (s : Text) → some_suffix (like []) s ≡ true
unfolding some_suffix like
some_suffix-is_nil [] = refl
some_suffix-is_nil (c ∷ s) = ground (arith, some_suffix-is_nil s)

like-open : (q s : Text) → All IsPlain q → like (q ++ b'%' ∷ []) s ≡ begins_with q s
unfolding begins_with like
like-open [] s h = some_suffix-is_nil s
like-open (p ∷ ps) [] h = ground arith
like-open (p ∷ ps) (c ∷ s) h = ground (arith, like-open ps s h.1)

like-contains : (q s : Text) → All IsPlain q → like (b'%' ∷ (q ++ b'%' ∷ [])) s ≡ contains q s
unfolding contains like
like-contains q s h = ap (λ test. some_suffix test s) (fun_ext (λ u. like-open q u h))

-- The search for a text without % and _ finds exactly the contacts of the user with the text in the
-- name or in the number, whatever the case of its ASCII letters.
pub matches_query-contains :
    (user_id : ℤ) (q : Text) (c : Contact)
    → All IsPlain q
    → matches_query user_id q c
      ≡ (c.user_id == user_id && (contains q c.name || contains q c.number))
unfolding matches_query
matches_query-contains user_id q c h =
    rw (like-contains q c.name h, like-contains q c.number h) refl
