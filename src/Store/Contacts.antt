-- ===== src/Store/Contacts.antt =====
-- internal/store/store.go, lines 877 to 956: a user's contacts, and the search by LIKE.
pub mod Search
use callfxo.Prelude.{
  ℕ, suc, Bool, true, false, Option, none, some, List, [], ◌∷◌, ◌++◌, map, ◌&&◌, ◌||◌, ltb, leb,
  take, is_nil, if◌then◌else◌, ◌+◌,
}
use mathlib.Core.List.{reverse}
use callfxo.Prelude.Integers.{ℤ, pos, is_positive, to_nat}
use callfxo.Prelude.Equality.{◌==◌, int_eq, list_eq, nat_eq}
use callfxo.Prelude.Rows.{select, delete_where, exists}
use callfxo.Text.{Text, trim_space}
use callfxo.Store.Schema.{
  Contact, Tables, Store, constraint, Result, ok, err, Action, statement, read, or_not_found,
  has_user,
}

unfoldable pub insert_contact : ℤ → Text → Text → ℕ → Tables → Result Contact × Tables
unfolding has_user
insert_contact user_id name number now t =
    let c : Contact = record {
      id = pos t.next_contact;
      user_id = user_id;
      name = name;
      number = number;
      created_at = now;
    } in
    if has_user user_id t
    then (ok c, record t { contacts = t.contacts ++ c ∷ []; next_contact = suc t.next_contact })
    else (err constraint, t)

unfoldable pub create_contact : ℤ → Text → Text → ℕ → Action Contact
unfolding statement insert_contact
create_contact user_id name number now = statement (insert_contact user_id name number now)

unfoldable pub delete_contact : ℤ → ℤ → Action (Unit {0})
unfolding statement
delete_contact user_id id = statement λ t.
    or_not_found (exists (λ (c : Contact). c.id == id && c.user_id == user_id) t.contacts)
      (record t {
        contacts = delete_where (λ (c : Contact). c.id == id && c.user_id == user_id) t.contacts;
      })
      t

-- The case folding of NOCASE, which is ASCII's.
unfoldable pub nocase : ℕ → ℕ
nocase c = if leb b'A' c && leb c b'Z' then c + 32 else c

-- Some suffix of the text passes.
unfoldable pub some_suffix : (Text → Bool) → Text → Bool
some_suffix test [] = test []
some_suffix test (c ∷ s) = let rest = some_suffix test s in if test (c ∷ s) then true else rest

-- One character of a pattern that is no `%`.
abbrev pub like_one : ℕ → (Text → Bool) → Text → Bool
like_one p rest [] = false
like_one p rest (c ∷ s) = if p == b'_' || nocase p == nocase c then rest s else false

-- `text LIKE pattern COLLATE NOCASE`
unfoldable pub like : Text → Text → Bool
unfolding nocase some_suffix
like [] s = is_nil s
like (p ∷ ps) s = if p == b'%' then some_suffix (like ps) s else like_one p (like ps) s

unfoldable pub normalize_limit : ℤ → ℕ
normalize_limit limit =
    if is_positive limit then (if ltb 1000 (to_nat limit) then 1000 else to_nat limit) else 200

-- The WHERE clause of the search for a text that is not blank.
unfoldable pub matches_query : ℤ → Text → Contact → Bool
unfolding like
matches_query user_id q c =
    let pattern = b'%' ∷ (q ++ b'%' ∷ []) in
    c.user_id == user_id && (like pattern c.name || like pattern c.number)

unfoldable pub list_contacts : ℤ → Text → ℤ → Action (List Contact)
unfolding read matches_query normalize_limit trim_space
list_contacts user_id q limit = read λ t. ok (
    take (normalize_limit limit) (
      reverse (
        if is_nil (trim_space q)
        then select (λ (c : Contact). c.user_id == user_id) t.contacts
        else select (matches_query user_id (trim_space q)) t.contacts)))
