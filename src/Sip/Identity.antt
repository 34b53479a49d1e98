-- ===== src/Sip/Identity.antt =====
-- internal/sipx/service.go, lines 591 to 640: who calls, from the identity headers or the From header.
use callfxo.Prelude.{Bool, ◌&&◌, ◌||◌, Option, none, some, [], ◌∷◌, drop, is_nil, if◌then◌else◌}
use callfxo.Prelude.Equality.{◌==◌, nat_eq, list_eq}
use callfxo.Text.{Text, txt, trim_space, to_lower, first_non_blank, has_prefix, cut}
use callfxo.Text.Parse.{before}

unfoldable pub drop_quotes : Text → Text
drop_quotes [] = []
drop_quotes (c ∷ s) = let rest = drop_quotes s in if c == b'"' then rest else c ∷ s

unfoldable pub drop_last_quotes : Text → Text
drop_last_quotes [] = []
drop_last_quotes (c ∷ s) =
    let rest = drop_last_quotes s in if c == b'"' && is_nil rest then [] else c ∷ rest

-- strings.Trim(s, "\"")
unfoldable pub trim_quotes : Text → Text
unfolding drop_quotes drop_last_quotes
trim_quotes s = drop_last_quotes (drop_quotes s)

-- strings.Contains
unfoldable pub contains : Text → Text → Bool
unfolding has_prefix
contains [] needle = has_prefix [] needle
contains (c ∷ s) needle = let rest = contains s needle in has_prefix (c ∷ s) needle || rest

-- The display name, where text stands before the first `<`.
unfoldable pub display_of : Text → Text
unfolding cut trim_quotes trim_space
display_of raw = elim (cut b'<' raw) [
  | none ↦ []
  | some (name, rest) ↦ if is_nil name then [] else trim_quotes (trim_space name)
]

-- What stands between the first `<` and the next `>`, or everything.
unfoldable pub uri_of : Text → Text
unfolding cut
uri_of raw = elim (cut b'<' raw) [
  | none ↦ raw
  | some (name, rest) ↦ elim (cut b'>' rest) [ none ↦ raw | some (uri, tail) ↦ uri ]
]

-- `uri[4:]`, in bytes, of a URI that starts with "sip:" in lower case, where U+0130, which ToLower takes to
-- the letter i, is two bytes long.
abbrev pub behind_scheme : Text → Text
behind_scheme [] = []
behind_scheme (c ∷ []) = []
behind_scheme (c ∷ (d ∷ s)) = if d == 0x130 then drop 1 s else drop 2 s

abbrev pub sip_user : Text → Text
sip_user uri =
    if has_prefix (to_lower uri) (txt "sip:")
    then trim_space (before b'@' (behind_scheme uri))
    else []

-- The display name and the number.
unfoldable pub parse_identity_header : Text → Text × Text
unfolding trim_space display_of uri_of contains before to_lower has_prefix
parse_identity_header header =
    let raw = trim_space header in
    let number = sip_user (uri_of raw) in
    if is_nil raw then ([], []) else (
      display_of raw,
      if is_nil number && contains raw (txt "party=") then trim_space (before b';' raw) else number,
    )

pub record FromHeader : Type 0 where
  pub user : Text
  pub display_name : Text

-- The headers that extractCallerID reads.
pub record CallerHeaders : Type 0 where
  pub p_asserted_identity : Option Text
  pub remote_party_id : Option Text
  pub from : Option FromHeader

abbrev pub identity : Option Text → Option (Text × Text)
identity none = none
identity (some header) =
    let (caller_id, number) = parse_identity_header header in
    if is_nil caller_id && is_nil number
    then none
    else some (first_non_blank caller_id number, number)

abbrev pub from_identity : Option FromHeader → Text × Text
from_identity none = ([], [])
from_identity (some from) =
    let number = trim_space from.user in
    (first_non_blank (trim_quotes (trim_space from.display_name)) number, number)

-- The caller's name and number.
unfoldable pub extract_caller_id : CallerHeaders → Text × Text
unfolding parse_identity_header first_non_blank trim_quotes trim_space
extract_caller_id h = elim (identity h.p_asserted_identity) [
  | some who ↦ who
  | none ↦ elim (identity h.remote_party_id) [ some who ↦ who | none ↦ from_identity h.from ]
]
