-- ===== src/Web/Values/Turn.antt =====
-- The user name of TURN credentials, read as the TURN server reads it.
use callfxo.Prelude.{
  ℕ, ◌<◌, ◌^◌, false, some, [], ◌∷◌, ◌++◌, map, ◌≡◌, refl, arith, is_nil, if_both, All,
}
use callfxo.Prelude.Integers.{pos}
use callfxo.Prelude.Equality.{◌==◌, nat_eq, list_eq}
use callfxo.Text.{Text, trim_space, cut}
use callfxo.Text.Parse.{atoi}
use callfxo.Text.Decimal.{format_int, atoi-format_int, format_int-All}
use callfxo.Web.Http.{Site}
use callfxo.Web.Values.{normalize_turn_subject, colon_to_underscore, build_turn_credentials}

abbrev HasNo : ℕ → Text → Type 0
HasNo c s = All (λ x. (x == c) ≡ false) s

underscored : (s : Text) → HasNo b':' (map colon_to_underscore s)
underscored [] = tt
underscored (c ∷ s) = (no_colon c, underscored s)
  where
    no_colon : (c : ℕ) → (colon_to_underscore c == b':') ≡ false
    no_colon c = ground arith

-- The subject of the credentials has no colon.
pub turn_subject-HasNo :
    (subject : Text) → All (λ x. (x == b':') ≡ false) (normalize_turn_subject subject)
unfolding normalize_turn_subject
turn_subject-HasNo subject =
    if_both (HasNo b':') (is_nil (trim_space subject))
      (refl, (refl, (refl, (refl, (refl, (refl, (refl, (refl, (refl, tt)))))))))
      (underscored (trim_space subject))

cut-first : (s t : Text) → HasNo b':' s → cut b':' (s ++ b':' ∷ t) ≡ some (s, t)
unfolding cut
cut-first [] t h = refl
cut-first (c ∷ s) t (a, rest) = rw (a, cut-first s t rest) refl

-- The user name that is made for a TURN server, cut at its first colon, is a number, which reads as the time
-- at which the credentials expire, and the subject, in which there is no colon, where the time is an int64.
pub build_turn_credentials-reads :
    (site : Site) (secret subject : Text) (expires : ℕ)
    → expires < 2 ^ 63
    → (digits : Text) × (cut b':'
          (build_turn_credentials site secret (normalize_turn_subject subject) expires).0
        ≡ some (digits, normalize_turn_subject subject))
      × (atoi digits ≡ some (pos expires))
      × All (λ x. (x == b':') ≡ false) (normalize_turn_subject subject)
unfolding build_turn_credentials
build_turn_credentials-reads site secret subject expires h = (
  format_int (pos expires),
  cut-first (format_int (pos expires)) (normalize_turn_subject subject)
      (format_int-All (λ x. (x == b':') ≡ false) expires (λ d l. ground arith) (omega arith)),
  atoi-format_int (pos expires) h,
  turn_subject-HasNo subject,
)
