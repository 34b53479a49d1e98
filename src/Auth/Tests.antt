-- ===== src/Auth/Tests.antt =====
-- Runs of the access tokens with a codec that shifts bytes.
use callfxo.Prelude.{
  ℕ, ◌+◌, ◌-◌, ◌≤◌, ◌<◌, Bool, true, false, ◌||◌, Option, none, some, List, [], ◌∷◌, map, ◌≡◌, ◌↔◌,
  ◌⊎◌, refl, arith, ap, ltb, is_nil, if◌then◌else◌, IsIn,
}
use callfxo.Prelude.Integers.{pos}
use callfxo.Prelude.Equality.{nat_eq, list_eq}
use callfxo.Text.{Text, txt, trim_space}
use callfxo.Auth.{Session, AccessClaims, Bytes, Codec, Manager, new_claims, sign, create, validate}
use callfxo.Auth.Tokens.{IsToken, IsCodec, create-validate}
use callfxo.Auth.Guards.{Signed, validate-Signed}

abbrev pub signer : Manager
signer = record { secret = 7 ∷ []; access_ttl = 3600 }

abbrev pub claimed : AccessClaims
claimed = new_claims signer (pos 1) (txt "ann") (txt "User ") (txt " t1") 100 (txt "n")

-- The MAC is the payload behind a mark, a byte is encoded 20000 up, and JSON knows one object.
abbrev pub shifting : Codec
shifting = record {
  hmac = λ key b. 1 ∷ b;
  encode = map (λ n. n + 20000);
  decode = λ s. some (map (λ n. n - 20000) s);
  marshal = λ c. some (5 ∷ []);
  unmarshal = λ b. some claimed;
}

shift_back : (b : Bytes) → map (λ n. n - 20000) (map (λ n. n + 20000) b) ≡ b
shift_back [] = refl
shift_back (n ∷ b) = let e : n + 20000 - 20000 ≡ n = omega arith in rw (e, shift_back b) refl

shift-IsToken : (b : Bytes) → IsToken (map (λ n. n + 20000) b)
unfolding callfxo.Text.is_space
shift-IsToken [] = tt
shift-IsToken (n ∷ b) = ((ground arith, ground arith), shift-IsToken b)

shift_nil : (b : Bytes) → is_nil (map (λ n. n + 20000) b) ≡ is_nil b
shift_nil [] = refl
shift_nil (n ∷ b) = refl

shifting-IsCodec : IsCodec shifting
shifting-IsCodec = record {
  decode_encode = λ b. ap some (shift_back b);
  encode_token = shift-IsToken;
  encode_nil = shift_nil;
  hmac_there = λ key b. refl;
}

create-validate_example :
    (s : Session) × (create shifting signer
        (pos 1)
        (txt "ann")
        (txt "User ")
        (txt " t1")
        100
        (some (txt "n"))
      ≡ some s)
    × (validate shifting signer 4000 s.token ≡ (if ltb 3700 4000 then none else some s))
unfolding trim_space callfxo.Text.is_space
create-validate_example =
    create-validate shifting shifting-IsCodec signer (pos 1) (txt "ann") (txt "User ") (txt " t1")
      (txt "n") 100 (5 ∷ []) refl refl refl refl refl 4000 (omega arith)

abbrev pub issued : Session
issued = record {
  token = sign shifting signer (5 ∷ []);
  user_id = pos 1;
  username = txt "ann";
  role = txt "user";
  device_token = txt "t1";
  expires_at = pos 3700;
}

validate-Signed_example : Signed shifting signer 200 (sign shifting signer (5 ∷ [])) issued
unfolding validate callfxo.Text.is_space callfxo.Prelude.Equality.list_beq
validate-Signed_example =
    validate-Signed shifting signer 200 (sign shifting signer (5 ∷ [])) issued refl
