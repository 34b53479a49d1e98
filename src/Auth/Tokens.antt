-- ===== src/Auth/Tokens.antt =====
-- What Create makes passes Validate until it expires, and what passes Validate is signed.
use callfxo.Prelude.{
  ℕ, ◌+◌, ◌<◌, true, false, none, some, [], ◌∷◌, ◌++◌, ◌≡◌, refl, arith, ◌∙◌, ltb, is_nil,
  if◌then◌else◌, All,
}
use callfxo.Prelude.Integers.{ℤ, is_positive}
use callfxo.Prelude.Equality.{◌==◌, nat_eq, list_eq, ==_iff}
use callfxo.Text.{Text, trim_space, trim_left, trim_right, is_space, cut}
use callfxo.Text.Trim.{trim_space_idem}
use callfxo.Auth.{
  Session, Bytes, Codec, Manager, session_from_claims, new_claims, sign, create, check_claims,
  validate,
}

-- No character of the text is a space or a dot.
abbrev pub IsToken : Text → Type 0
IsToken s = All (λ c. (is_space c ≡ false) × ((c == b'.') ≡ false)) s

-- What is used of raw base64 in the URL's alphabet, and of HMAC: an encoding is a token, empty only for no
-- bytes, and is decoded to what was encoded; a MAC is not empty.
pub record IsCodec (codec : Codec) : Type 0 where
  pub decode_encode : (b : Bytes) → codec.decode (codec.encode b) ≡ some b
  pub encode_token : (b : Bytes) → IsToken (codec.encode b)
  pub encode_nil : (b : Bytes) → is_nil (codec.encode b) ≡ is_nil b
  pub hmac_there : (key b : Bytes) → is_nil (codec.hmac key b) ≡ false

abbrev IsSolid : Text → Type 0
IsSolid s = All (λ c. is_space c ≡ false) s

trim_right-of_solid : (s : Text) → IsSolid s → trim_right s ≡ s
unfolding trim_right
trim_right-of_solid [] h = refl
trim_right-of_solid (c ∷ s) (h, hs) = rw (h, trim_right-of_solid s hs) refl

trim_space-of_solid : (s : Text) → IsSolid s → trim_space s ≡ s
unfolding trim_space trim_left
trim_space-of_solid [] h = refl
trim_space-of_solid (c ∷ s) (h, hs) = rw h (trim_right-of_solid (c ∷ s) (h, hs))

signed-IsSolid : (s t : Text) → IsToken s → IsToken t → IsSolid (s ++ b'.' ∷ t)
unfolding is_space
signed-IsSolid (c ∷ s) t ((h, _), hs) ht = (h, signed-IsSolid s t hs ht)
signed-IsSolid [] t hs ht = (refl, solid t ht)
  where
    solid : (t : Text) → IsToken t → IsSolid t
    solid [] h = tt
    solid (c ∷ t) ((h, _), hs) = (h, solid t hs)

signed-not_nil : (s t : Text) → is_nil (s ++ b'.' ∷ t) ≡ false
signed-not_nil [] t = refl
signed-not_nil (c ∷ s) t = refl

cut-token : (s t : Text) → IsToken s → cut b'.' (s ++ b'.' ∷ t) ≡ some (s, t)
unfolding cut
cut-token [] t h = refl
cut-token (c ∷ s) t ((a, b), rest) = rw (b, cut-token s t rest) refl

module _ (codec : Codec) (laws : IsCodec codec) (m : Manager) where
  validate-signed :
      (payload : Bytes) (now : ℕ)
      → is_nil payload ≡ false
      → validate codec m now (sign codec m payload)
        ≡ check_claims now (sign codec m payload) (codec.unmarshal payload)
  unfolding validate
  validate-signed payload now there =
      let sig = codec.hmac m.secret payload in
      let a = codec.encode payload in
      let b = codec.encode sig in
      rw
        (
          trim_space-of_solid (sign codec m payload)
              (signed-IsSolid a b (laws.encode_token payload) (laws.encode_token sig)),
          cut-token a b (laws.encode_token payload),
          laws.encode_nil payload,
          there,
          laws.encode_nil sig,
          laws.hmac_there m.secret payload,
          laws.decode_encode payload,
          laws.decode_encode sig,
          signed-not_nil a b,
          (==_iff sig sig).1 refl,
        )
        refl

  module _ (user_id : ℤ) (username role device_token nonce : Text) (now : ℕ) (payload : Bytes)
      (positive : is_positive user_id ≡ true) (device : is_nil (trim_space device_token) ≡ false)
      (marshalled : codec.marshal (new_claims m user_id username role device_token now nonce)
        ≡ some payload)
      (there : is_nil payload ≡ false)
      (unmarshalled : codec.unmarshal payload
        ≡ some (new_claims m user_id username role device_token now nonce)) where
    -- Create makes a session, for a positive user, a device that is not blank and claims that JSON gives
    -- back, whose token Validate takes for the same session until it expires, and refuses from then on.
    pub create-validate :
        (later : ℕ)
        → 0 < now + m.access_ttl
        → (s : Session) × (create codec m user_id username role device_token now (some nonce)
            ≡ some s)
          × (validate codec m later s.token
              ≡ (if ltb (now + m.access_ttl) later then none else some s))
    unfolding create session_from_claims
    create-validate later after_start =
        let claims = new_claims m user_id username role device_token now nonce in
        let token = sign codec m payload in
        (
          session_from_claims token claims,
          rw marshalled refl,
          validate-signed payload later there
              ∙ rw (unmarshalled, positive, trim_space_idem device_token, device) (ground arith),
        )
