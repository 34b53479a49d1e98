-- ===== src/Auth/Guards.antt =====
-- What passes Validate is signed, and whom RequireRole lets through.
use callfxo.Prelude.{
  ℕ, true, false, ◌||◌, Option, none, some, List, [], ◌∷◌, ◌≡◌, ◌↔◌, ◌⊎◌, refl, arith, ap, sym,
  is_nil, subst, if◌then◌else◌, Bool-cases, inl, inr, IsIn,
}
use mathlib.Core.Option.{some-injective}
use callfxo.Prelude.Integers.{is_positive}
use callfxo.Prelude.Equality.{◌==◌, nat_eq, list_eq, ==_iff}
use callfxo.Text.{Text, trim_space, cut}
use callfxo.Auth.{
  Session, AccessClaims, Bytes, Codec, Manager, session_from_claims, is_after, check_claims,
  check_parts, validate_trimmed, validate, forbidden, next, normalize, allowed_roles, is_allowed,
  require_role, verdict_of, require_auth,
}

-- The text is signed claims: its parts decode to claims and to their MAC under the secret, the user is
-- positive, the claims have not expired, and the session is theirs.
abbrev pub Signed : Codec → Manager → ℕ → Text → Session → Type 0
Signed codec m now token s =
    (p q : Text) × (payload : Bytes) × (claims : AccessClaims) × (cut b'.' token ≡ some (p, q))
    × (codec.decode p ≡ some payload)
    × (codec.decode q ≡ some (codec.hmac m.secret payload))
    × (codec.unmarshal payload ≡ some claims)
    × (is_positive claims.user_id ≡ true)
    × (is_after now claims.expires_at ≡ false)
    × (s ≡ session_from_claims token claims)

claims-checked :
    (now : ℕ) (token : Text) (o : Option AccessClaims) (s : Session)
    → check_claims now token o ≡ some s
    → (claims : AccessClaims) × (o ≡ some claims)
      × (is_positive claims.user_id ≡ true)
      × (is_after now claims.expires_at ≡ false)
      × (s ≡ session_from_claims token claims)
claims-checked now token none s h = cc
claims-checked now token (some c) s h = (c, refl, ground arith, ground arith, ground arith)

parts-checked :
    (codec : Codec) (m : Manager) (now : ℕ) (token : Text) (p q : Option Bytes) (s : Session)
    → check_parts codec m now token p q ≡ some s
    → (payload : Bytes) × (p ≡ some payload)
      × (q ≡ some (codec.hmac m.secret payload))
      × (check_claims now token (codec.unmarshal payload) ≡ some s)
parts-checked codec m now token none q s h = cc
parts-checked codec m now token (some payload) none s h = cc
parts-checked codec m now token (some payload) (some sig) s h =
    elim (Bool-cases (sig == codec.hmac m.secret payload)) [
      | inr forged ↦ cc (rw forged at h)
      | inl right ↦ (
        payload,
        refl,
        ap some ((==_iff sig (codec.hmac m.secret payload)).0 right),
        (rw right at h),
      )
    ]

trimmed-checked :
    (codec : Codec) (m : Manager) (now : ℕ) (token : Text) (o : Option (Text × Text)) (s : Session)
    → validate_trimmed codec m now token o ≡ some s
    → (p q : Text) × (o ≡ some (p, q))
      × (check_parts codec m now token (codec.decode p) (codec.decode q) ≡ some s)
trimmed-checked codec m now token none s h = cc
trimmed-checked codec m now token (some (p, q)) s h = elim (Bool-cases (is_nil p || is_nil q)) [
  | inl empty ↦ cc (rw empty at h)
  | inr both ↦ (p, q, refl, (rw both at h))
]

-- Validate accepts only a text that is, without the blanks around it, signed claims of a positive user
-- that have not expired.
pub validate-Signed :
    (codec : Codec) (m : Manager) (now : ℕ) (raw : Text) (s : Session)
    → validate codec m now raw ≡ some s
    → Signed codec m now (trim_space raw) s
unfolding validate
validate-Signed codec m now raw s h = elim (Bool-cases (is_nil (trim_space raw))) [
  | inl empty ↦ cc (rw (validate, empty) at h)
  | inr there ↦
      let (p, q, parted, k) =
        trimmed-checked codec m now (trim_space raw) (cut b'.' (trim_space raw)) s
          (rw (validate, there) at h) in
      let (payload, a, b, l) =
        parts-checked codec m now (trim_space raw) (codec.decode p) (codec.decode q) s k in
      let (claims, c, d, e, f) =
        claims-checked now (trim_space raw) (codec.unmarshal payload) s l in
      (p, q, payload, claims, parted, a, b, c, d, e, f)
]

-- RequireAuth lets a request through with the session of a token that Validate accepts.
pub require_auth-validate :
    (codec : Codec) (m : Manager) (now : ℕ) (token : Text)
    → require_auth codec m now token ≡ verdict_of (validate codec m now token)
unfolding require_auth
require_auth-validate codec m now token = refl

is_allowed-IsIn : (role : Text) (rs : List Text) → (is_allowed role rs ≡ true) ↔ IsIn role rs
unfolding is_allowed
is_allowed-IsIn role [] = ((λ h. cc), (λ i. elim i [ ]))
is_allowed-IsIn role (r ∷ rs) = elim (Bool-cases (r == role)) [
  | inl here ↦ rw here ((λ h. inl (sym ((==_iff r role).0 here))), (λ i. refl))
  | inr other ↦ rw other (
    λ h. inr ((is_allowed-IsIn role rs).0 h),
    λ i. elim i [
      | inl same ↦ cc ((==_iff r role).1 (sym same), other)
      | inr rest ↦ (is_allowed-IsIn role rs).1 rest
    ],
  )
]

role-decides :
    (allowed : List Text) (role : Text)
    → ((if is_nil allowed then next else if is_allowed role allowed then next else forbidden)
        ≡ next)
      ↔ ((allowed ≡ []) ⊎ IsIn role allowed)
role-decides [] role = ((λ h. inl refl), (λ i. refl))
role-decides (r ∷ rs) role = elim (Bool-cases (is_allowed role (r ∷ rs))) [
  | inl yes_it ↦ rw yes_it ((λ h. inr ((is_allowed-IsIn role (r ∷ rs)).0 yes_it)), (λ i. refl))
  | inr missing ↦ rw missing (
    λ h. cc,
    λ i. elim i [ inl e ↦ cc e | inr j ↦ cc ((is_allowed-IsIn role (r ∷ rs)).1 j, missing) ],
  )
]

-- RequireRole lets a request through exactly where there is a session and either every role that was
-- named is blank, or one of them is the session's but for case and the blanks around it.
pub require_role-next_iff :
    (roles : List Text) (o : Option Session)
    → (require_role roles o ≡ next) ↔ (
        (s : Session) × (o ≡ some s)
        × ((allowed_roles roles ≡ []) ⊎ IsIn (normalize s.role) (allowed_roles roles)))
unfolding require_role
require_role-next_iff roles none = ((λ h. cc), (λ (s, h, _). cc))
require_role-next_iff roles (some s) =
    let (there, back) = role-decides (allowed_roles roles) (normalize s.role) in
    (
      λ h. (s, refl, there h),
      λ (x, same, why). back (
          subst (λ y. (allowed_roles roles ≡ []) ⊎ IsIn (normalize y) (allowed_roles roles))
            (ap (λ y. y.role) (some-injective x s (sym same))) why),
    )
