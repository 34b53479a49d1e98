-- ===== src/Sip/Nonces/Life.antt =====
-- How long a nonce is valid.
use callfxo.Prelude.{
  ℕ, ◌≤◌, true, false, some, ◌≡◌, ◌↔◌, refl, arith, is_nil, Bool-cases, Option-cases, inl, inr,
}
use callfxo.Prelude.Equality.{nat_eq, list_eq}
use callfxo.Prelude.GoMap.{lookup}
use callfxo.Text.{Text}
use callfxo.Sip.Nonces.{Service, validate_nonce}

-- A nonce is valid exactly where it is not empty, was issued, and its time has not passed.
pub validate_nonce_iff :
    (now : ℕ) (nonce : Text) (s : Service)
    → ((validate_nonce now nonce s).0 ≡ true)
      ↔ ((is_nil nonce ≡ false) × ((exp : ℕ) × (lookup nonce s.nonces ≡ some exp) × (now ≤ exp)))
unfolding validate_nonce
validate_nonce_iff now nonce s = elim (Bool-cases (is_nil nonce)) [
  | inl blank ↦ rw blank ((λ h. cc), (λ (h, _). cc))
  | inr there ↦ elim (Option-cases (lookup nonce s.nonces)) [
    | inl absent ↦ rw (there, absent) ((λ h. cc), (λ (_, (exp, h, _)). cc))
    | inr (exp, found) ↦
        rw (there, found)
          ((λ h. (refl, (exp, refl, ground arith))), (λ (_, (e, h, k)). ground arith))
  ]
]

-- The check of a valid nonce changes nothing: the nonce may be used again until its time has passed.
pub validate_nonce-reusable :
    (now : ℕ) (nonce : Text) (s : Service)
    → (validate_nonce now nonce s).0 ≡ true
    → (validate_nonce now nonce s).1 ≡ s
unfolding validate_nonce
validate_nonce-reusable now nonce s h = ground arith
