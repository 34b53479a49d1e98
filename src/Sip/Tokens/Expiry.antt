-- ===== src/Sip/Tokens/Expiry.antt =====
-- Bounds of the expiry of a registration, and what is sent of a series of DTMF digits.
use callfxo.Prelude.{
  ap, ℕ, suc, ◌+◌, ◌≤◌, ◌<◌, true, none, [], ◌∷◌, ◌≡◌, refl, arith, Bool-cases, Option-cases, inl,
  inr, All, take, length,
}
use callfxo.Prelude.Equality.{nat_eq}
use callfxo.Text.{Text}
use callfxo.Sip.Tokens.{expiry, is_dtmf_digit, SendOutcome, refusal, send_dialog_dtmf}

-- Up to 9223372036 seconds, the product of the expiry does not wrap around, and a registration expires
-- when it says.
pub expiry-exact : (now expires : ℕ) → expires ≤ 9223372036 → expiry now expires ≡ now + expires
unfolding expiry
expiry-exact now expires h = ground arith

-- From one second more up to 18446744073, the product wraps around to a negative duration, and a
-- registration has expired when it is made.
pub expiry-wraps :
    (now expires : ℕ) → 9223372036 < expires → expires ≤ 18446744073 → expiry now expires ≤ now
unfolding expiry
expiry-wraps now expires h k = ground arith

-- What SendDTMF sends is a prefix of the digits it was given, each of them a DTMF digit; where it
-- returns no error, it has sent them all.
pub send_dialog_dtmf-sent :
    (send : ℕ → ℕ → SendOutcome) (n : ℕ) (s : Text)
    → let (e, sent) = send_dialog_dtmf send n s in
      All (λ r. is_dtmf_digit r ≡ true) sent × (take (length sent) s ≡ sent) × (e ≡ none → sent ≡ s)
unfolding send_dialog_dtmf
send_dialog_dtmf-sent send n [] = (tt, refl, λ h. refl)
send_dialog_dtmf-sent send n (r ∷ s) =
    let (all, prefix, whole) = send_dialog_dtmf-sent send (suc n) s in
    elim (Bool-cases (is_dtmf_digit r)) [
      | inr other ↦ rw other (tt, refl, λ h. cc)
      | inl digit ↦ elim (Option-cases (refusal (send n r))) [
        | inr (why, refused) ↦ rw (digit, refused) ((digit, tt), refl, λ h. cc)
        | inl fine ↦ rw (digit, fine) ((digit, all), ap (◌∷◌ r) prefix, λ h. ap (◌∷◌ r) (whole h))
      ]
    ]
