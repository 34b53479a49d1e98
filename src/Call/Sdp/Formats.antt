-- ===== src/Call/Sdp/Formats.antt =====
-- The formats of a media section, as findPCMUPayload collects them.
use callfxo.Prelude.{
  ℕ, ◌≤◌, true, false, Option, none, some, List, [], ◌∷◌, ◌≡◌, refl, ◌⊎◌, inl, inr, arith, ap, ◌∙◌,
  Bool-cases,
}
use callfxo.Prelude.Equality.{◌==◌, nat_eq, list_eq, ==_iff}
use callfxo.Text.{Text, trim_space}
use callfxo.Call.Sdp.{payload_number, format_set, in_set, is_zero_payload, note_payload}

-- One of the formats of the media section is this payload number.
abbrev pub Offered : ℕ → List Text → Type 0
Offered n [] = ⊥
Offered n (f ∷ fs) = (payload_number (trim_space f) ≡ some n) ⊎ Offered n fs

payload_number-le : (s : Text) {n : ℕ} → payload_number s ≡ some n → n ≤ 255
unfolding payload_number
payload_number-le s h = ground arith

pub Offered-le : (n : ℕ) (fs : List Text) → Offered n fs → n ≤ 255
Offered-le n [] h = elim h [ ]
Offered-le n (f ∷ fs) (inl e) = payload_number-le (trim_space f) e
Offered-le n (f ∷ fs) (inr r) = Offered-le n fs r

-- The loop over the formats stops early exactly at a 0.
pub format_set-none : (fs : List Text) (seen : List ℕ) → format_set fs seen ≡ none → Offered 0 fs
unfolding format_set
format_set-none [] seen h = cc
format_set-none (f ∷ fs) seen h =
    elim (Bool-cases (is_zero_payload (payload_number (trim_space f)))) [
      | inl zero_here ↦ inl (ground arith)
      | inr other ↦ inr (format_set-none fs _ (rw other at h))
    ]

-- What the loop collects was there or is a format.
pub format_set-some :
    (fs : List Text) (seen set : List ℕ) (n : ℕ)
    → format_set fs seen ≡ some set
    → in_set n set ≡ true
    → (in_set n seen ≡ true) ⊎ Offered n fs
unfolding format_set in_set
format_set-some [] seen set n h k = inl (ground arith)
format_set-some (f ∷ fs) seen set n h k =
    elim (Bool-cases (is_zero_payload (payload_number (trim_space f)))) [
      | inl zero_here ↦ cc (rw zero_here at h)
      | inr other ↦ step (payload_number (trim_space f)) refl (
          format_set-some fs (note_payload (payload_number (trim_space f)) seen) set n
            (rw other at h) k)
    ]
  where
    step :
        (o : Option ℕ)
        → payload_number (trim_space f) ≡ o
        → (in_set n (note_payload (payload_number (trim_space f)) seen) ≡ true) ⊎ Offered n fs
        → (in_set n seen ≡ true) ⊎ Offered n (f ∷ fs)
    step none e (inl old) = inl (rw e at old)
    step (some m) e (inl old) = note m e (rw e at old) (Bool-cases (m == n))
      where
        note :
            (m : ℕ)
            → payload_number (trim_space f) ≡ some m
            → in_set n (m ∷ seen) ≡ true
            → ((m == n) ≡ true) ⊎ ((m == n) ≡ false)
            → (in_set n seen ≡ true) ⊎ Offered n (f ∷ fs)
        note m e old (inl same) = inr (inl (e ∙ ap some ((==_iff m n).0 same)))
        note m e old (inr different) = inl (rw different at old)
    step o e (inr later) = inr (inr later)

pub Offered-format_set : (fs : List Text) (seen : List ℕ) → Offered 0 fs → format_set fs seen ≡ none
unfolding format_set
Offered-format_set [] seen h = elim h [ ]
Offered-format_set (f ∷ fs) seen (inl e) = rw e refl
Offered-format_set (f ∷ fs) seen (inr r) =
    elim (Bool-cases (is_zero_payload (payload_number (trim_space f)))) [
      | inl zero_here ↦ rw zero_here refl
      | inr other ↦ rw other (Offered-format_set fs _ r)
    ]
