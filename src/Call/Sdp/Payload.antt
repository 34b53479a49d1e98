-- ===== src/Call/Sdp/Payload.antt =====
-- The choice of the payload type for PCMU: what it rests on, and when it is made.
use callfxo.Prelude.{
  ℕ, ◌≤◌, true, Option, none, some, List, [], ◌∷◌, ◌≡◌, refl, ◌⊎◌, inl, inr, arith, ap, sym, ◌∙◌,
  Bool-cases, subst, IsIn, ltb, if◌then◌else◌,
}
use callfxo.Prelude.Equality.{◌==◌, nat_eq, list_eq, ==_iff}
use callfxo.Text.{Text, txt, trim_space, equal_fold, is_blank}
use callfxo.Text.Parse.{atoi, fields, before, to_upper}
use callfxo.Prelude.Integers.{ℤ, pos, negsuc}
use mathlib.Core.Option.{some-injective}
use callfxo.Call.Sdp.{
  MediaDescription, payload_number, pcmu_fields, format_set, in_set, rtpmap_payload, mapped_payload,
  find_pcmu_payload,
}
use callfxo.Call.Sdp.Formats.{
  Offered, Offered-le, format_set-none, format_set-some, Offered-format_set,
}

module _ (set : List ℕ) where
  mapped_payload_sound :
      (attrs : List (Text × Text)) {n : ℕ}
      → mapped_payload set attrs ≡ some n
      → (in_set n set ≡ true) × ((a : Text × Text) × IsIn a attrs × (rtpmap_payload a ≡ some n))
  unfolding mapped_payload
  mapped_payload_sound [] h = cc
  mapped_payload_sound (a ∷ rest) {n} h = pick (rtpmap_payload a) refl (mapped_payload_sound rest)
    where
      later :
          ((in_set n set ≡ true) × ((b : Text × Text) × IsIn b rest × (rtpmap_payload b ≡ some n)))
          → (in_set n set ≡ true)
            × ((b : Text × Text) × IsIn b (a ∷ rest) × (rtpmap_payload b ≡ some n))
      later (k, (b, m, e)) = (k, (b, inr m, e))

      pick :
          (o : Option ℕ)
          → rtpmap_payload a ≡ o
          → (mapped_payload set rest ≡ some n
              → (in_set n set ≡ true)
                × ((b : Text × Text) × IsIn b rest × (rtpmap_payload b ≡ some n)))
          → (in_set n set ≡ true)
            × ((b : Text × Text) × IsIn b (a ∷ rest) × (rtpmap_payload b ≡ some n))
      pick none e ih = later (ih (rw (e, mapped_payload) at h))
      pick (some m) e ih = elim (Bool-cases (in_set m set)) [
        | inl hit ↦
            let same : m ≡ n = ground (arith, h, e, hit) in
            (rw (← same) hit, (a, inl refl, e ∙ ap some same))
        | inr miss ↦ later (ih (ground (arith, h, e, miss)))
      ]

not-in_set-nil : (n : ℕ) → in_set n [] ≡ true → ⊥
unfolding in_set
not-in_set-nil n h = cc

find_pcmu_payload-Offered :
    (md : MediaDescription) (n : ℕ)
    → find_pcmu_payload md ≡ some n
    → (n ≤ 255)
      × Offered n md.formats
      × ((n ≡ 0) ⊎ ((a : Text × Text) × IsIn a md.attributes × (rtpmap_payload a ≡ some n)))
unfolding find_pcmu_payload
find_pcmu_payload-Offered md n h = pick (format_set md.formats []) refl
  where
    offered :
        Offered n md.formats
        → ((n ≡ 0) ⊎ ((a : Text × Text) × IsIn a md.attributes × (rtpmap_payload a ≡ some n)))
        → (n ≤ 255)
          × Offered n md.formats
          × ((n ≡ 0) ⊎ ((a : Text × Text) × IsIn a md.attributes × (rtpmap_payload a ≡ some n)))
    offered o why = (Offered-le n md.formats o, o, why)

    pick :
        (o : Option (List ℕ))
        → format_set md.formats [] ≡ o
        → (n ≤ 255)
          × Offered n md.formats
          × ((n ≡ 0) ⊎ ((a : Text × Text) × IsIn a md.attributes × (rtpmap_payload a ≡ some n)))
    pick none e =
        let zero_is : 0 ≡ n = ground (arith, h, e) in
        offered (subst (λ k. Offered k md.formats) zero_is (format_set-none md.formats [] e))
          (inl (sym zero_is))
    pick (some set) e =
        let (k, found) =
          mapped_payload_sound set md.attributes {n = n} (rw (e, find_pcmu_payload) at h) in
        elim (format_set-some md.formats [] set n e k) [
          | inl nothing ↦ absurd (not-in_set-nil n nothing)
          | inr o ↦ offered o (inr found)
        ]

-- A format of the media section is the number, as strconv.Atoi reads it.
abbrev pub IsFormat : ℕ → List Text → Type 0
IsFormat n [] = ⊥
IsFormat n (f ∷ fs) = (atoi (trim_space f) ≡ some (pos n)) ⊎ IsFormat n fs

-- The attribute is an rtpmap of the number to a codec whose name is PCMU.
abbrev pub IsPcmuMap : ℕ → Text × Text → Type 0
IsPcmuMap n (key, value) =
    (equal_fold key (txt "rtpmap") ≡ true)
    × ((number : Text) × (codec : Text) × (rest : List Text) × (fields value
          ≡ number ∷ codec ∷ rest)
        × (atoi number ≡ some (pos n))
        × (to_upper (before b'/' codec) ≡ txt "PCMU"))

payload_number-atoi : (s : Text) {n : ℕ} → payload_number s ≡ some n → atoi s ≡ some (pos n)
unfolding payload_number
payload_number-atoi s {n} h = at (atoi s) h
  where
    at :
        (o : Option ℤ)
        → (elim o [
          | none ↦ none
          | some (pos k) ↦ if ltb 255 k then none else some k
          | some (negsuc k) ↦ none
        ])
          ≡ some n
        → o ≡ some (pos n)
    at none k = cc
    at (some (negsuc k)) l = cc
    at (some (pos k)) l = elim (Bool-cases (ltb 255 k)) [
      | inl large ↦ cc (rw large at l)
      | inr fits ↦ ap (λ j. some (pos j)) (some-injective k n (rw fits at l))
    ]

Offered-IsFormat : (n : ℕ) (fs : List Text) → Offered n fs → IsFormat n fs
Offered-IsFormat n [] h = h
Offered-IsFormat n (f ∷ fs) (inl e) = inl (payload_number-atoi (trim_space f) e)
Offered-IsFormat n (f ∷ fs) (inr r) = inr (Offered-IsFormat n fs r)

pcmu_fields_sound :
    (fs : List Text) {n : ℕ}
    → pcmu_fields fs ≡ some n
    → (number : Text) × (codec : Text) × (rest : List Text) × (fs ≡ number ∷ codec ∷ rest)
      × (atoi number ≡ some (pos n))
      × (to_upper (before b'/' codec) ≡ txt "PCMU")
pcmu_fields_sound [] h = cc
pcmu_fields_sound (number ∷ []) h = cc
pcmu_fields_sound (number ∷ codec ∷ rest) h =
    elim (Bool-cases (to_upper (before b'/' codec) == txt "PCMU")) [
      | inl named ↦ (
        number,
        codec,
        rest,
        refl,
        payload_number-atoi number (rw named at h),
        (==_iff (to_upper (before b'/' codec)) (txt "PCMU")).0 named,
      )
      | inr other ↦ cc (rw other at h)
    ]

rtpmap_payload-IsPcmuMap : (a : Text × Text) {n : ℕ} → rtpmap_payload a ≡ some n → IsPcmuMap n a
unfolding rtpmap_payload
rtpmap_payload-IsPcmuMap (key, value) h = elim (Bool-cases (equal_fold key (txt "rtpmap"))) [
  | inr other ↦ cc (rw other at h)
  | inl keyed ↦ elim (Bool-cases (is_blank value)) [
    | inl blank ↦ cc (rw (keyed, blank) at h)
    | inr there ↦ (keyed, pcmu_fields_sound (fields value) (rw (keyed, there) at h))
  ]
]

-- A payload type that findPCMUPayload returns fits a byte and is one of the formats of the section, and it is the
-- static 0, or an rtpmap attribute of the section maps it to the codec PCMU.
pub find_pcmu_payload_sound :
    (md : MediaDescription) (n : ℕ)
    → find_pcmu_payload md ≡ some n
    → (n ≤ 255)
      × IsFormat n md.formats
      × ((n ≡ 0) ⊎ ((a : Text × Text) × IsIn a md.attributes × IsPcmuMap n a))
find_pcmu_payload_sound md n h =
    let (small, offered, why) = find_pcmu_payload-Offered md n h in
    (
      small,
      Offered-IsFormat n md.formats offered,
      elim why [
        | inl static ↦ inl static
        | inr (a, there, maps) ↦ inr (a, there, rtpmap_payload-IsPcmuMap a maps)
      ],
    )

-- A section that offers the static payload type 0 gets it, whatever its attributes say.
pub find_pcmu_payload-static :
    (md : MediaDescription) → Offered 0 md.formats → find_pcmu_payload md ≡ some 0
unfolding find_pcmu_payload
find_pcmu_payload-static md h = rw (Offered-format_set md.formats [] h, find_pcmu_payload) refl
