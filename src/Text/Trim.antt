-- ===== src/Text/Trim.antt =====
-- TrimSpace leaves no white space at either end, so a second call changes nothing.
use callfxo.Prelude.{Bool, true, false, [], ◌∷◌, ◌≡◌, refl, arith, ap, ◌∙◌, if◌then◌else◌}
use callfxo.Text.{Text, is_space, trim_left, trim_right, trim_space}

trim_right-trim_right : (s : Text) → trim_right (trim_right s) ≡ trim_right s
unfolding trim_right
trim_right-trim_right [] = refl
trim_right-trim_right (c ∷ s) = ground (arith, trim_right-trim_right s)

-- The first character that `trim_left` keeps is no space.
starts_solid : Text → Bool
starts_solid [] = true
starts_solid (c ∷ s) = if is_space c then false else true

trim_left-solid : (s : Text) → starts_solid (trim_left s) ≡ true
unfolding starts_solid trim_left
trim_left-solid [] = refl
trim_left-solid (c ∷ s) = ground (arith, trim_left-solid s)

trim_right-solid : (s : Text) → starts_solid s ≡ true → starts_solid (trim_right s) ≡ true
unfolding starts_solid trim_right
trim_right-solid [] h = refl
trim_right-solid (c ∷ s) h = ground arith

trim_left-eq_of_solid : (s : Text) → starts_solid s ≡ true → trim_left s ≡ s
unfolding starts_solid trim_left
trim_left-eq_of_solid [] h = refl
trim_left-eq_of_solid (c ∷ s) h = ground arith

-- Trimming a trimmed text changes nothing.
pub trim_space_idem : (s : Text) → trim_space (trim_space s) ≡ trim_space s
unfolding trim_space
trim_space_idem s =
    ap trim_right (trim_left-eq_of_solid _ (trim_right-solid (trim_left s) (trim_left-solid s)))
    ∙ trim_right-trim_right (trim_left s)
