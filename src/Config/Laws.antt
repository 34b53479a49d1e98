-- ===== src/Config/Laws.antt =====
-- What Load and Ensure promise of the settings.
use callfxo.Prelude.{
  ℕ, ◌*◌, ◌^◌, ◌<◌, true, false, Option, none, some, ◌≡◌, refl, arith, ap, sym, ◌∙◌, ltb, subst,
  if◌then◌else◌, if_of_true, if_of_false, Bool-cases, inl, inr,
}
use callfxo.Prelude.Integers.{ℤ, pos, negsuc, is_positive, to_nat}
use mathlib.Core.Option.{some-injective}
use callfxo.Text.{Text}
use callfxo.Config.{
  Config, default, wrap_int, minutes_of_hours, positive_or, normalize, Yaml, Disk, load_parsed,
  load_text, load, save_text, save, saved, ensure_file, ensure,
}

positive_or-positive :
    (n fallback : ℤ) → is_positive fallback ≡ true → is_positive (positive_or n fallback) ≡ true
positive_or-positive n fallback h = elim (Bool-cases (is_positive n)) [
  | inl good ↦ rw good (good)
  | inr bad ↦ rw bad h
]

-- The hours that are in minutes less than 2 ^ 63.
wrap_small : (n : ℕ) → n * 60 < 2 ^ 63 → ltb 0 n ≡ true → is_positive (wrap_int (n * 60)) ≡ true
unfolding wrap_int
wrap_small n h p = ground arith

legacy-positive :
    (l : ℤ)
    → to_nat l * 60 < 2 ^ 63
    → is_positive (if is_positive l then minutes_of_hours l else pos 60) ≡ true
legacy-positive (negsuc n) h = refl
legacy-positive (pos n) h = elim (Bool-cases (ltb 0 n)) [
  | inl good ↦ rw good (wrap_small n h good)
  | inr bad ↦ rw bad refl
]

normalize-positive :
    (c : Config)
    → to_nat c.auth.legacy_session_ttl * 60 < 2 ^ 63
    → (is_positive (normalize c).auth.access_ttl_minutes ≡ true)
      × (is_positive (normalize c).auth.refresh_ttl_hours ≡ true)
      × (is_positive (normalize c).media.ice_turn_credential_ttl_minutes ≡ true)
unfolding normalize
normalize-positive c h = (
  positive_or-positive c.auth.access_ttl_minutes _ (legacy-positive c.auth.legacy_session_ttl h),
  positive_or-positive c.auth.refresh_ttl_hours _ refl,
  positive_or-positive c.media.ice_turn_credential_ttl_minutes _ refl,
)

parsed-positive :
    (o : Option Config) {cfg : Config}
    → load_parsed o ≡ some cfg
    → ((raw : Config) → o ≡ some raw → to_nat raw.auth.legacy_session_ttl * 60 < 2 ^ 63)
    → (is_positive cfg.auth.access_ttl_minutes ≡ true)
      × (is_positive cfg.auth.refresh_ttl_hours ≡ true)
      × (is_positive cfg.media.ice_turn_credential_ttl_minutes ≡ true)
parsed-positive none h small = cc
parsed-positive (some raw) {cfg} h small =
    subst
      (λ (c : Config).
        (is_positive c.auth.access_ttl_minutes ≡ true)
        × (is_positive c.auth.refresh_ttl_hours ≡ true)
        × (is_positive c.media.ice_turn_credential_ttl_minutes ≡ true))
      (some-injective (normalize raw) cfg h) (normalize-positive raw (small raw refl))

-- The three lifetimes of access tokens, refresh tokens and TURN credentials that Load returns
-- (`access_ttl_minutes`, `refresh_ttl_hours`, `ice_turn_credential_ttl_minutes`) are positive, whatever the
-- file says, where the hours of the old setting `session_ttl_hours` make fewer than 2 ^ 63 minutes.
pub load-positive :
    (yaml : Yaml) (disk : Disk) {cfg : Config}
    → load yaml disk ≡ some cfg
    → ((b : Text) (raw : Config)
        → disk.file ≡ some b
        → yaml.unmarshal b default ≡ some raw
        → to_nat raw.auth.legacy_session_ttl * 60 < 2 ^ 63)
    → (is_positive cfg.auth.access_ttl_minutes ≡ true)
      × (is_positive cfg.auth.refresh_ttl_hours ≡ true)
      × (is_positive cfg.media.ice_turn_credential_ttl_minutes ≡ true)
unfolding load
load-positive yaml disk {cfg} h small = elim (Bool-cases disk.read_fails) [
  | inl bad ↦ cc (if_of_true none (load_text yaml disk.file) bad, h)
  | inr good ↦ from disk.file refl (sym (if_of_false none (load_text yaml disk.file) good) ∙ h)
]
  where
    from :
        (o : Option Text)
        → disk.file ≡ o
        → load_text yaml o ≡ some cfg
        → (is_positive cfg.auth.access_ttl_minutes ≡ true)
          × (is_positive cfg.auth.refresh_ttl_hours ≡ true)
          × (is_positive cfg.media.ice_turn_credential_ttl_minutes ≡ true)
    from none e k = cc
    from (some b) e k = parsed-positive (yaml.unmarshal b default) k (λ raw. small b raw e)

default_normal : normalize default ≡ default
unfolding normalize default
default_normal = refl

load-written :
    (yaml : Yaml) (disk : Disk) (b : Text)
    → disk.read_fails ≡ false
    → disk.file ≡ some b
    → yaml.unmarshal b default ≡ some default
    → load yaml disk ≡ some default
unfolding load
load-written yaml disk b r f h = rw (r, f, h) (ap some default_normal)

ensure-there :
    (yaml : Yaml) (disk : Disk) {b : Text}
    → disk.stat_fails ≡ false
    → disk.file ≡ some b
    → ensure yaml disk ≡ (load yaml disk, disk)
unfolding ensure
ensure-there yaml disk s f = rw (s, f) refl

module _ (yaml : Yaml) {cfg : Config} {disk' : Disk}
    (law : (b : Text)
      → yaml.marshal default ≡ some b
      → yaml.unmarshal b default ≡ some default) where
  saved-again :
      (o : Option Text) (disk : Disk)
      → yaml.marshal default ≡ o
      → disk.stat_fails ≡ false
      → disk.read_fails ≡ false
      → saved default (save_text o disk) ≡ (some cfg, disk')
      → ensure yaml disk' ≡ (some cfg, disk')
  saved-again none disk e s r h = cc
  saved-again (some b) disk e s r h =
      let written : Disk = record disk { file = some b } in
      elim (Bool-cases disk.write_fails) [
        | inl bad ↦ cc (ap (saved default) (if_of_true (false, disk) (true, written) bad), h)
        | inr good ↦
            let k : ◌≡◌ {A = Option Config × Disk} (some default, written) (some cfg, disk') =
              sym (ap (saved default) (if_of_false (false, disk) (true, written) good)) ∙ h in
            subst (λ (p : Option Config × Disk). ensure yaml p.1 ≡ p) k
              (ensure-there yaml written s refl
                ∙ ap (λ (o : Option Config). (o, written))
                    (load-written yaml written b r refl (law b e)))
      ]

  -- Where a start of the program got its settings, the next start gets the same ones and leaves the file
  -- as it is, whether the first start found the file or made it, if YAML reads back the defaults that it
  -- writes and the file can be read.
  pub ensure_twice :
      (disk : Disk)
      → disk.read_fails ≡ false
      → ensure yaml disk ≡ (some cfg, disk')
      → ensure yaml disk' ≡ (some cfg, disk')
  unfolding ensure save
  ensure_twice disk r h = elim (Bool-cases disk.stat_fails) [
    | inl bad ↦ cc (if_of_true (none, disk) (ensure_file yaml disk.file disk) bad, h)
    | inr good ↦
        from disk.file refl good
          (sym (if_of_false (none, disk) (ensure_file yaml disk.file disk) good) ∙ h)
  ]
    where
      from :
          (o : Option Text)
          → disk.file ≡ o
          → disk.stat_fails ≡ false
          → ensure_file yaml o disk ≡ (some cfg, disk')
          → ensure yaml disk' ≡ (some cfg, disk')
      from none e s k = saved-again (yaml.marshal default) disk refl s r k
      from (some b) e s k =
          subst (λ (d : Disk). ensure yaml d ≡ (some cfg, disk'))
            (ap (λ (p : Option Config × Disk). p.1) k) (ensure-there yaml disk s e ∙ k)
