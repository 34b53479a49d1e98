-- ===== src/Sip/Register/Authenticated.antt =====
-- Only a request with a valid nonce and the right digest changes the tables.
use callfxo.Prelude.{
  ℕ, ◌≤◌, true, some, ◌≡◌, refl, arith, ap, ◌∙◌, is_nil, Bool-cases, Option-cases, inl, inr, ◌⊎◌,
  if_of_false,
}
use callfxo.Prelude.Equality.{◌==◌, nat_eq, int_eq, list_eq}
use callfxo.Prelude.GoMap.{lookup}
use callfxo.Prelude.Rows.{first}
use callfxo.Text.{Text}
use callfxo.Store.Schema.{FxoBox, Result, ok, err}
use callfxo.Store.Statements.{read-eq-ok, read-keeps, found-injective}
use callfxo.Store.Boxes.{get_fxo_box_by_sip_username}
use callfxo.Sip.Tokens.{Credentials, verify_digest_response}
use callfxo.Sip.Nonces.{Service, Response, validate_nonce, reply_auth_challenge, store_nonce}
use callfxo.Sip.Nonces.Life.{validate_nonce_iff, validate_nonce-reusable}
use callfxo.Sip.Register.{
  RegisterRequest, RegisterWorld, name_credentials, run_store, register_account,
  register_credentials, parse_authorization, on_register,
}

-- The box that credentials stand for: an issued nonce whose time has not passed, and the digest of
-- the password of the box with that name.
abbrev pub Proves : RegisterRequest → RegisterWorld → Service → Credentials → FxoBox → Type 0
Proves req w s cred box =
    ((exp : ℕ) × (lookup cred.nonce s.nonces ≡ some exp) × (w.now ≤ exp))
    × (first (λ (b : FxoBox). b.sip_username == cred.username) s.store.tables.boxes ≡ some box)
    × (verify_digest_response w.md5_hex (some cred) box.sip_password req.method ≡ true)

-- The request has credentials that stand for a box.
abbrev pub IsAuthentic : RegisterRequest → RegisterWorld → Service → Type 0
IsAuthentic req w s =
    (cred : Credentials) × (box : FxoBox) × (parse_authorization w.parse_credentials
        req.authorization
      ≡ some cred)
    × Proves req w s (name_credentials req.to_user cred) box

abbrev Keeps : Service → Response × Service → Type 0
Keeps s r = (r.1).store.tables ≡ s.store.tables

challenge-Keeps :
    (now : ℕ) (nonce opaque : Text) (s : Service)
    → Keeps s (reply_auth_challenge now nonce opaque s)
unfolding reply_auth_challenge store_nonce
challenge-Keeps now nonce opaque s = refl

validate-Keeps :
    (now : ℕ) (nonce : Text) (s : Service)
    → (validate_nonce now nonce s).1.store.tables ≡ s.store.tables
unfolding validate_nonce
validate-Keeps now nonce s = ground arith

account-checks :
    (req : RegisterRequest) (w : RegisterWorld) (cred : Credentials) (r : Result FxoBox)
    (s : Service)
    → Keeps s (register_account req w cred (r, s))
      ⊎ ((box : FxoBox) × (r ≡ ok box)
          × (verify_digest_response w.md5_hex (some cred) box.sip_password req.method ≡ true))
account-checks req w cred (err e) s = inl refl
account-checks req w cred (ok box) s =
    elim (Bool-cases (verify_digest_response w.md5_hex (some cred) box.sip_password req.method)) [
      | inl right ↦ inr (box, refl, right)
      | inr wrong ↦ inl (rw (if_of_false _ _ wrong) (challenge-Keeps w.now w.nonce w.opaque s))
    ]

module _ (req : RegisterRequest) (w : RegisterWorld) (cred : Credentials) (s : Service) where
  lookup-found :
      (box : FxoBox)
      → (run_store (get_fxo_box_by_sip_username cred.username) s).0 ≡ ok box
      → first (λ (b : FxoBox). b.sip_username == cred.username) s.store.tables.boxes ≡ some box
  unfolding get_fxo_box_by_sip_username run_store
  lookup-found box h = found-injective (
      (read-eq-ok _ s.store
        (ap (λ r. (r, (get_fxo_box_by_sip_username cred.username s.store).1)) h)).0)

  lookup-Keeps :
      (run_store (get_fxo_box_by_sip_username cred.username) s).1.store.tables ≡ s.store.tables
  unfolding get_fxo_box_by_sip_username run_store
  lookup-Keeps = read-keeps _ s.store

  abbrev looked : Result FxoBox × Service
  looked = run_store (get_fxo_box_by_sip_username cred.username) s

  credentials-checks :
      Keeps s (register_credentials req w cred s) ⊎ ((box : FxoBox) × Proves req w s cred box)
  unfolding register_credentials
  credentials-checks = elim (Bool-cases (is_nil cred.username)) [
    | inl blank ↦ rw blank (inl refl)
    | inr named ↦ elim (Bool-cases (validate_nonce w.now cred.nonce s).0) [
      | inr stale ↦
          rw (named, stale)
            (inl (
              challenge-Keeps w.now w.nonce w.opaque (validate_nonce w.now cred.nonce s).1
              ∙ validate-Keeps w.now cred.nonce s))
      | inl valid ↦
          rw (named, valid, validate_nonce-reusable w.now cred.nonce s valid)
            (elim (account-checks req w cred looked.0 looked.1) [
              | inl kept ↦ inl (kept ∙ lookup-Keeps)
              | inr (box, found, right) ↦ inr (
                box,
                (
                  ((validate_nonce_iff w.now cred.nonce s).0 valid).1,
                  lookup-found box found,
                  right,
                ),
              )
            ])
    ]
  ]

-- A REGISTER changes the tables only where it has credentials with a nonce that was issued and whose
-- time has not passed, and with the digest of the password of the box whose name they bear.
pub on_register-authenticated :
    (req : RegisterRequest) (w : RegisterWorld) (s : Service)
    → ((on_register req w s).1.store.tables ≡ s.store.tables) ⊎ IsAuthentic req w s
unfolding on_register
on_register-authenticated req w s =
    elim (Option-cases (parse_authorization w.parse_credentials req.authorization)) [
      | inl none_given ↦
          inl (rw (on_register, none_given) (challenge-Keeps w.now w.nonce w.opaque s))
      | inr (cred, given) ↦
          rw (on_register, given)
            (elim (credentials-checks req w (name_credentials req.to_user cred) s) [
              | inl kept ↦ inl kept
              | inr (box, proof) ↦ inr (cred, box, refl, proof)
            ])
    ]
