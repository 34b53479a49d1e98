-- ===== src/Web/Sessions/Rotation.antt =====
-- The rotation of refresh tokens: what a sign-in stores, and which tokens are refused from then on.
use callfxo.Prelude.{
  ℕ, ltb, Bool, false, ◌||◌, not, Option, none, some, [], ◌≡◌, refl, arith, ap, sym, subst, ◌∙◌,
  is_nil, Bool-cases, inl, inr, if_both, if_of_true, if_of_false,
}
use mathlib.Core.Option.{some-injective}
use callfxo.Prelude.Equality.{◌==◌, nat_eq, list_eq, beq_refl}
use callfxo.Prelude.Rows.{overwrite, first}
use callfxo.Text.Trim.{trim_space_idem}
use callfxo.Store.Statements.{read-eq-ok, read-keeps, found-injective}
use callfxo.Text.{Text, txt, trim_space, equal_fold, first_non_blank}
use callfxo.Store.Schema.{UserDevice, Tables, Store, Result, ok, err, found}
use callfxo.Store.Users.{get_user_credential_by_id}
use callfxo.Store.Devices.{device_row, merge_device, device_by_token, get_user_device_by_token}
use callfxo.Store.Devices.Upsert.{upsert_user_device-device_by_token}
use callfxo.Web.Http.{Site, World, Request, Issued, Response, answer_result}
use callfxo.Web.Values.{hash_token, normalize_device_token}
use callfxo.Web.Sessions.{
  issue_device_session, answer_issued, RefreshRequest, accepts_refresh, presented_token,
  refuse_session, refresh_device, handle_refresh,
}
use callfxo.Web.Sessions.Inversion.{
  issued_of, Stored, answer_issued-inv, answer_result-inv, issue_device_session-Stored,
}

overwritten-hash :
    (row : UserDevice) (o : Option UserDevice)
    → (overwrite row (merge_device row) o).refresh_token_hash ≡ row.refresh_token_hash
unfolding merge_device
overwritten-hash row none = refl
overwritten-hash row (some old) = refl

-- The device that was signed in holds the hash of the token that was issued, and no other.
abbrev pub Holds : Site → Issued → Store → Type 0
Holds site i s =
    (d : UserDevice) × (device_by_token i.device_token s.tables ≡ some d)
    × (d.refresh_token_hash ≡ trim_space (hash_token site i.refresh_token))

pub Stored-Holds :
    (site : Site) (w : World) (i : Issued) (s s' : Store) → Stored site w i s s' → Holds site i s'
unfolding device_row
Stored-Holds site w i s s' (dev, h, hash, token) =
    let row = device_row dev none w.now in
    let merged = overwrite row (merge_device row) (device_by_token dev.device_token s.tables) in
    (
      merged,
      ap (λ (t : Text). device_by_token t s'.tables) (sym token)
          ∙ upsert_user_device-device_by_token dev none w.now s h dev.device_token
          ∙ if_of_true _ _ (beq_refl list_eq (trim_space dev.device_token)),
      overwritten-hash row (device_by_token dev.device_token s.tables) ∙ ap trim_space hash,
    )

-- What a lookup by token finds, and that it changes nothing.
lookup-ok :
    (token : Text) (s : Store) {d : UserDevice} {s' : Store}
    → get_user_device_by_token token s ≡ (ok d, s')
    → (device_by_token token s.tables ≡ some d) × (s'.tables ≡ s.tables)
unfolding get_user_device_by_token
lookup-ok token s h =
    let (at, kept) = read-eq-ok (λ t. found (device_by_token token t)) s h in
    (found-injective at, kept)

lookup-keeps : (token : Text) (s : Store) → (get_user_device_by_token token s).1.tables ≡ s.tables
unfolding get_user_device_by_token
lookup-keeps token s = read-keeps (λ t. found (device_by_token token t)) s

device_by_token-trim :
    (token : Text) (t : Tables)
    → device_by_token (normalize_device_token token) t ≡ device_by_token token t
unfolding device_by_token normalize_device_token
device_by_token-trim token t =
    ap (λ (u : Text). first (λ (d : UserDevice). d.device_token == u) t.devices)
      (trim_space_idem token)

third_fails : (a b c : Bool) → c ≡ false → not (a || b || not c) ≡ false
third_fails a b c h = ground arith

not_accepted :
    (site : Site) (now : ℕ) (d : UserDevice) (token : Text)
    → equal_fold d.refresh_token_hash (hash_token site token) ≡ false
    → accepts_refresh site now d token ≡ false
unfolding accepts_refresh
not_accepted site now d token h =
    third_fails (is_nil d.refresh_token_hash) (ltb d.refresh_expires_at now) _ h

module _ (site : Site) (w : World) (r : Request) (req : RefreshRequest) (s : Store) where
  -- The answer, where the device of the request holds no hash of the token that is presented.
  pub refresh-refused :
      (d : UserDevice)
      → is_nil (normalize_device_token req.device_token) ≡ false
      → device_by_token req.device_token s.tables ≡ some d
      → accepts_refresh site w.now d (presented_token req r) ≡ false
      → ((handle_refresh site w r req s).0.status ≡ 401)
        × ((handle_refresh site w r req s).1.tables ≡ s.tables)
  unfolding handle_refresh answer_result
  refresh-refused d there at bad = subst Refused (sym (if_of_false _ _ there)) (
      if_both Refused (is_nil (presented_token req r)) (refl, refl)
        (from (get_user_device_by_token (normalize_device_token req.device_token) s) refl))
    where
      Refused : Response × Store → Type 0
      Refused p = (p.0.status ≡ 401) × (p.1.tables ≡ s.tables)

      from :
          (o : Result UserDevice × Store)
          → get_user_device_by_token (normalize_device_token req.device_token) s ≡ o
          → Refused (
              answer_result o
                (λ e. refuse_session site r (txt "invalid refresh session"))
                (refresh_device site w r req (presented_token req r)))
      from (err e, s₁) same = (
        refl,
        ap (λ (p : Result UserDevice × Store). (p.1).tables) (sym same)
            ∙ lookup-keeps (normalize_device_token req.device_token) s,
      )
      from (ok v, s₁) same =
          let (found_it, kept) = lookup-ok (normalize_device_token req.device_token) s same in
          let it : d ≡ v =
            some-injective d v
              (sym at ∙ sym (device_by_token-trim req.device_token s.tables) ∙ found_it) in
          subst Refused
            (sym (
              if_of_false _ _ (
                subst
                  (λ (x : UserDevice). accepts_refresh site w.now x (presented_token req r) ≡ false)
                  it bad)))
            (refl, kept)

  module _ {i : Issued} {a : Response} {s' : Store} where
    pub refresh-Stored :
        handle_refresh site w r req s ≡ (a, s')
        → issued_of a.body ≡ some i
        → (s₁ : Store) × Stored site w i s₁ s'
    unfolding handle_refresh
    refresh-Stored h k = elim (Bool-cases (is_nil (normalize_device_token req.device_token))) [
      | inl blank ↦
          cc (
            ap (λ (p : Response × Store). issued_of (p.0).body) (sym (if_of_true _ _ blank) ∙ h),
            k,
          )
      | inr there ↦ elim (Bool-cases (is_nil (presented_token req r))) [
        | inl blank ↦ cc (
          ap (λ (p : Response × Store). issued_of (p.0).body)
              (sym (if_of_true _ _ blank) ∙ sym (if_of_false _ _ there) ∙ h),
          k,
        )
        | inr token ↦
            let (dev, s₁, looked, rest) =
              answer_result-inv
                (get_user_device_by_token (normalize_device_token req.device_token) s)
                (λ e. refuse_session site r (txt "invalid refresh session"))
                (refresh_device site w r req (presented_token req r)) (λ e. refl)
                (sym (if_of_false _ _ token) ∙ sym (if_of_false _ _ there) ∙ h) k in
            from_device dev s₁ rest
      ]
    ]
      where
        from_device :
            (dev : UserDevice) (s₁ : Store)
            → refresh_device site w r req (presented_token req r) dev s₁ ≡ (a, s')
            → (s₂ : Store) × Stored site w i s₂ s'
        from_device dev s₁ l =
            elim (Bool-cases (accepts_refresh site w.now dev (presented_token req r))) [
              | inr bad ↦ cc (
                ap (λ (p : Response × Store). issued_of (p.0).body) (sym (if_of_false _ _ bad) ∙ l),
                k,
              )
              | inl good ↦
                  let (uc, s₂, found_it, issues) =
                    answer_result-inv (get_user_credential_by_id dev.user_id s₁)
                      (λ e. refuse_session site r (txt "invalid refresh session"))
                      (λ uc s₃. answer_issued site w r uc (
                        issue_device_session site w uc dev.device_token
                          (first_non_blank req.client_type dev.client_type)
                          (first_non_blank req.device_name dev.device_name) s₃))
                      (λ e. refl) (sym (if_of_true _ _ good) ∙ l) k in
                  (
                    s₂,
                    issue_device_session-Stored site w uc dev.device_token _ _ s₂
                        (answer_issued-inv site w r uc _ issues k),
                  )
            ]

-- After a refresh that succeeds, a refresh of the same device by any token whose hash is not that of the
-- token that was issued, such as the one that has just been used, is answered with 401 and changes nothing.
pub handle_refresh_rotates :
    (site : Site) (w w' : World) (r r' : Request) (req req' : RefreshRequest) (s : Store)
    {i : Issued} {a : Response} {s' : Store}
    → handle_refresh site w r req s ≡ (a, s')
    → issued_of a.body ≡ some i
    → req'.device_token ≡ i.device_token
    → is_nil (normalize_device_token req'.device_token) ≡ false
    → equal_fold
        (trim_space (hash_token site i.refresh_token))
        (hash_token site (presented_token req' r'))
      ≡ false
    → ((handle_refresh site w' r' req' s').0.status ≡ 401)
      × ((handle_refresh site w' r' req' s').1.tables ≡ s'.tables)
handle_refresh_rotates site w w' r r' req req' s {i} {s'} h k same there differs =
    let (s₁, stored) = refresh-Stored site w r req s h k in
    let (d, at, hash) = Stored-Holds site w i s₁ s' stored in
    refresh-refused site w' r' req' s' d there
      (ap (λ (t : Text). device_by_token t s'.tables) same ∙ at)
      (not_accepted site w'.now d (presented_token req' r') (
        subst (λ (x : Text). equal_fold x (hash_token site (presented_token req' r')) ≡ false)
          (sym hash) differs))

pub hashless_refused :
    (site : Site) (now : ℕ) (d : UserDevice) (token : Text)
    → d.refresh_token_hash ≡ []
    → accepts_refresh site now d token ≡ false
unfolding accepts_refresh
hashless_refused site now d token h = rw h refl
