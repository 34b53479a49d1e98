-- ===== src/Web/Sessions/Inversion.antt =====
-- What can be read off an answer that signs somebody in.
use callfxo.Prelude.{Option, none, some, ◌≡◌, refl, ap, ◌∙◌}
use mathlib.Core.Option.{some-injective}
use callfxo.Prelude.Equality.{nat_eq, list_eq}
use callfxo.Text.{Text}
use callfxo.Auth.{Session, create}
use callfxo.Store.Schema.{UserCredential, UserDevice, Store, Error, Result, ok, err}
use callfxo.Store.Devices.{upsert_user_device}
use callfxo.Web.Http.{Site, World, Request, Issued, Body, signed_in, Response, answer_result}
use callfxo.Web.Values.{hash_token, normalize_client_type}
use callfxo.Web.Sessions.{
  device_token_of, new_device, issued, issue_session, issue_tokens, issue_device_session,
  answer_issued,
}

-- What the answer issues, where it signs somebody in.
abbrev pub issued_of : Body → Option Issued
issued_of (signed_in b) = some b.issued
issued_of other = none

-- The account and the texts for which the tokens were issued, and the store that they were issued in.
abbrev pub Issues : Site → World → Issued → Store → Type 0
Issues site w i s' =
    (uc : UserCredential) × (device client name : Text) × (s : Store) × (issue_device_session site w
        uc device client name s
      ≡ (some i, s'))

-- The device that the tokens were stored with.
abbrev pub Stored : Site → World → Issued → Store → Store → Type 0
Stored site w i s s' =
    (dev : UserDevice) × (upsert_user_device dev none w.now s ≡ (ok tt, s'))
    × (dev.refresh_token_hash ≡ hash_token site i.refresh_token)
    × (dev.device_token ≡ i.device_token)

module _ {i : Issued} {s' : Store} where
  pub answer_issued-inv :
      (site : Site) (w : World) (r : Request) (uc : UserCredential) (o : Option Issued × Store)
      {a : Response}
      → answer_issued site w r uc o ≡ (a, s')
      → issued_of a.body ≡ some i
      → o ≡ (some i, s')
  answer_issued-inv site w r uc (none, s) h k =
      cc (ap (λ (p : Response × Store). issued_of (p.0).body) h)
  answer_issued-inv site w r uc (some j, s) h k =
      let same : ◌≡◌ {A = Option Issued} (some j) (some i) =
        ap (λ (p : Response × Store). issued_of (p.0).body) h ∙ k in
      ap (λ (p : Option Issued × Store). p) (cc (same, ap (λ (p : Response × Store). p.1) h))

  pub answer_result-inv :
      {A : Type 0} (r : Result A × Store) (bad : Error → Response)
      (good : A → Store → Response × Store) {a : Response}
      → ((e : Error) → issued_of (bad e).body ≡ none)
      → answer_result r bad good ≡ (a, s')
      → issued_of a.body ≡ some i
      → (v : A) × (s : Store) × (r ≡ (ok v, s)) × (good v s ≡ (a, s'))
  unfolding answer_result
  answer_result-inv (ok v, s) bad good no_issue h k = (v, s, refl, h)
  answer_result-inv (err e, s) bad good no_issue h k =
      cc (no_issue e, ap (λ (p : Response × Store). issued_of (p.0).body) h)

  issued-Stored :
      (site : Site) (w : World) (dev : UserDevice) (j : Issued) (s : Store)
      → dev.refresh_token_hash ≡ hash_token site j.refresh_token
      → dev.device_token ≡ j.device_token
      → issued j (upsert_user_device dev none w.now s) ≡ (some i, s')
      → Stored site w i s s'
  issued-Stored site w dev j s hash token h = from (upsert_user_device dev none w.now s) refl h
    where
      from :
          (r : Result (Unit {0}) × Store)
          → upsert_user_device dev none w.now s ≡ r
          → issued j r ≡ (some i, s')
          → Stored site w i s s'
      from (err e, s₁) same k = cc
      from (ok u, s₁) same k =
          let it : j ≡ i = some-injective j i (ap (λ (p : Option Issued × Store). p.0) k) in
          (
            dev,
            same ∙ ap (λ (x : Store). (ok tt, x)) (ap (λ (p : Option Issued × Store). p.1) k),
            hash ∙ ap (λ (x : Issued). hash_token site x.refresh_token) it,
            token ∙ ap (λ (x : Issued). x.device_token) it,
          )

  issue_tokens-Stored :
      (site : Site) (w : World) (uc : UserCredential) (device : Option Text) (client name : Text)
      (token : Option Text) (s : Store)
      → issue_tokens site w uc device client name token s ≡ (some i, s')
      → Stored site w i s s'
  issue_tokens-Stored site w uc none client name token s h = cc
  issue_tokens-Stored site w uc (some device) client name none s h = cc
  issue_tokens-Stored site w uc (some device) client name (some token) s h =
      from (create site.codec site.tokens uc.id uc.username uc.role device w.now w.nonce) h
    where
      from :
          (o : Option Session)
          → issue_session site w uc device client name token o s ≡ (some i, s')
          → Stored site w i s s'
      from none k = cc
      from (some session) k =
          issued-Stored site w (new_device site w uc.id device client name token) _ s refl refl k

  pub issue_device_session-Stored :
      (site : Site) (w : World) (uc : UserCredential) (device client name : Text) (s : Store)
      → issue_device_session site w uc device client name s ≡ (some i, s')
      → Stored site w i s s'
  unfolding issue_device_session
  issue_device_session-Stored site w uc device client name s h =
      issue_tokens-Stored site w uc (device_token_of device w.device_random)
        (normalize_client_type client) name w.refresh_random s h
