-- ===== src/Web/Router/Handlers.antt =====
-- The answers of the single handlers hold no SIP password.
use callfxo.Prelude.{ℕ, Bool, ◌||◌, ◌&&◌, not, is_nil, Option, none, some, refl, if_both}
use callfxo.Prelude.Integers.{ℤ, is_positive}
use callfxo.Prelude.Equality.{◌==◌, list_eq, nat_eq}
use callfxo.Text.{Text, is_blank, trim_space}
use callfxo.Auth.{Session}
use callfxo.Store.Schema.{Store, role_admin, role_user, UserCredential, UserDevice}
use callfxo.Call.State.{Manager}
use callfxo.Web.Http.{Site, World, Request, Issued}
use callfxo.Web.Values.{normalize_device_token}
use callfxo.Web.Sessions as Sessions
use callfxo.Web.Accounts as Accounts
use callfxo.Web.Boxes as Boxes
use callfxo.Web.Listings as Listings
use callfxo.Web.Router.Hiding.{
  Hides, fine, missing_or-Hides, update_refused-Hides, answer_result-Hides, login_refused-Hides,
  with_payload-Hides, with_session-Hides, with_id-Hides, hidden_list, shown_list,
}

module _ (w : World) (s : Store) where
  pub create_fxo-Hides :
      (payload : Option Boxes.BoxRequest) → Hides (Boxes.handle_create_fxo w payload s)
  unfolding Boxes.handle_create_fxo
  create_fxo-Hides payload = with_payload-Hides payload _ s λ req.
      if_both Hides (is_blank req.name || is_blank req.sip_username || is_blank req.sip_password)
        (fine _ s tt)
        (answer_result-Hides _ _ _ (λ e. record { hides_in = tt }) (λ b s₁. fine _ s₁ refl))

  pub update_fxo-Hides :
      (id : Text) (payload : Option Boxes.BoxRequest) → Hides (Boxes.handle_update_fxo id payload s)
  unfolding Boxes.handle_update_fxo
  update_fxo-Hides id payload = with_id-Hides id _ s λ i. with_payload-Hides payload _ s λ req.
      answer_result-Hides _ _ _ (missing_or-Hides _)
        λ old s₁. answer_result-Hides _ _ _ update_refused-Hides (λ b s₂. fine _ s₂ refl)

  pub list_permissions-Hides : Hides (Boxes.handle_list_fxo_permissions w s)
  unfolding Boxes.handle_list_fxo_permissions
  list_permissions-Hides =
      answer_result-Hides _ _ _ (λ e. record { hides_in = tt })
        λ us s₁.
          answer_result-Hides _ _ _ (λ e. record { hides_in = tt })
            λ bs s₂.
              answer_result-Hides _ _ _ (λ e. record { hides_in = tt })
                λ ps s₃. fine _ s₃ (hidden_list bs)

  pub list_fxo-Hides :
      (m : Manager) (who : Option Session) → Hides (Listings.handle_list_fxo w m who s)
  unfolding Listings.handle_list_fxo
  list_fxo-Hides m who = with_session-Hides who _ s λ p.
      answer_result-Hides _ _ _ (λ e. record { hides_in = tt }) λ bs s₁. fine _ s₁ (shown_list m bs)

  pub create_hashed-Hides :
      (req : Accounts.CreateUserRequest) (o : Option Text)
      → Hides (Accounts.create_hashed w req o s)
  create_hashed-Hides req none = fine _ s tt
  create_hashed-Hides req (some hash) =
      if_both Hides
        (not (Accounts.requested_role req.role == role_user)
          && not (Accounts.requested_role req.role == role_admin))
        (fine _ s tt)
        (answer_result-Hides _ _ _ (λ e. record { hides_in = tt }) (λ u s₁. fine _ s₁ tt))

  pub admin_change-Hides :
      (id : ℤ) (o : Option Text) → Hides (Accounts.admin_change_hashed w id o s)
  admin_change-Hides id none = fine _ s tt
  admin_change-Hides id (some hash) =
      answer_result-Hides _ _ _ (missing_or-Hides _)
        (λ u s₁. fine _ (Accounts.forget_devices id w.now s₁) tt)

  pub create_user-Hides :
      (payload : Option Accounts.CreateUserRequest)
      → Hides (Accounts.handle_create_user w payload s)
  unfolding Accounts.handle_create_user
  create_user-Hides payload = with_payload-Hides payload _ s λ req.
      if_both Hides (is_nil (trim_space req.username) || is_nil req.password) (fine _ s tt)
        (create_hashed-Hides req (w.generate req.password))

  pub delete_user-Hides : (id : Text) → Hides (Accounts.handle_delete_user w id s)
  unfolding Accounts.handle_delete_user
  delete_user-Hides id = with_id-Hides id _ s λ i.
      answer_result-Hides _ _ _ (missing_or-Hides _)
        (λ u s₁. fine _ (Accounts.forget_devices i w.now s₁) tt)

  pub set_password-Hides :
      (id : Text) (payload : Option Text)
      → Hides (Accounts.handle_admin_change_user_password w id payload s)
  unfolding Accounts.handle_admin_change_user_password
  set_password-Hides id payload = with_id-Hides id _ s λ i.
      with_payload-Hides payload _ s
        λ pw. if_both Hides (is_nil pw) (fine _ s tt) (admin_change-Hides i (w.generate pw))

  pub list_users-Hides : Hides (Accounts.handle_list_users s)
  unfolding Accounts.handle_list_users
  list_users-Hides =
      answer_result-Hides _ _ _ (λ e. record { hides_in = tt }) (λ us s₁. fine _ s₁ tt)

  pub delete_fxo-Hides : (id : Text) → Hides (Boxes.handle_delete_fxo id s)
  unfolding Boxes.handle_delete_fxo
  delete_fxo-Hides id =
      with_id-Hides id _ s
        λ i. answer_result-Hides _ _ _ (missing_or-Hides _) (λ u s₁. fine _ s₁ tt)

  pub set_permission-Hides :
      (payload : Option Boxes.PermissionRequest)
      → Hides (Boxes.handle_set_fxo_permission w payload s)
  unfolding Boxes.handle_set_fxo_permission
  set_permission-Hides payload = with_payload-Hides payload _ s λ req.
      if_both Hides (not (is_positive req.user_id) || not (is_positive req.box_id)) (fine _ s tt) (
        answer_result-Hides _ _ _ (λ e. record { hides_in = tt })
          λ uc s₁.
            answer_result-Hides _ _ _ (λ e. record { hides_in = tt })
              λ b s₂.
                answer_result-Hides _ _ _ (λ e. record { hides_in = tt }) λ u s₃. fine _ s₃ tt)

  pub set_notify-Hides :
      (id : Text) (payload : Option Bool) (who : Option Session)
      → Hides (Boxes.handle_set_fxo_notify_preference w id payload who s)
  unfolding Boxes.handle_set_fxo_notify_preference
  set_notify-Hides id payload who = with_session-Hides who _ s λ p. with_id-Hides id _ s λ i.
      with_payload-Hides payload _ s
        λ n. answer_result-Hides _ _ _ (λ e. record { hides_in = tt }) (λ u s₁. fine _ s₁ tt)

  pub register_push-Hides :
      (payload : Option Listings.PushRequest) (who : Option Session)
      → Hides (Listings.handle_register_push_token w payload who s)
  unfolding Listings.handle_register_push_token
  register_push-Hides payload who = with_session-Hides who _ s λ p.
      with_payload-Hides payload _ s
        λ n. answer_result-Hides _ _ _ (missing_or-Hides _) (λ u s₁. fine _ s₁ tt)

  pub create_contact-Hides :
      (payload : Option Listings.ContactRequest) (who : Option Session)
      → Hides (Listings.handle_create_contact w payload who s)
  unfolding Listings.handle_create_contact
  create_contact-Hides payload who = with_session-Hides who _ s λ p.
      with_payload-Hides payload _ s λ req.
        if_both Hides (is_nil (trim_space req.name) || is_nil (trim_space req.number)) (fine _ s tt)
          (answer_result-Hides _ _ _ (λ e. record { hides_in = tt }) (λ u s₁. fine _ s₁ tt))

  pub delete_contact-Hides :
      (id : Text) (who : Option Session) → Hides (Listings.handle_delete_contact id who s)
  unfolding Listings.handle_delete_contact
  delete_contact-Hides id who = with_session-Hides who _ s λ p.
      with_id-Hides id _ s
        λ i. answer_result-Hides _ _ _ (missing_or-Hides _) (λ u s₁. fine _ s₁ tt)

  pub calls_with-Hides :
      (p : Session) (page size : Option ℕ) → Hides (Listings.calls_with p page size s)
  calls_with-Hides p none size = fine _ s tt
  calls_with-Hides p (some page) none = fine _ s tt
  calls_with-Hides p (some page) (some size) =
      answer_result-Hides _ _ _ (λ e. record { hides_in = tt }) (λ u s₁. fine _ s₁ tt)

  pub list_calls-Hides :
      (page size : Text) (who : Option Session) → Hides (Listings.handle_list_calls page size who s)
  unfolding Listings.handle_list_calls
  list_calls-Hides page size who =
      with_session-Hides who _ s
        λ p. calls_with-Hides p (Listings.query_number page 1) (Listings.query_number size 10)

  pub contacts_with-Hides :
      (p : Session) (q : Text) (limit : Option ℕ) → Hides (Listings.contacts_with p q limit s)
  contacts_with-Hides p q none = fine _ s tt
  contacts_with-Hides p q (some limit) =
      answer_result-Hides _ _ _ (λ e. record { hides_in = tt }) (λ u s₁. fine _ s₁ tt)

  pub list_contacts-Hides :
      (limit q : Text) (who : Option Session) → Hides (Listings.handle_list_contacts limit q who s)
  unfolding Listings.handle_list_contacts
  list_contacts-Hides limit q who =
      with_session-Hides who _ s
        λ p. contacts_with-Hides p (trim_space q) (Listings.query_number limit 500)

  module _ (site : Site) (r : Request) where
    pub answer_issued-Hides :
        (uc : UserCredential) (i : Option Issued × Store)
        → Hides (Sessions.answer_issued site w r uc i)
    answer_issued-Hides uc (none, s₁) = fine _ s₁ tt
    answer_issued-Hides uc (some i, s₁) = fine _ s₁ tt

    pub login-Hides :
        (payload : Option Sessions.LoginRequest) → Hides (Sessions.handle_login site w r payload s)
    unfolding Sessions.handle_login
    login-Hides payload = with_payload-Hides payload _ s λ req.
        if_both Hides (is_nil (trim_space req.username) || is_nil req.password) (fine _ s tt) (
          answer_result-Hides _ _ _ login_refused-Hides λ uc s₁.
            if_both Hides (site.compare uc.password_hash req.password) (answer_issued-Hides uc _)
              (fine _ s₁ tt))

    pub refresh_device-Hides :
        (req : Sessions.RefreshRequest) (token : Text) (dev : UserDevice) (s₁ : Store)
        → Hides (Sessions.refresh_device site w r req token dev s₁)
    refresh_device-Hides req token dev s₁ =
        if_both Hides (Sessions.accepts_refresh site w.now dev token)
          (answer_result-Hides _ _ _ (λ e. record { hides_in = tt })
            (λ uc s₂. answer_issued-Hides uc _))
          (fine _ s₁ tt)

    pub refresh-Hides :
        (req : Sessions.RefreshRequest) → Hides (Sessions.handle_refresh site w r req s)
    unfolding Sessions.handle_refresh
    refresh-Hides req =
        if_both Hides (is_nil (normalize_device_token req.device_token)) (fine _ s tt) (
          if_both Hides (is_nil (Sessions.presented_token req r)) (fine _ s tt) (
            answer_result-Hides _ _ _ (λ e. record { hides_in = tt })
              (refresh_device-Hides req (Sessions.presented_token req r))))

    pub change_hashed-Hides :
        (p : Session) (s₁ : Store) (o : Option Text)
        → Hides (Accounts.change_own_hashed site w r p o s₁)
    change_hashed-Hides p s₁ none = fine _ s₁ tt
    change_hashed-Hides p s₁ (some hash) =
        answer_result-Hides _ _ _ (λ e. record { hides_in = tt })
          (λ u s₂. fine _ (Accounts.forget_devices p.user_id w.now s₂) tt)

    pub change_own-Hides :
        (payload : Option Accounts.ChangePasswordRequest) (who : Option Session)
        → Hides (Accounts.handle_change_own_password site w r payload who s)
    unfolding Accounts.handle_change_own_password
    change_own-Hides payload who = with_session-Hides who _ s λ p.
        with_payload-Hides payload _ s λ req.
          if_both Hides (is_nil req.old_password || is_nil req.new_password) (fine _ s tt) (
            answer_result-Hides _ _ _ (missing_or-Hides _) λ uc s₁.
              if_both Hides (site.compare uc.password_hash req.old_password)
                (change_hashed-Hides p s₁ (w.generate req.new_password)) (fine _ s₁ tt))
