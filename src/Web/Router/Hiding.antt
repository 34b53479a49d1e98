-- ===== src/Web/Router/Hiding.antt =====
-- What it is that a response holds no SIP password, through the parts that handlers are made of.
use callfxo.Prelude.{Option, none, some, List, [], ◌∷◌, map, ◌≡◌, refl, All}
use callfxo.Prelude.Integers.{ℤ}
use callfxo.Prelude.Equality.{list_eq, nat_eq}
use callfxo.Text.{Text}
use callfxo.Auth.{Session}
use callfxo.Store.Schema.{
  Store, Error, not_found, constraint, engine, unsupported_field, Result, ok, err,
}
use callfxo.Store.Boxes.{FxoBoxWithStatus, FxoBoxForUser}
use callfxo.Call.State.{Manager}
use callfxo.Web.Http.{
  Body, message, failure, success, relogin, signed_in, me, push_item, user_item, user_items,
  contact_item, contact_items, box_item, box_items, permission_page, call_page, incoming_items,
  Response, missing_or, answer_result, with_payload, with_session, with_parsed_id, with_id,
  parse_id_param,
}
use callfxo.Web.Sessions as Sessions
use callfxo.Web.Boxes as Boxes
use callfxo.Web.Listings as Listings

-- No box of the body has a password.
abbrev pub HidesPasswords : Body → Type 0
HidesPasswords (message why) = Unit
HidesPasswords (failure e) = Unit
HidesPasswords success = Unit
HidesPasswords relogin = Unit
HidesPasswords (signed_in i) = Unit
HidesPasswords (me s c) = Unit
HidesPasswords (push_item c) = Unit
HidesPasswords (user_item u) = Unit
HidesPasswords (user_items us) = Unit
HidesPasswords (contact_item c) = Unit
HidesPasswords (contact_items cs) = Unit
HidesPasswords (box_item b) = b.sip_password ≡ []
HidesPasswords (box_items bs) = All (λ (b : FxoBoxForUser). b.status.box.sip_password ≡ []) bs
HidesPasswords (permission_page p) = All (λ (b : FxoBoxWithStatus). b.box.sip_password ≡ []) p.boxes
HidesPasswords (call_page p) = Unit
HidesPasswords (incoming_items cs) = Unit

-- The response of a handler has no password, as a type that unification does not look into.
pub record Hides (p : Response × Store) : Type 0 where
  pub hides : HidesPasswords p.0.body

pub record HidesIn (r : Response) : Type 0 where
  pub hides_in : HidesPasswords r.body

pub fine : (r : Response) (s : Store) → HidesPasswords r.body → Hides (r, s)
fine r s h = record { hides = h }

pub missing_or-Hides : (why : Text) (e : Error) → HidesIn (missing_or why e)
unfolding missing_or
missing_or-Hides why not_found = record { hides_in = tt }
missing_or-Hides why constraint = record { hides_in = tt }
missing_or-Hides why engine = record { hides_in = tt }
missing_or-Hides why unsupported_field = record { hides_in = tt }

pub update_refused-Hides : (e : Error) → HidesIn (Boxes.update_refused e)
unfolding Boxes.update_refused
update_refused-Hides not_found = record { hides_in = tt }
update_refused-Hides constraint = record { hides_in = tt }
update_refused-Hides engine = record { hides_in = tt }
update_refused-Hides unsupported_field = record { hides_in = tt }

pub answer_result-Hides :
    {A : Type 0} (r : Result A × Store) (bad : Error → Response)
    (good : A → Store → Response × Store)
    → ((e : Error) → HidesIn (bad e))
    → ((a : A) (s : Store) → Hides (good a s))
    → Hides (answer_result r bad good)
unfolding answer_result
answer_result-Hides (ok a, s) bad good p q = q a s
answer_result-Hides (err e, s) bad good p q = fine (bad e) s (p e).hides_in

pub login_refused-Hides : (e : Error) → HidesIn (Sessions.login_refused e)
unfolding Sessions.login_refused
login_refused-Hides not_found = record { hides_in = tt }
login_refused-Hides constraint = record { hides_in = tt }
login_refused-Hides engine = record { hides_in = tt }
login_refused-Hides unsupported_field = record { hides_in = tt }

pub with_payload-Hides :
    {P : Type 0} (o : Option P) (handler : P → Store → Response × Store) (s : Store)
    → ((p : P) → Hides (handler p s))
    → Hides (with_payload o handler s)
unfolding with_payload
with_payload-Hides none handler s q = fine _ s tt
with_payload-Hides (some p) handler s q = q p

pub with_session-Hides :
    (o : Option Session) (handler : Session → Store → Response × Store) (s : Store)
    → ((p : Session) → Hides (handler p s))
    → Hides (with_session o handler s)
unfolding with_session
with_session-Hides none handler s q = fine _ s tt
with_session-Hides (some p) handler s q = q p

pub with_parsed_id-Hides :
    (o : Option ℤ) (handler : ℤ → Store → Response × Store) (s : Store)
    → ((p : ℤ) → Hides (handler p s))
    → Hides (with_parsed_id o handler s)
unfolding with_parsed_id
with_parsed_id-Hides none handler s q = fine _ s tt
with_parsed_id-Hides (some p) handler s q = q p

pub with_id-Hides :
    (raw : Text) (handler : ℤ → Store → Response × Store) (s : Store)
    → ((p : ℤ) → Hides (handler p s))
    → Hides (with_id raw handler s)
unfolding with_id
with_id-Hides raw handler s q = with_parsed_id-Hides (parse_id_param raw) handler s q

pub hidden_list :
    (bs : List FxoBoxWithStatus)
    → All (λ (b : FxoBoxWithStatus). b.box.sip_password ≡ []) (map Boxes.hide_password bs)
hidden_list [] = tt
hidden_list (b ∷ bs) = (refl, hidden_list bs)

pub shown_list :
    (m : Manager) (bs : List FxoBoxForUser)
    → All (λ (b : FxoBoxForUser). b.status.box.sip_password ≡ []) (map (Listings.shown_box m) bs)
shown_list m [] = tt
shown_list m (b ∷ bs) = (refl, shown_list m bs)
