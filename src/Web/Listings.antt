-- ===== src/Web/Listings.antt =====
-- internal/web/server.go, lines 521 to 557 and 701 to 836: what a user lists of the boxes, the calls and the
-- contacts, and the push token of the device.
pub mod Pages
use callfxo.Prelude.{
  ℕ, ◌+◌, ◌-◌, ◌/◌, ◌||◌, Option, none, some, [], map, ltb, is_nil, if◌then◌else◌,
}
use callfxo.Prelude.Integers.{ℤ, pos, is_positive, to_nat}
use callfxo.Text.{Text, txt, trim_space, equal_fold}
use callfxo.Text.Parse.{atoi}
use callfxo.Auth.{Session}
use callfxo.Push.{public_config}
use callfxo.Store.Schema.{Store, role_admin}
use callfxo.Store.Boxes.{FxoBoxForUser, list_fxo_boxes_with_status_for_user}
use callfxo.Store.CallLogs.{list_call_logs_by_user}
use callfxo.Store.Contacts.{create_contact, delete_contact, list_contacts}
use callfxo.Store.Devices.{update_user_device_push}
use callfxo.Call.State.{Manager}
use callfxo.Call.Registry.{is_box_in_use, list_pending_incoming}
use callfxo.Web.Http.{
  Site, World, failure, success, push_item, contact_item, contact_items, box_items, call_page,
  incoming_items, Response, reply, refuse, missing_or, answer_result, with_payload, with_session,
  with_id,
}

unfoldable pub handle_push_config : Site → Response
unfolding public_config
handle_push_config site = reply 200 (push_item (public_config site.cfg.fcm))

pub record PushRequest : Type 0 where
  pub push_platform : Text
  pub push_token : Text

unfoldable pub handle_register_push_token :
    World → Option PushRequest → Option Session → Store → Response × Store
unfolding update_user_device_push
handle_register_push_token w payload who = with_session who λ session. with_payload payload λ req s.
    answer_result
      (update_user_device_push session.user_id session.device_token req.push_platform req.push_token
        w.now s)
      (missing_or (txt "device not found")) λ u s₁. (reply 200 success, s₁)

unfoldable pub handle_list_incoming_calls : Option Session → Manager → Response
unfolding list_pending_incoming
handle_list_incoming_calls none m = refuse 401 (txt "unauthorized")
handle_list_incoming_calls (some session) m =
    reply 200 (incoming_items (list_pending_incoming session.user_id m))

-- The box as the user sees it: without its password, and with what the manager of the calls knows.
abbrev pub shown_box : Manager → FxoBoxForUser → FxoBoxForUser
shown_box m b = record b {
  status = record (b.status) {
    box = record (b.status.box) { sip_password = [] };
    in_use = is_box_in_use b.status.box.id m;
  };
}

-- The manager is only read.
unfoldable pub handle_list_fxo : World → Manager → Option Session → Store → Response × Store
unfolding equal_fold list_fxo_boxes_with_status_for_user is_box_in_use
handle_list_fxo w m who = with_session who λ session s.
    answer_result
      (list_fxo_boxes_with_status_for_user w.now session.user_id
        (equal_fold session.role role_admin) s)
      (λ e. reply 500 (failure e)) λ items s₁. (reply 200 (box_items (map (shown_box m) items)), s₁)

abbrev pub positive_number : Option ℤ → Option ℕ
positive_number none = none
positive_number (some v) = if is_positive v then some (to_nat v) else none

-- A query parameter that is blank has the default; `none` is a parameter that is no positive number.
unfoldable pub query_number : Text → ℕ → Option ℕ
unfolding trim_space atoi
query_number raw fallback =
    if is_nil (trim_space raw) then some fallback else positive_number (atoi (trim_space raw))

-- An int stays below 2 ^ 63, as a count of rows and a page size of at most 100 do here.
unfoldable pub total_pages : ℕ → ℕ → ℕ
total_pages total page_size = if ltb 0 total then (total + page_size - 1) / page_size else 0

abbrev pub calls_page : Session → ℕ → ℕ → Store → Response × Store
calls_page session page page_size s =
    answer_result (list_call_logs_by_user session.user_id (pos page) (pos page_size) s)
      (λ e. reply 500 (failure e))
      λ found s₁. (
        reply 200 (
            call_page (record {
              items = found.0;
              page = page;
              page_size = page_size;
              total = found.1;
              total_pages = total_pages found.1 page_size;
            })),
        s₁,
      )

abbrev pub calls_with : Session → Option ℕ → Option ℕ → Store → Response × Store
calls_with session none size s = (refuse 400 (txt "invalid page"), s)
calls_with session (some page) none s = (refuse 400 (txt "invalid page_size"), s)
calls_with session (some page) (some size) s =
    calls_page session page (if ltb 100 size then 100 else size) s

unfoldable pub handle_list_calls : Text → Text → Option Session → Store → Response × Store
unfolding query_number total_pages list_call_logs_by_user
handle_list_calls raw_page raw_page_size who =
    with_session who
      λ session. calls_with session (query_number raw_page 1) (query_number raw_page_size 10)

abbrev pub contacts_with : Session → Text → Option ℕ → Store → Response × Store
contacts_with session q none s = (refuse 400 (txt "invalid limit"), s)
contacts_with session q (some limit) s =
    answer_result (list_contacts session.user_id q (pos limit) s) (λ e. reply 500 (failure e))
      λ items s₁. (reply 200 (contact_items items), s₁)

unfoldable pub handle_list_contacts : Text → Text → Option Session → Store → Response × Store
unfolding query_number trim_space list_contacts
handle_list_contacts raw_limit q who =
    with_session who λ session. contacts_with session (trim_space q) (query_number raw_limit 500)

pub record ContactRequest : Type 0 where
  pub name : Text
  pub number : Text

unfoldable pub handle_create_contact :
    World → Option ContactRequest → Option Session → Store → Response × Store
unfolding trim_space create_contact
handle_create_contact w payload who = with_session who λ session. with_payload payload λ req s.
    if is_nil (trim_space req.name) || is_nil (trim_space req.number)
    then (refuse 400 (txt "name/number required"), s)
    else answer_result
        (create_contact session.user_id (trim_space req.name) (trim_space req.number) w.now s)
        (λ e. reply 500 (failure e)) λ item s₁. (reply 201 (contact_item item), s₁)

unfoldable pub handle_delete_contact : Text → Option Session → Store → Response × Store
unfolding delete_contact
handle_delete_contact raw_id who = with_session who λ session. with_id raw_id λ id s.
    answer_result (delete_contact session.user_id id s) (missing_or (txt "contact not found"))
      λ u s₁. (reply 200 success, s₁)
