-- ===== src/Sip/Tests.antt =====
-- Runs of the SIP service for one box.
use callfxo.Prelude.{
  ℕ, Bool, true, false, Option, none, some, List, [], ◌∷◌, ◌+◌, ◌^◌, ◌≡◌, ◌≤◌, ◌<◌, ◌⊎◌, ◌↔◌, refl,
  arith, All, take, length, is_nil,
}
use callfxo.Prelude.Integers.{ℤ, pos}
use callfxo.Prelude.Equality.{nat_eq, list_eq}
use callfxo.Text.{Text, txt, trim_space}
use callfxo.Store.Schema.{FxoBox, Registration, ok, empty}
use callfxo.Store.Boxes.{FxoBoxWithStatus, list_fxo_boxes_with_status}
use callfxo.Sip.Tokens.{format_nc, Credentials, expiry, same_address}
use callfxo.Sip.Tokens.Expiry.{expiry-wraps}
use callfxo.Sip.Tokens.NonceCount.{hex_value, IsHexDigit, format_nc-reads}
use callfxo.Sip.Nonces.{Service}
use callfxo.Sip.Register.{RegisterRequest, RegisterWorld, run_store, on_register}
use callfxo.Sip.Register.Authenticated.{IsAuthentic, on_register-authenticated}
use callfxo.Sip.Invite.{InviteRequest, same_transport, on_invite}
use callfxo.Sip.Invite.Source.{Listed, on_invite-registered}

abbrev line : FxoBox
line = record {
  id = pos 7;
  name = txt "hall";
  sip_username = txt "fxo7";
  sip_password = txt "secret";
  created_at = 6;
}

abbrev at_home : Registration
at_home = record {
  fxo_box_id = pos 7;
  contact_uri = txt "sip:fxo7@10.0.0.7:5060";
  source_addr = txt "10.0.0.7:5060";
  transport = txt "udp";
  call_id = txt "r1";
  user_agent = [];
  expires_at = 200;
  updated_at = 90;
}

abbrev service : Service
service = record {
  realm = txt "callfxo";
  nonce_ttl = 60;
  nonces = (txt "n1", 160) ∷ [];
  store = record {
    tables = record empty { boxes = line ∷ []; registrations = at_home ∷ [] };
    faults = [];
  };
}

expiry-wraps_example : expiry 1700000000 9223372037 ≤ 1700000000
expiry-wraps_example = expiry-wraps 1700000000 9223372037 (omega arith) (omega arith)

abbrev bare : RegisterRequest
bare = record {
  method = txt "REGISTER";
  source = txt "10.0.0.7:5060";
  transport = txt "udp";
  authorization = some (txt "Digest");
  to_user = some (txt "fxo7");
  contact = none;
  expires = some (txt "0");
  call_id = some (txt "r1");
  user_agent = none;
}

-- Credentials whose response is the digest under a function that takes every text to the same one.
abbrev credentials : Credentials
credentials = record {
  username = txt "fxo7";
  realm = txt "callfxo";
  nonce = txt "n1";
  uri = txt "sip:callfxo";
  response = txt "d0";
  cnonce = [];
  qop = [];
  nc = pos 0;
}

abbrev parsed : RegisterWorld
parsed = record {
  parse_credentials = λ h. some credentials;
  md5_hex = λ s. txt "D0";
  now = 120;
  nonce = txt "n2";
  opaque = txt "o";
}

on_register-authenticated_example :
    ((on_register bare parsed service).1.store.tables ≡ service.store.tables)
    ⊎ IsAuthentic bare parsed service
on_register-authenticated_example = on_register-authenticated bare parsed service

abbrev ring_request : InviteRequest
ring_request = record {
  source = txt "10.0.0.7:5060";
  transport = txt "UDP";
  caller = record {
    p_asserted_identity = none;
    remote_party_id = none;
    from = some (record { user = txt "fxo7"; display_name = txt "\"Sue\"" });
  };
}

on_invite-registered_example :
    (items : List FxoBoxWithStatus) × (reg : Registration) × ((run_store
        (list_fxo_boxes_with_status 100)
        service).0
      ≡ ok items)
    × Listed (txt "10.0.0.7:5060") (txt "fxo7") items line reg
    × (same_address (txt "10.0.0.7:5060") reg.source_addr ≡ true)
    × (same_transport (txt "UDP") reg.transport ≡ true)
unfolding on_invite list_fxo_boxes_with_status callfxo.Prelude.Rows.first
    callfxo.Prelude.Integers.int_beq callfxo.Prelude.Equality.list_beq callfxo.Text.is_space
on_invite-registered_example =
    on_invite-registered true true 100 ring_request service line (txt "Sue") (txt "fxo7") refl

format_nc-reads_example :
    (hex_value 0 (format_nc (pos 305)) ≡ 305)
    × All IsHexDigit (format_nc (pos 305))
    × (8 ≤ length (format_nc (pos 305)))
    × (305 < 2 ^ 32 → length (format_nc (pos 305)) ≡ 8)
format_nc-reads_example = format_nc-reads 305 (ground arith)
