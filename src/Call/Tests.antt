-- ===== src/Call/Tests.antt =====
-- Runs of the manager with one call and one invite.
use callfxo.Prelude.{
  ℕ, Bool, true, false, Option, none, some, List, [], ◌∷◌, ◌≡◌, ◌≢◌, ◌↔◌, ◌≤◌, ◌⊎◌, refl, inl, inr,
  arith, IsIn,
}
use callfxo.Prelude.Integers.{pos, is_positive}
use callfxo.Prelude.Equality.{nat_eq, list_eq}
use callfxo.Prelude.GoMap.{lookup}
use callfxo.Text.{Text, txt}
use callfxo.Store.Schema.{empty}
use callfxo.Call.Sdp.{MediaDescription, find_pcmu_payload}
use callfxo.Call.Sdp.Payload.{IsFormat, IsPcmuMap, find_pcmu_payload_sound}
use callfxo.Call.State.{SignalCallbacks, CallSession, InboundInvite, Manager}
use callfxo.Call.Media.{
  Datagram, latched, Latched, forward_sip_to_webrtc, forward_sip_to_webrtc-Latched,
}
use callfxo.Call.Registry.{get_user_call}
use callfxo.Call.Session.{MediaOutcome, answer, close}
use callfxo.Call.Session.Close.{closed_session, close-unregisters, close_twice}

abbrev pub audio : MediaDescription
audio = record {
  media = txt "audio";
  connection = none;
  port = 4000;
  formats = txt "8" ∷ txt "96" ∷ [];
  attributes = (txt "rtpmap", txt "96 PCMU/8000") ∷ [];
}

-- The media are set up, with the static payload type.
abbrev pub set_up : MediaOutcome
set_up =
    answer
      (some (record {
        connection = none;
        media_descriptions = record audio { formats = txt "0" ∷ [] } ∷ [];
      }))
      (some (txt "v=0"))

abbrev pub quiet : SignalCallbacks
quiet = record { on_ice_candidate = false; on_state = false; on_hangup = true }

abbrev pub call : CallSession
call = record {
  id = txt "c1";
  direction = txt "outgoing";
  user_id = pos 1;
  device_token = txt "t1";
  box_id = pos 7;
  number = txt "0800";
  caller_id = txt "0800";
  dialog_client = some 4;
  dialog_server = none;
  remote_rtp = none;
  remote_ready = true;
  sip_pt = 0;
  webrtc_pt = 0;
  callbacks = quiet;
  call_log_id = pos 9;
  closed = false;
}

abbrev pub ringing_call : InboundInvite
ringing_call = record {
  meta = record {
    id = txt "i1";
    sip_call_id = txt "s1";
    box_id = pos 7;
    box_name = txt "hall";
    caller_id = txt "Sue";
    remote_number = txt "0800";
    state = txt "ringing";
    created_at = 100;
    expires_at = 135;
    answered_by_user_id = pos 0;
    answered_by_device_token = [];
  };
  users = pos 2 ∷ pos 3 ∷ [];
  dialog = 5;
  remote_rtp = none;
  sip_pt = 0;
  timer = true;
  ended = false;
  connected = false;
}

abbrev pub manager : CallSession → InboundInvite → Manager
manager c inv = record {
  public_ip = txt "192.0.2.1";
  advertised_ip = [];
  store = record { tables = empty; faults = [] };
  notifier = true;
  calls_by_id = (txt "c1", 10) ∷ [];
  calls_by_sip_id = (txt "s0", 10) ∷ [];
  calls_by_user = (pos 1, 10) ∷ [];
  incoming_by_id = (txt "i1", 11) ∷ [];
  sessions = (10, c) ∷ [];
  invites = (11, inv) ∷ [];
  next_pointer = 12;
  trace = [];
}

abbrev pub running : Manager
running = manager call ringing_call

close-unregisters_example :
    let m' = close 10 true (txt "ended") (txt "bye") 200 running in
    (lookup 10 m'.sessions ≡ some (closed_session call))
    × (lookup (txt "c1") m'.calls_by_id ≡ none)
    × (is_positive (pos 1) ≡ true → get_user_call (pos 1) m' ≡ none)
    × ((sip_call_id : Text) → lookup sip_call_id m'.calls_by_sip_id ≢ some 10)
unfolding lookup
close-unregisters_example =
    close-unregisters 10 call true (txt "ended") (txt "bye") 200 running refl refl

close_twice_example :
    close 10 false (txt "failed") [] 201 (close 10 true (txt "ended") (txt "bye") 200 running)
    ≡ close 10 true (txt "ended") (txt "bye") 200 running
close_twice_example =
    close_twice 10 true false (txt "ended") (txt "bye") (txt "failed") [] 200 201 running

find_pcmu_payload_sound_example :
    (96 ≤ 255)
    × IsFormat 96 audio.formats
    × ((◌≡◌ {A = ℕ} 96 0) ⊎ ((a : Text × Text) × IsIn a audio.attributes × IsPcmuMap 96 a))
unfolding find_pcmu_payload callfxo.Prelude.Equality.list_beq
find_pcmu_payload_sound_example = find_pcmu_payload_sound audio 96 refl

-- Two senders, the first with a datagram that is no RTP packet.
abbrev datagrams : List Datagram
datagrams =
    record { source = record { ip = txt "10.0.0.5"; port = 4000 }; packet = none; written = true }
    ∷ record {
      source = record { ip = txt "10.0.0.6"; port = 4000 };
      packet = some (record { payload_type = 8; payload = txt "x" });
      written = true;
    }
    ∷ []

forward_sip_to_webrtc-Latched_example :
    Latched call (latched datagrams call.remote_rtp) (forward_sip_to_webrtc datagrams call)
forward_sip_to_webrtc-Latched_example = forward_sip_to_webrtc-Latched datagrams call
