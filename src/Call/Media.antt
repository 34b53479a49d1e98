-- ===== src/Call/Media.antt =====
-- internal/call/manager.go, lines 718 to 759: the two loops that forward RTP packets between the browser and
-- the far end. The address of the far end is set before the first loop starts and stays from then on.
use callfxo.Prelude.{
  ℕ, Bool, Option, none, some, List, [], ◌∷◌, All, ◌≡◌, refl, ap, ◌∙◌, subst, Option-cases, inl,
  inr, if_both, if◌then◌else◌,
}
use callfxo.Text.{Text}
use callfxo.Call.State.{Address, CallSession}

-- rtp.Packet; the payload stands for all that is not the payload type.
pub record Packet : Type 0 where
  pub payload_type : ℕ
  pub payload : Text

-- A packet of the browser, whether Marshal takes it, and whether the socket does.
pub record BrowserPacket : Type 0 where
  pub packet : Packet
  pub marshals : Bool
  pub written : Bool

-- A datagram: where it comes from, what Unmarshal makes of it, and whether the track takes that.
pub record Datagram : Type 0 where
  pub source : Address
  pub packet : Option Packet
  pub written : Bool

abbrev pub retyped : ℕ → Packet → Packet
retyped pt p = record p { payload_type = pt }

-- What the far end is sent, until ReadRTP fails.
unfoldable pub forward_browser : List BrowserPacket → CallSession → List (Address × Packet)
forward_browser [] c = []
forward_browser (b ∷ bs) c =
    let rest = forward_browser bs c in
    if b.marshals
    then elim c.remote_rtp [
      | none ↦ rest
      | some target ↦ if b.written then (target, retyped c.sip_pt b.packet) ∷ rest else []
    ]
    else rest

-- The loop waits for the far end.
unfoldable pub forward_webrtc_to_sip : List BrowserPacket → CallSession → List (Address × Packet)
unfolding forward_browser
forward_webrtc_to_sip bs c = if c.remote_ready then forward_browser bs c else []

-- A source is taken for the far end where there is none.
abbrev pub learn : Address → CallSession → CallSession
learn src c = elim c.remote_rtp [ none ↦ record c { remote_rtp = some src } | some addr ↦ c ]

-- The session behind a run of datagrams, until ReadFromUDP fails, and what the browser is sent.
unfoldable pub forward_sip_to_webrtc : List Datagram → CallSession → CallSession × List Packet
forward_sip_to_webrtc [] c = (c, [])
forward_sip_to_webrtc (d ∷ ds) c =
    let c₁ = learn d.source c in
    let (c₂, sent) = forward_sip_to_webrtc ds c₁ in
    elim d.packet [
      | none ↦ (c₂, sent)
      | some p ↦ if d.written then (c₂, retyped c.webrtc_pt p ∷ sent) else (c₁, [])
    ]

-- The address behind a run of datagrams.
abbrev pub latched : List Datagram → Option Address → Option Address
latched ds (some addr) = some addr
latched [] none = none
latched (d ∷ ds) none = some d.source

-- Nothing but the address of the far end has changed, and the packets have the browser's payload type.
abbrev pub Latched : CallSession → Option Address → CallSession × List Packet → Type 0
Latched c a (c', sent) =
    (c' ≡ record c { remote_rtp = a }) × All (λ (p : Packet). p.payload_type ≡ c.webrtc_pt) sent

with_address :
    (c : CallSession) {a : Option Address} → c.remote_rtp ≡ a → c ≡ record c { remote_rtp = a }
with_address c h = ap (λ (a : Option Address). record c { remote_rtp = a }) h

learn-latched :
    (d : Datagram) (ds : List Datagram) (c : CallSession)
    → learn d.source c ≡ record c { remote_rtp = latched (d ∷ ds) c.remote_rtp }
learn-latched d ds c = elim (Option-cases c.remote_rtp) [
  | inl unset ↦ rw unset refl
  | inr (a, set) ↦ rw set refl
]

rest-latched :
    (d : Datagram) (ds : List Datagram) (c : CallSession)
    → latched ds (learn d.source c).remote_rtp ≡ latched (d ∷ ds) c.remote_rtp
rest-latched d ds c = elim (Option-cases c.remote_rtp) [
  | inl unset ↦ rw unset refl
  | inr (a, set) ↦ rw set refl
]

latched-nil : (o : Option Address) → o ≡ latched [] o
latched-nil none = refl
latched-nil (some a) = refl

turn-Latched :
    (d : Datagram) (c c₁ c₂ : CallSession) (a : Option Address) (sent : List Packet)
    (o : Option Packet)
    → c₁ ≡ record c { remote_rtp = a }
    → Latched c a (c₂, sent)
    → Latched c a (elim o [
      | none ↦ (c₂, sent)
      | some p ↦ if d.written then (c₂, retyped c.webrtc_pt p ∷ sent) else (c₁, [])
    ])
turn-Latched d c c₁ c₂ a sent none h k = k
turn-Latched d c c₁ c₂ a sent (some p) h (same, all) =
    if_both (Latched c a) d.written (same, (refl, all)) (h, tt)

from_learnt :
    (d : Datagram) (ds : List Datagram) (c : CallSession) (r : CallSession × List Packet)
    → Latched (learn d.source c) (latched ds (learn d.source c).remote_rtp) r
    → Latched c (latched (d ∷ ds) c.remote_rtp) r
from_learnt d ds c (c₂, sent) (same, all) =
    let l = learn-latched d ds c in
    (
      same
          ∙ ap
              (λ (x : CallSession). record x {
                remote_rtp = latched ds (learn d.source c).remote_rtp;
              })
              l
          ∙ ap (λ (a : Option Address). record c { remote_rtp = a }) (rest-latched d ds c),
      subst (λ (k : ℕ). All (λ (p : Packet). p.payload_type ≡ k) sent)
          (ap (λ (x : CallSession). x.webrtc_pt) l) all,
    )

-- Whatever datagrams come, the far end of a session stays the one that is set, and else becomes the source
-- of the first datagram; nothing else of the session changes, and every packet that the browser is sent has
-- the payload type that was agreed with the browser.
pub forward_sip_to_webrtc-Latched :
    (ds : List Datagram) (c : CallSession)
    → Latched c (latched ds c.remote_rtp) (forward_sip_to_webrtc ds c)
unfolding forward_sip_to_webrtc
forward_sip_to_webrtc-Latched [] c = (with_address c (latched-nil c.remote_rtp), tt)
forward_sip_to_webrtc-Latched (d ∷ ds) c =
    let (c₂, sent) = forward_sip_to_webrtc ds (learn d.source c) in
    turn-Latched d c (learn d.source c) c₂ (latched (d ∷ ds) c.remote_rtp) sent d.packet
      (learn-latched d ds c)
      (from_learnt d ds c (c₂, sent) (forward_sip_to_webrtc-Latched ds (learn d.source c)))
