-- ===== src/Udp/Measure.antt =====
-- udp/send.go to udp/recv.go: the packets of a sender on their way to a receiver, and what the reports
-- of the receiver say about the network between the two.
pub mod Counts
pub mod Exact
pub mod Examples
use close.Prelude.{List, [], arith, ok, suc, zero, ℕ, ◌+◌, ◌∷◌, ◌≡◌, ◌≤◌}
use close.Udp.Payload.{pack, unpack}
use close.Udp.Recv.{Event, Packet, packet, tick}
use close.Udp.Send.{Sent}

-- The datagram of a sent packet is read as a packet, whatever the size of the socket's buffer.
abbrev pub Arrives : Sent → Packet → Type 0
Arrives p q = unpack (pack p.payload p.size) ≡ ok q.payload

-- What a network may make of packets, while the receiver's intervals end at any time. The number is
-- that of the last packet that arrived in order.
pub data Delivers (id : List ℕ) : ℕ → List Sent → List Event → Type 0 where
  ends : {last : ℕ} → Delivers id last [] []
  loses :
      {last : ℕ} {p : Sent} {ps : List Sent} {es : List Event}
      → Delivers id last ps es
      → Delivers id last (p ∷ ps) es
  brings :
      {last : ℕ} {p : Sent} {ps : List Sent} {es : List Event} (now : ℕ) (q : Packet)
      → Arrives p q
      → Delivers id p.payload.seq ps es
      → Delivers id last (p ∷ ps) (packet now q ∷ es)
  repeats :
      {last : ℕ} {ps : List Sent} {es : List Event} (now : ℕ) (q : Packet)
      → q.payload.id ≡ id
      → q.payload.seq ≤ last
      → Delivers id last ps es
      → Delivers id last ps (packet now q ∷ es)
  waits :
      {last : ℕ} {ps : List Sent} {es : List Event} (now : ℕ)
      → Delivers id last ps es
      → Delivers id last ps (tick now ∷ es)

module _ {id : List ℕ} where
  -- the packets that came in order
  abbrev pub brought : {last : ℕ} {ps : List Sent} {es : List Event} → Delivers id last ps es → ℕ
  brought ends = 0
  brought (loses d) = brought d
  brought (brings now q a d) = suc (brought d)
  brought (repeats now q i l d) = brought d
  brought (waits now d) = brought d

  -- the packets that did not come, or not in order
  abbrev pub lost : {last : ℕ} {ps : List Sent} {es : List Event} → Delivers id last ps es → ℕ
  lost ends = 0
  lost (loses d) = suc (lost d)
  lost (brings now q a d) = lost d
  lost (repeats now q i l d) = lost d
  lost (waits now d) = lost d

  -- the packets that came late or again
  abbrev pub repeated : {last : ℕ} {ps : List Sent} {es : List Event} → Delivers id last ps es → ℕ
  repeated ends = 0
  repeated (loses d) = repeated d
  repeated (brings now q a d) = repeated d
  repeated (repeats now q i l d) = suc (repeated d)
  repeated (waits now d) = repeated d
