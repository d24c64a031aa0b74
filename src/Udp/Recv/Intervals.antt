-- ===== src/Udp/Recv/Intervals.antt =====
-- The reports of one sender, one after the other.
use close.Prelude.{All, List, [], arith, ℕ, ◌+◌, ◌∷◌, ◌≡◌, ◌≤◌}
use close.Udp.Recv.{Event, Packet, RecvState, RecvStats, handle_packet, packet, take_stats, tick}
use close.Udp.Recv.Accounting.{
  InRange, IsAccounted, handle_packet-IsAccounted, take_stats-IsAccounted,
}

-- One sender's state over its own packets and the intervals' ends, while it stays in the map.
unfoldable pub serve : RecvState → List Event → RecvState × List RecvStats
serve r [] = (r, [])
serve r (packet now p ∷ es) = serve (handle_packet now p r) es
serve r (tick now ∷ es) =
    let (s, r') = take_stats now r in let (r'', out) = serve r' es in (r'', s ∷ out)

-- the sequence numbers that a report accounts for
abbrev pub covered : RecvStats → ℕ
covered s = s.packet_count + s.packet_skips

abbrev pub total : List RecvStats → ℕ
total [] = 0
total (s ∷ ss) = covered s + total ss

handle_seq-le :
    (now : ℕ) (p : Packet) (r : RecvState)
    → (r.seq ≤ (handle_packet now p r).seq)
      × ((handle_packet now p r).stats.packet_start ≡ r.stats.packet_start)
unfolding handle_packet
handle_seq-le now p r = ground arith

take_start :
    (now : ℕ) (r : RecvState)
    → ((take_stats now r).1.stats.packet_start ≡ r.seq)
      × ((take_stats now r).1.seq ≡ r.seq)
      × (covered (take_stats now r).0 ≡ covered r.stats)
unfolding take_stats
take_start now r = ground arith

-- The reports of a sender and its running interval cover every sequence number from the first to the
-- last exactly once: what the reports count as received or skipped, with the interval that still
-- runs, is the distance from the first interval's start to the last packet.
pub serve_total :
    (r : RecvState) (es : List Event)
    → IsAccounted r
    → All InRange es
    → let (r', out) = serve r es in
      (r.stats.packet_start + total out + covered r'.stats ≡ r'.seq) × (r.seq ≤ r'.seq)
unfolding serve
serve_total r [] a h = ground arith
serve_total r (packet now p ∷ es) a h = ground (
  arith,
  handle_seq-le now p r,
  serve_total (handle_packet now p r) es (handle_packet-IsAccounted now p r h.0 a) h.1,
)
serve_total r (tick now ∷ es) a h = ground (
  arith,
  take_start now r,
  a,
  serve_total (take_stats now r).1 es (take_stats-IsAccounted now r a) h.1,
)
