-- ===== src/Udp/Recv/Accounting.antt =====
-- Every sequence number is accounted for, as received or as skipped.
use close.Prelude.{
  All, All-append, Bool-cases, List, [], arith, inl, inr, true, ℕ, ◌+◌, ◌-◌, ◌<◌, ◌^◌, ◌↔◌, ◌∷◌,
  ◌≡◌, ◌≤◌,
}
use close.Udp.Recv.{
  Event, Packet, RecvState, RecvStats, States, alive, handle_packet, make_state, on_packet, on_tick,
  packet, run, same_id, step, take_stats, tick, valid,
}

-- What holds of a sender's state between two events: the sequence numbers behind the start of the
-- interval, up to the last one seen, are the packets counted and those skipped.
pub record IsAccounted (r : RecvState) : Type 0 where
  pub seq_range : r.seq < 2 ^ 64
  pub start_le : r.stats.packet_start ≤ r.seq
  pub counted : r.stats.packet_count + r.stats.packet_skips ≡ r.seq - r.stats.packet_start
  pub seq_last : 0 < r.stats.packet_count → r.stats.packet_seq ≡ r.seq
  pub none_last : r.stats.packet_count ≡ 0 → (r.stats.packet_seq ≡ 0) × (r.stats.packet_skips ≡ 0)

pub make_state-IsAccounted :
    (now : ℕ) (p : Packet) → p.payload.seq < 2 ^ 64 → IsAccounted (make_state now p)
unfolding make_state
make_state-IsAccounted now p h = ground arith

pub handle_packet-IsAccounted :
    (now : ℕ) (p : Packet) (r : RecvState)
    → p.payload.seq < 2 ^ 64
    → IsAccounted r
    → IsAccounted (handle_packet now p r)
unfolding handle_packet
handle_packet-IsAccounted now p r h a = ground arith

pub take_stats-IsAccounted :
    (now : ℕ) (r : RecvState) → IsAccounted r → IsAccounted (take_stats now r).1
unfolding take_stats
take_stats-IsAccounted now r a = ground arith

-- A sender is alive just when a packet in sequence has come since the interval began.
alive_iff : (r : RecvState) → IsAccounted r → (alive r ≡ true) ↔ (0 < r.stats.packet_count)
unfolding alive
alive_iff r a = ground arith

-- The sequence number of a packet event is a `uint64`.
abbrev pub InRange : Event → Type 0
InRange (packet now p) = p.payload.seq < 2 ^ 64
InRange (tick now) = Unit {0}

-- What a report says: the interval is not empty, the ratio's denominator is not 0, and the numerators
-- of the two ratios, `PacketWin` and `PacketLoss`, add up to it.
pub record IsReport (s : RecvStats) : Type 0 where
  pub is_valid : valid s ≡ true
  pub received : 0 < s.packet_count
  pub offset_pos : s.packet_start < s.packet_seq
  pub seq_range : s.packet_seq < 2 ^ 64
  pub total : s.packet_count + s.packet_skips ≡ s.packet_seq - s.packet_start

take_stats-IsReport :
    (now : ℕ) (r : RecvState) → IsAccounted r → alive r ≡ true → IsReport (take_stats now r).0
unfolding take_stats alive valid
take_stats-IsReport now r a l = ground arith

on_packet-IsAccounted :
    (now : ℕ) (p : Packet) (rs : States)
    → p.payload.seq < 2 ^ 64
    → All IsAccounted rs
    → All IsAccounted (on_packet now p rs)
unfolding on_packet
on_packet-IsAccounted now p [] h a = (make_state-IsAccounted now p h, tt)
on_packet-IsAccounted now p (r ∷ rs) h a = elim (Bool-cases (same_id r.id p.payload.id)) [
  | inl e ↦ rw e (handle_packet-IsAccounted now p r h a.0, a.1)
  | inr e ↦ rw e (a.0, on_packet-IsAccounted now p rs h a.1)
]

on_tick-IsAccounted :
    (now : ℕ) (rs : States)
    → All IsAccounted rs
    → All IsAccounted (on_tick now rs).0 × All IsReport (on_tick now rs).1
unfolding on_tick
on_tick-IsAccounted now [] a = (tt, tt)
on_tick-IsAccounted now (r ∷ rs) a =
    let (keep, report) = on_tick-IsAccounted now rs a.1 in
    elim (Bool-cases (alive r)) [
      | inl e ↦
          rw e ((take_stats-IsAccounted now r a.0, keep), (take_stats-IsReport now r a.0 e, report))
      | inr e ↦ rw e (keep, report)
    ]

step-IsAccounted :
    (rs : States) (e : Event)
    → InRange e
    → All IsAccounted rs
    → All IsAccounted (step rs e).0 × All IsReport (step rs e).1
unfolding step
step-IsAccounted rs (packet now p) h a = (on_packet-IsAccounted now p rs h a, tt)
step-IsAccounted rs (tick now) h a = on_tick-IsAccounted now rs a

run_from-reports :
    (rs : States) (es : List Event)
    → All InRange es
    → All IsAccounted rs
    → All IsAccounted (run rs es).0 × All IsReport (run rs es).1
unfolding run
run_from-reports rs [] h a = (a, tt)
run_from-reports rs (e ∷ es) h a =
    let (a', out) = step-IsAccounted rs e h.0 a in
    let (a'', more) = run_from-reports (step rs e).0 es h.1 a' in
    (a'', All-append IsReport (step rs e).1 (run (step rs e).0 es).1 out more)

-- Whatever packets arrive, in any order and from any senders, and however the intervals fall: every
-- report of the receiver covers at least one packet in sequence, and its received and skipped packets
-- are exactly the sequence numbers from its start to its last packet.
pub run_reports : (es : List Event) → All InRange es → All IsReport (run [] es).1
run_reports es h = (run_from-reports [] es h tt).1
