-- ===== src/Udp/Measure/Examples.antt =====
-- A sender of five packets: the third one is lost, and the second one arrives twice.
use close.Prelude.{List, All, [], arith, none, refl, some, ℕ, ◌∷◌, ◌≡◌, ◌+◌, ◌<◌, ◌^◌}
use close.Udp.Measure.{
  Arrives, Delivers, brings, brought, ends, loses, lost, repeated, repeats, waits,
}
use close.Udp.Measure.Counts.{duplicates, received}
use close.Udp.Measure.Exact.{IsLive, measured, skipped}
use close.Udp.Payload.RoundTrip.{unpack-pack}
use close.Udp.Rate as Rate
use close.Udp.Recv.{Event, Packet, handle_packet, make_state, packet, run, take_stats, tick}
use close.Udp.Recv.Intervals.{serve}
use close.Udp.Send as Send
use close.Udp.Send.{SendConfig, Sent, ticks, wakes}

abbrev config : SendConfig
config = record { id = "0102030405060708"; rate = 0; count = 0; size = 16 }

abbrev eight : List ℕ
eight = 1 ∷ 2 ∷ 3 ∷ 4 ∷ 5 ∷ 6 ∷ 7 ∷ 8 ∷ []

abbrev sender : Send.Send
sender = Send.begin 0 eight config none

abbrev sends_at : ℕ → List Send.Event → List Send.Event
sends_at now later = wakes now ∷ ticks (some (some 16)) ∷ wakes now ∷ later

abbrev turns : List Send.Event
turns = sends_at 1 (sends_at 2 (sends_at 3 (sends_at 4 (sends_at 5 []))))

abbrev sent : ℕ → Sent
sent n = record { payload = record { id = eight; seq = n }; size = 16 }

abbrev arrived : ℕ → Packet
arrived n = record { payload = record { id = eight; seq = n }; payload_size = 16 }

abbrev rest : List Sent
rest = sent 1 ∷ sent 2 ∷ sent 3 ∷ sent 4 ∷ []

arrives : (n : ℕ) → n < 2 ^ 64 → Arrives (sent n) (arrived n)
arrives n h = unpack-pack (sent n).payload 16 (record { id_length = refl; seq_range = h })

abbrev arrivals : List Event
arrivals =
    packet 2 (arrived 1)
    ∷ tick 3
    ∷ packet 4 (arrived 3)
    ∷ packet 5 (arrived 1)
    ∷ packet 6 (arrived 4)
    ∷ []

abbrev delivery : Delivers eight 0 rest arrivals
delivery = brings 2 (arrived 1) (arrives 1 (omega arith)) (
    waits 3 (
      loses (
        brings 4 (arrived 3) (arrives 3 (omega arith)) (
          repeats 5 (arrived 1) refl (omega arith)
            (brings 6 (arrived 4) (arrives 4 (omega arith)) ends)))))

sends : (Send.run sender turns).1 ≡ sent 0 ∷ rest
unfolding Send.run Send.step Send.begin Rate.step Rate.start_clock
sends = refl

live : All IsLive (serve (make_state 1 (arrived 0)) arrivals).1
unfolding serve make_state take_stats handle_packet
live = (omega arith, tt)

measured_example :
    let (r, out) = serve (make_state 1 (arrived 0)) arrivals in
    (run [] (packet 1 (arrived 0) ∷ arrivals) ≡ (r ∷ [], out))
    × (received out + r.stats.packet_count ≡ brought delivery)
    × (duplicates out + r.stats.packet_dups ≡ repeated delivery)
    × ((after : ℕ) × (r.seq + after ≡ sender.seq + 4)
        × (skipped out + r.stats.packet_skips + after ≡ lost delivery))
unfolding Send.begin
measured_example =
    measured sender turns 1 (arrived 0) refl sends (omega arith) (omega arith)
      (arrives 0 (omega arith)) delivery live
