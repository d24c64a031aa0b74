-- ===== src/Udp/Recv/Examples.antt =====
-- A sender of which the packets 5, 7 and again 7 arrive.
use mathlib.Core.Quot
use close.Prelude.{All, List, [], arith, ℕ, ◌∷◌, ◌≡◌}
use close.Udp.Recv.{Event, Packet, RecvState, make_state, packet, run, tick}
use close.Udp.Recv.Fields.{HasRatios, run-HasRatios}
use close.Udp.Recv.Order.{receive, receive_comm}
use close.Udp.Recv.Accounting.{InRange, IsReport, run_reports}

abbrev numbered : ℕ → Packet
numbered n = record { payload = record { id = []; seq = n }; payload_size = 16 }

abbrev arrivals : List Event
arrivals =
    packet 1 (numbered 5) ∷ packet 2 (numbered 7) ∷ tick 3 ∷ packet 4 (numbered 7) ∷ tick 5 ∷ []

in_range : All InRange arrivals
in_range = (omega arith, (omega arith, (tt, (omega arith, (tt, tt)))))

run_reports_example : All IsReport (run [] arrivals).1
run_reports_example = run_reports arrivals in_range

-- Packets of two senders.
abbrev of_sender : ℕ → ℕ → Packet
of_sender i n = record { payload = record { id = i ∷ []; seq = n }; payload_size = 16 }

abbrev first : RecvState
first = make_state 0 (of_sender 1 4)

abbrev second : RecvState
second = make_state 0 (of_sender 2 9)

abbrev both : List Event
both = packet 1 (of_sender 2 10) ∷ packet 2 (of_sender 1 6) ∷ tick 3 ∷ []

receive_comm_example :
    receive 1 (of_sender 1 5) (receive 2 (of_sender 2 9) (Quot.mk []))
    ≡ receive 2 (of_sender 2 9) (receive 1 (of_sender 1 5) (Quot.mk []))
receive_comm_example =
    receive_comm 1 2 (of_sender 1 5) (of_sender 2 9) (λ e. ground arith) (Quot.mk [])

-- The two ratios as pairs.
abbrev pair : ℕ → ℕ → ℕ × ℕ
pair a b = (a, b)

run-HasRatios_example : All (HasRatios pair) (run [] arrivals).1
run-HasRatios_example = run-HasRatios pair arrivals in_range
