-- ===== src/Icmp/Ping/Examples.antt =====
-- A pinger that has sent one request.
use close.Prelude.{
  All, arith, none, List, Option, [], length, refl, some, true, ℕ, ◌+◌, ◌∷◌, ◌≡◌, ◌≤◌,
}
use close.Icmp.Conn.{Conn, Echo, MessageType, Ping, echo_ipv4, send, u16}
use close.Icmp.Ping.{
  Event, Pinger, answer, keep, lookup_seq, pushes, receives, run, step, timer, turn,
}
use close.Icmp.Ping.Answers.{request_answered}
use close.Icmp.Ping.Requests.{requests, run_reports_once}

abbrev marshalled : MessageType → Echo → Option (List ℕ)
marshalled t e = some (e.seq ∷ [])

abbrev conn : Conn
conn = record {
  target_ip = 127 ∷ 0 ∷ 0 ∷ 1 ∷ [];
  proto = record {
    listen_str = "udp4";
    resolve_str = "ip4";
    iana_proto = 1;
    message_type = echo_ipv4;
  };
  id = 70000;
}

abbrev first : Ping
first = record { time = 5; ip = []; id = 4464; seq = 65535; bytes = [] }

abbrev pinger : Pinger
pinger = record {
  conn = conn;
  has_stats = true;
  packets = (65535, first) ∷ [];
  packet = first;
  running = true;
}

abbrev response : Ping
response = record { time = 9; ip = []; id = 1; seq = 0; bytes = [] }

run_reports_once_example :
    let (s', out) =
      run marshalled pinger (timer 7 (λ wb. some 1) ∷ receives response ∷ receives first ∷ []) in
    (length out + length s'.packets
      ≤ 1
        + requests marshalled pinger
            (timer 7 (λ wb. some 1) ∷ receives response ∷ receives first ∷ []))
    × All (λ st. st.id ≡ u16 70000) out
run_reports_once_example =
    run_reports_once marshalled pinger
      (timer 7 (λ wb. some 1) ∷ receives response ∷ receives first ∷ []) (refl, tt)

abbrev between : List Event
between =
    timer 8 (λ wb. some 1) ∷ receives first ∷ timer 9 (λ wb. none) ∷ receives first ∷ pushes ∷ []

request_answered_example :
    let waiting = (run marshalled pinger (timer 7 (λ wb. some 1) ∷ between)).0 in
    let (answered, out) = step marshalled waiting (receives response) in
    (out ≡ record { id = u16 70000; send_time = 7; recv_time = 9 } ∷ [])
    × ((step marshalled (run marshalled answered between).0 (receives response)).1 ≡ [])
unfolding run step turn keep send answer lookup_seq
request_answered_example =
    request_answered marshalled pinger 7 (λ wb. some 1) (0 ∷ []) between between response response
      refl refl refl refl refl refl (refl, (refl, (refl, (refl, (refl, tt))))) (omega arith) refl
