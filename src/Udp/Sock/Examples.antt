-- ===== src/Udp/Sock/Examples.antt =====
-- A datagram between two addresses.
use close.Prelude.{[], arith, max, min, ok, refl, some, ◌∷◌, ◌≡◌}
use close.Udp.Sock.{Addr, Packet, count_packet, no_sock_stats, packet_mtu, recv, send_udp}
use close.Udp.Payload.{Payload}
use close.Udp.Sock.Transmit.{recv-send_udp}

abbrev local : Addr
local = record { ip = 10 ∷ 0 ∷ 0 ∷ 1 ∷ []; port = 1337 }

abbrev remote : Addr
remote = record { ip = 10 ∷ 0 ∷ 0 ∷ 2 ∷ []; port = 4000 }

abbrev ones : Payload
ones = record { id = 1 ∷ 1 ∷ 1 ∷ 1 ∷ 1 ∷ 1 ∷ 1 ∷ 1 ∷ []; seq = 65536 }

abbrev sent : Packet
sent = record { src = remote; dst = local; payload_size = 100; payload = ones }

recv-send_udp_example :
    let (datagram, s') = send_udp sent (some 100) no_sock_stats in
    (recv local (some (datagram, remote)) no_sock_stats ≡ (
      ok (record {
        src = remote;
        dst = local;
        payload_size = min packet_mtu (max 100 16);
        payload = ones;
      }),
      count_packet (min packet_mtu (max 100 16)) no_sock_stats,
    ))
    × (s' ≡ count_packet 100 no_sock_stats)
recv-send_udp_example =
    recv-send_udp sent local remote no_sock_stats no_sock_stats 100
      (record { id_length = refl; seq_range = omega arith })
