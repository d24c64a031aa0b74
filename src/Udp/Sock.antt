-- ===== src/Udp/Sock.antt =====
-- udp/sock.go, udp/sock_udp.go and udp/sock_syscall.go: sockets. What the kernel answers to a read
-- or a write is an argument; gopacket's serialisation of an IP packet (udp/packet.go) is a parameter.
pub mod Transmit
pub mod Raw
pub mod Examples
use close.Prelude.{
  Bool, List, Option, Result, [], err, if◌then◌else◌, length, none, ok, some, take, u64, ℕ, ◌+◌,
  ◌∷◌,
}
use close.Udp.Payload.{Payload, PayloadError, pack, unpack}

-- PACKET_MTU, the size of the receive buffer
abbrev pub packet_mtu : ℕ
packet_mtu = 1500

pub record SockStats : Type 0 where
  pub errors : ℕ  -- uint
  pub packets : ℕ  -- uint
  pub bytes : ℕ  -- uint

abbrev pub no_sock_stats : SockStats
no_sock_stats = record { errors = 0; packets = 0; bytes = 0 }

pub record Addr : Type 0 where
  pub ip : List ℕ  -- net.IP
  pub port : ℕ  -- uint16

pub record Packet : Type 0 where
  pub src : Addr
  pub dst : Addr
  pub payload_size : ℕ  -- uint
  pub payload : Payload

pub data SockError : Type 0 where
  read_failed unsupported_ip serialize_failed : SockError
  bad_payload : PayloadError → SockError

-- `stats.Packets++; stats.Bytes += uint(n)`
abbrev pub count_packet : ℕ → SockStats → SockStats
count_packet n s = record s { packets = u64 (s.packets + 1); bytes = u64 (s.bytes + n) }

-- `stats.Errors++`
abbrev pub count_error : SockStats → SockStats
count_error s = record s { errors = u64 (s.errors + 1) }

-- the two branches on the result of a write
unfoldable pub count_write : Option ℕ → SockStats → SockStats
count_write none s = count_error s
count_write (some n) s = count_packet n s

-- `SockUDP.send`: the datagram, and the statistics when the kernel has answered. It never fails.
unfoldable pub send_udp : Packet → Option ℕ → SockStats → List ℕ × SockStats
unfolding count_write
send_udp p written s = (pack p.payload p.payload_size, count_write written s)

-- `SockSyscall.send`: `Sendto` gives no size, the packet's own is counted; a packet that cannot be
-- serialised is an error of the call, and leaves the statistics.
unfoldable pub send_syscall :
    (Packet → Result SockError (List ℕ))
    → Packet
    → Bool
    → SockStats
    → Result SockError (List ℕ × SockStats)
send_syscall pack_ip p sent s = elim (pack_ip p) [
  | err e ↦ err e
  | ok bytes ↦ ok (bytes, if sent then count_packet (length bytes) s else count_error s)
]

-- `SockUDP.recv`, on the datagram and its source that the kernel has for the socket, or on a failed
-- read. The kernel fills the buffer and drops the rest of a longer datagram.
unfoldable pub recv :
    Addr → Option (List ℕ × Addr) → SockStats → Result SockError Packet × SockStats
recv local none s = (err read_failed, count_error s)
recv local (some (datagram, src)) s =
    let buf = take packet_mtu datagram in
    (
      elim (unpack buf) [
        | err e ↦ err (bad_payload e)
        | ok payload ↦
            ok (record { src = src; dst = local; payload_size = length buf; payload = payload })
      ],
      count_packet (length buf) s,
    )

-- the goroutine of `SockUDP.recvChan`: packets are delivered, errors are dropped
unfoldable pub deliver : Result SockError Packet → List Packet → List Packet
deliver (err e) ps = ps
deliver (ok p) ps = p ∷ ps

unfoldable pub recv_chan :
    Addr → List (Option (List ℕ × Addr)) → SockStats → List Packet × SockStats
unfolding deliver
recv_chan local [] s = ([], s)
recv_chan local (r ∷ rs) s =
    let (p, s') = recv local r s in let (ps, s'') = recv_chan local rs s' in (deliver p ps, s'')
