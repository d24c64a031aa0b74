-- ===== src/Udp/Sock/Raw.antt =====
-- udp/packet.go, udp/sock_ip.go and udp/sock_syscall.go: packets with a source of their own. Package
-- gopacket, which makes the bytes of the layers, and the kernel's sockets are parameters.
use close.Prelude.{
  Bool, List, Option, Result, err, false, length, none, ok, refl, some, true, ℕ, ◌≡◌,
}
use close.Udp.Payload.{IsPayload, pack, unpack}
use close.Udp.Payload.RoundTrip.{unpack-pack}
use close.Udp.Setup.{Family, ip4, ip6, other_family}
use close.Udp.Sock.{
  Addr, Packet, SockError, SockStats, count_packet, count_write, send_syscall, serialize_failed,
  unsupported_ip,
}

-- PACKET_TTL
abbrev pub packet_ttl : ℕ
packet_ttl = 64

-- `layers.IPv4`, the fields that are set
pub record IpLayer : Type 0 where
  pub version : ℕ
  pub ttl : ℕ
  pub protocol : ℕ
  pub src_ip : List ℕ
  pub dst_ip : List ℕ

-- `layers.UDP`, the fields that are set
pub record UdpLayer : Type 0 where
  pub src_port : ℕ
  pub dst_port : ℕ

pub record Gopacket : Type 0 where
  pub to4 : List ℕ → Option (List ℕ)  -- net.IP.To4
  pub set_network_layer : UdpLayer → IpLayer → Bool  -- SetNetworkLayerForChecksum
  pub serialize : IpLayer → UdpLayer → List ℕ → Option (List ℕ)  -- SerializeLayers

module _ (g : Gopacket) where
  ip_layer : Packet → Option IpLayer
  ip_layer p = elim (g.to4 p.src.ip) [
    | none ↦ none
    | some src4 ↦ elim (g.to4 p.dst.ip) [
      | none ↦ none
      | some dst4 ↦
          some
            (record { version = 4; ttl = packet_ttl; protocol = 17; src_ip = src4; dst_ip = dst4 })
    ]
  ]

  abbrev udp_layer : Packet → UdpLayer
  udp_layer p = record { src_port = p.src.port; dst_port = p.dst.port }

  serialized : Option (List ℕ) → Result SockError (List ℕ)
  serialized none = err serialize_failed
  serialized (some bytes) = ok bytes

  -- `PackIP`
  unfoldable pub pack_ip : Packet → Result SockError (List ℕ)
  unfolding ip_layer serialized
  pack_ip p = elim (ip_layer p) [
    | none ↦ err unsupported_ip
    | some ip ↦ elim (g.set_network_layer (udp_layer p) ip) [
      | true ↦ serialized (g.serialize ip (udp_layer p) (pack p.payload p.payload_size))
      | false ↦ err serialize_failed
    ]
  ]

  -- `SockIP.send`, with the answer of the kernel to the write
  unfoldable pub send_ip : Packet → Option ℕ → SockStats → Result SockError (List ℕ × SockStats)
  unfolding pack_ip count_write
  send_ip p written s = elim (pack_ip p) [
    | err e ↦ err e
    | ok bytes ↦ ok (bytes, count_write written s)
  ]

  -- A packet between two IPv4 addresses is sent with its own source, through a raw socket as through an IP
  -- socket: if the bytes of layers are read as these layers, they carry both addresses and ports, and a
  -- payload in which a receiver reads the packet's.
  pub send_raw-read :
      (read : List ℕ → Option (IpLayer × UdpLayer × List ℕ)) (p : Packet) (s : SockStats)
      (src4 dst4 : List ℕ)
      → ((ip : IpLayer) (udp : UdpLayer) (bytes : List ℕ)
          → (raw : List ℕ) × (g.serialize ip udp bytes ≡ some raw)
            × (read raw ≡ some (ip, udp, bytes)))
      → ((udp : UdpLayer) (ip : IpLayer) → g.set_network_layer udp ip ≡ true)
      → g.to4 p.src.ip ≡ some src4
      → g.to4 p.dst.ip ≡ some dst4
      → IsPayload p.payload
      → (raw : List ℕ) × (ip : IpLayer) × (bytes : List ℕ) × (send_syscall pack_ip p true s
          ≡ ok (raw, count_packet (length raw) s))
        × (send_ip p (some (length raw)) s ≡ ok (raw, count_packet (length raw) s))
        × (read raw ≡ some (ip, udp_layer p, bytes))
        × (ip.src_ip ≡ src4)
        × (ip.dst_ip ≡ dst4)
        × (unpack bytes ≡ ok p.payload)
  unfolding send_syscall send_ip pack_ip ip_layer serialized count_write
  send_raw-read read p s src4 dst4 layers sums from to v =
      let ip : IpLayer = record {
        version = 4;
        ttl = packet_ttl;
        protocol = 17;
        src_ip = src4;
        dst_ip = dst4;
      } in
      let bytes = pack p.payload p.payload_size in
      let (raw, made, back) = layers ip (udp_layer p) bytes in
      let packed : pack_ip p ≡ ok raw =
        rw (pack_ip, ip_layer, from, to, sums (udp_layer p) ip, made) refl in
      (
        raw,
        ip,
        bytes,
        rw (send_syscall, packed) refl,
        rw (send_ip, packed) refl,
        back,
        refl,
        refl,
        unpack-pack p.payload p.payload_size v,
      )

-- how `init` fails
pub data RawError : Type 0 where
  resolve_failed listen_failed no_raw_conn no_ip6 invalid_family : RawError

-- the option of a raw connection, for IPv4
unfoldable pub raw_conn : Addr → Bool → Family → Result {0, 0} RawError Addr
raw_conn addr true ip4 = ok addr
raw_conn addr false ip4 = err no_raw_conn
raw_conn addr raw ip6 = err no_ip6
raw_conn addr raw other_family = err invalid_family

-- `SockIP.init`, with what the resolver and the system answer; the destination
unfoldable pub init_ip : Option Addr → Bool → (List ℕ → Family) → Bool → Result {0, 0} RawError Addr
unfolding raw_conn
init_ip none listens family raw = err resolve_failed
init_ip (some addr) false family raw = err listen_failed
init_ip (some addr) true family raw = raw_conn addr raw (family addr.ip)
