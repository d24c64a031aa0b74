-- ===== src/Udp/Setup.antt =====
-- udp/send.go: the addresses, the socket and the ID of a sender. The resolver, the kernel's sockets, the
-- hash that makes an ID and the generator of random numbers are parameters.
pub mod Identity
pub mod Examples
use close.Prelude.{
  Bool, List, Option, Result, String, err, if◌then◌else◌, none, ok, some, str_eq, ℕ, ◌&&◌, ◌-◌,
  ◌==◌,
}
use close.Udp.Port.{RandPort, new_port, port, set_port, set_random}
use close.Udp.Sock.{Addr}
use close.Udp.Payload.Hex.{IdError, id_string, parse_id}

pub data Family : Type 0 where
  ip4 ip6 other_family : Family

pub record Net : Type 1 where
  pub resolve : String → Option Addr  -- ResolveUDPAddr
  pub dial : Addr → Option Addr  -- DialUDP, and the local address that it has
  pub family : List ℕ → Family  -- To4 and To16
  pub raw_socket : Bool  -- whether syscall.Socket gives one
  pub gen_id : List ℕ → ℕ → Option (List ℕ)
  pub parse_cidr : String → Option (List ℕ × ℕ × ℕ)  -- the network, and the sizes of its mask
  pub Rand : Type 0
  pub seeded : Rand
  pub next : Rand → ℕ × Rand

-- `SendConfig`, the fields that `apply` reads
pub record SourceConfig : Type 0 where
  pub dest_addr : String
  pub source_net : String
  pub source_port : ℕ
  pub source_port_bits : ℕ
  pub id : String

pub data Socket : Type 0 where
  sock_udp sock_syscall : Socket

pub data SetupError : Type 0 where
  resolve_failed dial_failed socket_failed no_ip6 invalid_family : SetupError
  gen_id_failed invalid_net : SetupError
  invalid_send_id : IdError → SetupError

module _ (n : Net) where
  -- the fields of `Send` that `apply` sets
  pub record Source : Type 0 where
    pub socket : Socket
    pub dst : Addr
    pub src_ip : List ℕ  -- srcAddr
    pub src_addr_bits : ℕ
    pub src_port : RandPort n.Rand
    pub id : List ℕ
    pub id_text : String  -- config.ID

  unfoldable pub or_err : {A : Type 0} → SetupError → Option A → Result {0, 0} SetupError A
  or_err e none = err e
  or_err e (some a) = ok a

  unfoldable pub then_ok :
      {A B : Type 0}
      → Result {0, 0} SetupError A
      → (A → Result {0, 0} SetupError B)
      → Result {0, 0} SetupError B
  then_ok (err e) f = err e
  then_ok (ok a) f = f a

  -- `SockSyscall.init`, on the family of the address
  unfoldable pub raw_init : Addr → Family → Result {0, 0} SetupError Addr
  raw_init addr ip4 = if n.raw_socket then ok addr else err socket_failed
  raw_init addr ip6 = err no_ip6
  raw_init addr other_family = err invalid_family

  -- `initUDP` and `probeSource`: the destination and the local address
  unfoldable pub init_udp : String → Result {0, 0} SetupError (Addr × Addr)
  unfolding or_err then_ok
  init_udp text =
      then_ok (or_err resolve_failed (n.resolve text))
        (λ dst. then_ok (or_err dial_failed (n.dial dst)) (λ src. ok (dst, src)))

  -- `initIP` and `probeSource`
  unfoldable pub init_ip : String → Result {0, 0} SetupError (Addr × Addr)
  unfolding or_err then_ok raw_init
  init_ip text = then_ok (or_err resolve_failed (n.resolve text)) (λ addr.
      then_ok (raw_init addr (n.family addr.ip))
        (λ dst. then_ok (or_err dial_failed (n.dial dst)) (λ src. ok (dst, src))))

  unfoldable pub hex_id :
      Result {0, 0} IdError (List ℕ) → String → Result {0, 0} SetupError (List ℕ × String)
  hex_id (err e) text = err (invalid_send_id e)
  hex_id (ok id) text = ok (id, text)

  -- the ID of the source address, unless one is given
  unfoldable pub source_id : SourceConfig → Addr → ℕ → Result {0, 0} SetupError (List ℕ × String)
  unfolding or_err then_ok hex_id
  source_id config src source_port =
      if str_eq config.id ""
      then then_ok (or_err gen_id_failed (n.gen_id src.ip source_port))
          (λ id. ok (id, id_string id))
      else hex_id (parse_id config.id) config.id

  -- the source addresses of the configured network
  unfoldable pub source_net : SourceConfig → Addr → Result {0, 0} SetupError (List ℕ × ℕ)
  unfolding or_err then_ok
  source_net config src =
      if str_eq config.source_net ""
      then ok (src.ip, 0)
      else then_ok (or_err invalid_net (n.parse_cidr config.source_net))
          (λ net. ok (net.0, net.2 - net.1))

  -- the configured port and its random bits
  unfoldable pub source_port : SourceConfig → RandPort n.Rand → RandPort n.Rand
  source_port config p =
      let fixed = if config.source_port == 0 then p else set_port n.next config.source_port p in
      if config.source_port_bits == 0
      then fixed
      else set_random n.next config.source_port_bits fixed

  -- `apply` behind the choice of the socket; a port without random bits takes no number from the generator
  unfoldable pub applied : SourceConfig → Socket → Addr × Addr → Result {0, 0} SetupError Source
  unfolding then_ok source_id source_net source_port
  applied config socket (dst, src) =
      let (first, probed) = port n.next (set_port n.next src.port (new_port n.seeded)) in
      then_ok (source_id config src first) (λ id. then_ok (source_net config src) (λ net.
        ok (record {
          socket = socket;
          dst = dst;
          src_ip = net.0;
          src_addr_bits = net.1;
          src_port = source_port config probed;
          id = id.0;
          id_text = id.1;
        })))

  -- `apply`: a raw socket only for a network of sources or for random bits of the port
  unfoldable pub apply : SourceConfig → Result {0, 0} SetupError Source
  unfolding then_ok init_udp init_ip applied
  apply config =
      if str_eq config.source_net "" && config.source_port_bits == 0
      then then_ok (init_udp config.dest_addr) (applied config sock_udp)
      else then_ok (init_ip config.dest_addr) (applied config sock_syscall)
