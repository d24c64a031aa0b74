-- ===== src/Icmp/Conn.antt =====
-- icmp/conn.go: echo requests and responses over a socket. The system and the packages net and
-- golang.org/x/net/icmp are parameters: the resolver, the socket's answers and the encoding.
use close.Prelude.{
  List, Option, Result, String, [], err, if◌then◌else◌, length, none, ok, some, str_eq, take, ℕ,
  ◌%◌, ◌==◌, ◌^◌,
}

-- The fields of a message that the program sets or reads: `icmp.Message` with an `icmp.Echo`.
pub record Echo : Type 0 where
  pub id : ℕ  -- int
  pub seq : ℕ  -- int
  pub bytes : List ℕ  -- Data

pub data MessageType : Type 0 where
  echo_ipv4 echo_request_ipv6 : MessageType

pub record Proto : Type 0 where
  pub listen_str : String
  pub resolve_str : String
  pub iana_proto : ℕ
  pub message_type : MessageType

-- `protocols`
unfoldable pub protocol : String → Option Proto
protocol name =
    if str_eq name "ipv4"
    then some (record {
      resolve_str = "ip4";
      listen_str = "udp4";
      iana_proto = 1;
      message_type = echo_ipv4;
    })
    else if str_eq name "ipv6"
    then some (record {
      resolve_str = "ip6";
      listen_str = "udp6";
      iana_proto = 58;
      message_type = echo_request_ipv6;
    })
    else none

pub data ConnError : Type 0 where
  no_target : ConnError
  not_registered : String → ConnError
  not_resolved not_listening unknown_addr marshal_failed write_failed short_write read_failed :
      ConnError
  parse_failed unknown_message : ConnError

-- `Ping`: ICMP Echo Request/Response info
pub record Ping : Type 0 where
  pub time : ℕ
  pub ip : List ℕ
  pub id : ℕ  -- uint16
  pub seq : ℕ  -- uint16
  pub bytes : List ℕ

pub record Conn : Type 0 where
  pub target_ip : List ℕ  -- targetAddr
  pub proto : Proto
  pub id : ℕ  -- int

abbrev pub u16 : ℕ → ℕ
u16 n = n % 2 ^ 16

-- a `net.Addr`: a UDP address, or one of another type
pub data NetAddr : Type 0 where
  udp_addr : List ℕ → ℕ → NetAddr
  other_addr : NetAddr

unfoldable pub decode_addr : NetAddr → Result {0, 0} ConnError (List ℕ × ℕ)
decode_addr (udp_addr ip port) = ok (ip, port)
decode_addr other_addr = err unknown_addr

unfoldable pub stored :
    Proto → List ℕ → Result {0, 0} ConnError (List ℕ × ℕ) → Result {0, 0} ConnError Conn
stored proto ip (err e) = err e
stored proto ip (ok (local, port)) = ok (record { target_ip = ip; proto = proto; id = port })

unfoldable pub listened : Proto → List ℕ → Option NetAddr → Result {0, 0} ConnError Conn
unfolding decode_addr stored
listened proto ip none = err not_listening
listened proto ip (some addr) = stored proto ip (decode_addr addr)

unfoldable pub resolved :
    (String → Option NetAddr) → Proto → Option (List ℕ) → Result {0, 0} ConnError Conn
unfolding listened
resolved listen proto none = err not_resolved
resolved listen proto (some ip) = listened proto ip (listen proto.listen_str)

unfoldable pub connected :
    (String → String → Option (List ℕ))
    → (String → Option NetAddr)
    → String
    → String
    → Option Proto
    → Result {0, 0} ConnError Conn
unfolding resolved
connected resolve listen name target none = err (not_registered name)
connected resolve listen name target (some proto) =
    resolved listen proto (resolve proto.resolve_str target)

-- `NewConn`; the given ID is ignored, since the kernel assigns one
unfoldable pub new_conn :
    (String → String → Option (List ℕ))
    → (String → Option NetAddr)
    → String
    → String
    → ℕ
    → Result {0, 0} ConnError Conn
unfolding protocol connected
new_conn resolve listen name target id =
    if str_eq target "" then err no_target else connected resolve listen name target (protocol name)

-- the answer of the socket to a write of `n` bytes
unfoldable pub written : ℕ → Option ℕ → Option ConnError
written n none = some write_failed
written n (some m) = if m == n then none else some short_write

unfoldable pub send_bytes :
    Conn → ℕ → (List ℕ → Option ℕ) → Option (List ℕ) → Ping → Option ConnError × Ping
unfolding written
send_bytes c now write none p = (some marshal_failed, p)
send_bytes c now write (some wb) p =
    (written (length wb) (write wb), record p { time = now; ip = c.target_ip; id = u16 c.id })

-- `Send`: the error if there is one, and the updated request
unfoldable pub send :
    (MessageType → Echo → Option (List ℕ))
    → Conn
    → ℕ
    → (List ℕ → Option ℕ)
    → Ping
    → Option ConnError × Ping
unfolding send_bytes
send marshal c now write p =
    let echo : Echo = record { id = p.id; seq = p.seq; bytes = p.bytes } in
    send_bytes c now write (marshal c.proto.message_type echo) p

-- the message that was read: not one, one without an echo body, or an echo
pub data Parsed : Type 0 where
  not_parsed no_echo : Parsed
  parsed : Echo → Parsed

unfoldable pub received : List ℕ → ℕ → Parsed → Result {0, 0} ConnError Ping
received ip now not_parsed = err parse_failed
received ip now no_echo = err unknown_message
received ip now (parsed e) =
    ok (record { time = now; ip = ip; id = u16 e.id; seq = u16 e.seq; bytes = [] })

-- `Recv`, on what the socket read into the buffer of 1500 bytes, from where
unfoldable pub recv :
    (ℕ → List ℕ → Parsed) → Conn → ℕ → Option (List ℕ × NetAddr) → Result {0, 0} ConnError Ping
unfolding received
recv parse c now none = err read_failed
recv parse c now (some (bytes, other_addr)) = err unknown_addr
recv parse c now (some (bytes, udp_addr ip port)) =
    received ip now (parse c.proto.iana_proto (take 1500 bytes))
