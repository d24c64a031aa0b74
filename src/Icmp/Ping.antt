-- ===== src/Icmp/Ping.antt =====
-- icmp/ping.go: the main loop of the ping worker. A turn of its select is an event: the timer, with the
-- clock and the socket's answer, a response from the receiver, or the end of a channel.
pub mod Requests
pub mod Waiting
pub mod Answers
pub mod Receiver
pub mod Examples
use close.Prelude.{
  Bool, List, Option, String, [], false, if◌then◌else◌, none, some, sub64, true, ℕ, ◌++◌, ◌+◌, ◌==◌,
  ◌∷◌,
}
use close.Icmp.Conn.{Conn, ConnError, Echo, MessageType, Ping, send, u16}

pub record PingConfig : Type 0 where
  pub target : String
  pub proto : String
  pub id : ℕ  -- int
  pub interval : ℕ  -- time.Duration

pub record PingStats : Type 0 where
  pub id : ℕ  -- int
  pub send_time : ℕ  -- ping request was sent out
  pub recv_time : ℕ

-- `RTT`
unfoldable pub rtt : PingStats → ℕ
rtt s = sub64 s.recv_time s.send_time

-- `apply`, on the connection: its ID takes the place of the configured one
unfoldable pub apply : PingConfig → Conn → PingConfig
apply config c = record config { id = c.id }

-- The map `packets`, with one entry for each key.
abbrev pub Inflight : Type 0
Inflight = List (ℕ × Ping)

unfoldable pub lookup_seq : ℕ → Inflight → Option Ping
lookup_seq k [] = none
lookup_seq k ((i, p) ∷ ps) = if i == k then some p else lookup_seq k ps

unfoldable pub insert_seq : ℕ → Ping → Inflight → Inflight
insert_seq k p [] = (k, p) ∷ []
insert_seq k p ((i, q) ∷ ps) = if i == k then (k, p) ∷ ps else (i, q) ∷ insert_seq k p ps

unfoldable pub delete_seq : ℕ → Inflight → Inflight
delete_seq k [] = []
delete_seq k ((i, q) ∷ ps) = let rest = delete_seq k ps in if i == k then rest else (i, q) ∷ rest

-- the variables of `Run`
pub record Pinger : Type 0 where
  pub conn : Conn
  pub has_stats : Bool  -- statsC is not nil
  pub packets : Inflight
  pub packet : Ping
  pub running : Bool

-- `Run` as far as its loop
unfoldable pub begin : PingConfig → Conn → Bool → Pinger
begin config c has_stats = record {
  conn = c;
  has_stats = has_stats;
  packets = [];
  packet = record {
    time = 0;
    ip = [];
    id = u16 config.id;
    seq = 0;
    bytes = b'H' ∷ b'E' ∷ b'L' ∷ b'L' ∷ b'O' ∷ b' ' ∷ b'1' ∷ [];
  };
  running = true;
}

pub data Event : Type 0 where
  timer : ℕ → (List ℕ → Option ℕ) → Event
  receives : Ping → Event
  recv_closes : Event
  pushes : Event  -- a pushed configuration, whose answer is always an error
  config_closes : Event

-- a request that was sent is kept under its number
unfoldable pub keep : Option ConnError × Ping → Pinger → Pinger
unfolding insert_seq
keep (some e, packet) s = record s { packet = packet }
keep (none, packet) s = record s {
  packet = packet;
  packets = insert_seq packet.seq packet s.packets;
}

-- a response: to no request in flight, or to one, which is then answered
unfoldable pub answer : Ping → Option Ping → Pinger → Pinger × List PingStats
unfolding delete_seq
answer r none s = (s, [])
answer r (some sent) s = (
  record s { packets = delete_seq r.seq s.packets },
  if s.has_stats
      then record { id = sent.id; send_time = sent.time; recv_time = r.time } ∷ []
      else [],
)

module _ (marshal : MessageType → Echo → Option (List ℕ)) where
  unfoldable pub turn : Pinger → Event → Pinger × List PingStats
  unfolding keep answer lookup_seq
  turn s (timer now write) =
      let next : Ping = record (s.packet) { seq = u16 (s.packet.seq + 1) } in
      (keep (send marshal s.conn now write next) s, [])
  turn s (receives r) = answer r (lookup_seq r.seq s.packets) s
  turn s recv_closes = (record s { running = false }, [])
  turn s pushes = (s, [])
  turn s config_closes = (record s { running = false }, [])

  unfoldable pub step : Pinger → Event → Pinger × List PingStats
  unfolding turn
  step s e = if s.running then turn s e else (s, [])

  -- `Run`
  unfoldable pub run : Pinger → List Event → Pinger × List PingStats
  unfolding step
  run s [] = (s, [])
  run s (e ∷ es) = let (s', out) = step s e in let (s'', more) = run s' es in (s'', out ++ more)
