-- ===== src/Udp/Recv.antt =====
-- udp/recv.go: the receiver, which keeps one state for each sender ID and reports statistics at each
-- interval. Logging is left out; the clock is read where the code reads it.
pub mod Accounting
pub mod Intervals
pub mod Order
pub mod Fields
pub mod Examples
use close.Prelude.{
  Bool, List, [], false, if◌then◌else◌, ltb, sub64, true, u64, ℕ, ◌&&◌, ◌++◌, ◌+◌, ◌==◌, ◌∷◌,
}
use close.Udp.Payload.{Payload}

pub record RecvStats : Type 0 where
  pub id : List ℕ  -- ID
  pub time : ℕ  -- stats were init/reset
  pub duration : ℕ
  pub packet_time : ℕ  -- time of most recent packet
  pub packet_start : ℕ  -- uint64
  pub packet_seq : ℕ  -- uint64, most recent packet
  pub packet_size : ℕ  -- uint
  pub packet_errors : ℕ  -- uint
  pub packet_count : ℕ  -- uint, in-sequence packets
  pub packet_skips : ℕ  -- uint, skipped in-sequence packets
  pub packet_dups : ℕ  -- uint, out-of-sequence packets

pub record RecvState : Type 0 where
  pub id : List ℕ
  pub seq : ℕ  -- uint64
  pub stats : RecvStats

-- `Packet`, the fields that the receiver reads
pub record Packet : Type 0 where
  pub payload : Payload
  pub payload_size : ℕ  -- uint

-- the struct literal of `makeState` and `takeStats`, with Go's zero values
abbrev pub fresh_stats : List ℕ → ℕ → ℕ → RecvStats
fresh_stats id now start = record {
  id = id;
  time = now;
  duration = 0;
  packet_time = 0;
  packet_start = start;
  packet_seq = 0;
  packet_size = 0;
  packet_errors = 0;
  packet_count = 0;
  packet_skips = 0;
  packet_dups = 0;
}

-- `Valid`: check if we have any received packets to report on
unfoldable pub valid : RecvStats → Bool
valid s = ltb 0 s.packet_seq

-- First packet received for Payload.ID
unfoldable pub make_state : ℕ → Packet → RecvState
make_state now p = record {
  id = p.payload.id;
  seq = p.payload.seq;
  stats = fresh_stats p.payload.id now p.payload.seq;
}

unfoldable pub handle_packet : ℕ → Packet → RecvState → RecvState
handle_packet now p r =
    if ltb r.seq p.payload.seq
    then record r {
      seq = p.payload.seq;
      stats = record (r.stats) {
        packet_time = now;
        packet_seq = p.payload.seq;
        packet_skips = u64 (r.stats.packet_skips + sub64 (sub64 p.payload.seq r.seq) 1);
        packet_count = u64 (r.stats.packet_count + 1);
        packet_size = u64 (r.stats.packet_size + p.payload_size);
      };
    }
    else record r {
      stats = record (r.stats) { packet_time = now; packet_dups = u64 (r.stats.packet_dups + 1) };
    }

unfoldable pub alive : RecvState → Bool
alive r = ltb r.stats.packet_start r.stats.packet_seq

-- The statistics of the interval, and the state with statistics that begin at its last packet.
unfoldable pub take_stats : ℕ → RecvState → RecvStats × RecvState
take_stats now r = (
  record (r.stats) { duration = sub64 now r.stats.time },
  record r { stats = fresh_stats r.id now r.seq },
)

-- `recvStates`: the map from IDs to states
abbrev pub States : Type 0
States = List RecvState

-- Two arrays of bytes are equal.
unfoldable pub same_id : List ℕ → List ℕ → Bool
same_id [] [] = true
same_id [] (b ∷ bs) = false
same_id (a ∷ as') [] = false
same_id (a ∷ as') (b ∷ bs) = a == b && same_id as' bs

-- the case of `Run` that receives a packet
unfoldable pub on_packet : ℕ → Packet → States → States
unfolding same_id
on_packet now p [] = make_state now p ∷ []
on_packet now p (r ∷ rs) =
    let rest = on_packet now p rs in
    if same_id r.id p.payload.id then handle_packet now p r ∷ rs else r ∷ rest

-- the case of `Run` at the interval's end: every live state reports, the others are removed
unfoldable pub on_tick : ℕ → States → States × List RecvStats
on_tick now [] = ([], [])
on_tick now (r ∷ rs) =
    let (rest, out) = on_tick now rs in
    let (s, r') = take_stats now r in if alive r then (r' ∷ rest, s ∷ out) else (rest, out)

pub data Event : Type 0 where
  packet : ℕ → Packet → Event
  tick : ℕ → Event

unfoldable pub step : States → Event → States × List RecvStats
step rs (packet now p) = (on_packet now p rs, [])
step rs (tick now) = on_tick now rs

-- `Run` over the events that its channels deliver
unfoldable pub run : States → List Event → States × List RecvStats
run rs [] = (rs, [])
run rs (e ∷ es) = let (rs', out) = step rs e in let (rs'', more) = run rs' es in (rs'', out ++ more)
