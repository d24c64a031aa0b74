-- ===== src/Udp/Send.antt =====
-- udp/send.go: the sender's main loop, with the goroutine of its rate clock. The loop's `select` and
-- the clock run at the same time; an execution is a list of events. JSON decoding of a pushed
-- configuration is a parameter of its event.
pub mod Sequence
pub mod Reconfigure
pub mod Registration
pub mod Ending
pub mod Examples
use close.Prelude.{
  Bool, List, Option, Result, String, [], err, false, if◌then◌else◌, ltb, none, not, ok, some,
  str_eq, true, u64, ℕ, ◌+◌, ◌-◌, ◌==◌, ◌||◌, ◌∷◌,
}
use close.Udp.Payload.{Payload}
use close.Udp.Rate as Rate
use close.Udp.Rate.{
  Phase, RateClock, RateStats, closed, no_stats, sending, set, start_clock, takes, testing,
}
use close.Udp.Sock.{SockStats, count_write, no_sock_stats}

-- `SendConfig`, the fields that the running sender reads or updates
pub record SendConfig : Type 0 where
  pub id : String
  pub rate : ℕ  -- uint, 0 - unrated
  pub count : ℕ  -- uint, 0 - infinite
  pub size : ℕ  -- uint, target size of UDP payload

pub record SendStats : Type 0 where
  pub id : List ℕ
  pub start : ℕ  -- stats were reset
  pub time : ℕ  -- stats were updated
  pub config : SendConfig
  pub rate : RateStats
  pub send : SockStats

-- `Send` with the variables of its `Run`. `stats.Rate` and `stats.Send` are updated through pointers
-- by the clock and by the socket: they are the clock's statistics and `sock_stats`.
pub record Send : Type 0 where
  pub config : SendConfig
  pub id : List ℕ
  pub clock : RateClock
  pub sock_stats : SockStats
  pub stats_interval : Option ℕ  -- none without a statsChan
  pub stats_config : SendConfig  -- stats.Config
  pub stats_start : ℕ
  pub seq : ℕ  -- payload.Seq, uint64
  pub running : Bool

pub data ConfigError : Type 0 where
  unmarshal_failed cannot_change_id : ConfigError

-- `Run` as far as its loop
unfoldable pub begin : ℕ → List ℕ → SendConfig → Option ℕ → Send
begin now id config interval = record {
  config = config;
  id = id;
  clock = Rate.start_clock now config.rate config.count;
  sock_stats = no_sock_stats;
  stats_interval = interval;
  stats_config = config;
  stats_start = now;
  seq = 0;
  running = true;
}

-- the two updates of `configPush`
push_rate : ℕ → SendConfig → Send → Send
push_rate now c s =
    if not (c.rate == s.config.rate) || not (c.count == s.config.count)
    then record s {
      clock = Rate.set now c.rate c.count s.clock;
      config = record (s.config) { rate = c.rate; count = c.count };
    }
    else s

push_size : SendConfig → Send → Send
push_size c s =
    if not (c.size == s.config.size)
    then record s { config = record (s.config) { size = c.size } }
    else s

-- `configPush`, on the configuration that was decoded over a copy of the current one
unfoldable pub config_push :
    ℕ → Result ConfigError SendConfig → Send → Send × Result ConfigError SendConfig
unfolding push_rate push_size
config_push now (err e) s = (s, err e)
config_push now (ok c) s =
    if not (str_eq c.id s.config.id)
    then (s, err cannot_change_id)
    else (let s' = push_size c (push_rate now c s) in (s', ok s'.config))

pub record Sent : Type 0 where
  pub payload : Payload
  pub size : ℕ

-- what comes out of one turn of the loop
pub data Output : Type 0 where
  quiet : Output
  sends : Sent → Output
  reports : SendStats → Output
  replies : Result ConfigError SendConfig → Output

pub data Event : Type 0 where
  wakes : ℕ → Event  -- the clock's goroutine goes on
  -- the tick case, with what `send` does: none for an error, or the answer of the socket to the write
  ticks : Option (Option ℕ) → Event
  flushes : ℕ → Event  -- the statistics are taken
  pushes : ℕ → (SendConfig → Result ConfigError SendConfig) → Event
  config_closes : Event
  stops : Event

-- the tick case: a tick is there, the channel is closed, or neither. An error of `send`, which a packet
-- that cannot be packed gives, ends `Run`; a write that fails is only counted.
unfoldable pub on_tick : Rate.Phase → Option (Option ℕ) → Send → Send × Output
on_tick Rate.Phase.sending none s =
    (record s { clock = (Rate.step s.clock Rate.takes).0; running = false }, quiet)
on_tick Rate.Phase.sending (some written) s = (
  record s {
    clock = (Rate.step s.clock Rate.takes).0;
    sock_stats = count_write written s.sock_stats;
    seq = u64 (s.seq + 1);
  },
  sends (record { payload = record { id = s.id; seq = s.seq }; size = s.config.size }),
)
on_tick Rate.Phase.testing result s = (s, quiet)
on_tick Rate.Phase.counting result s = (s, quiet)
on_tick Rate.Phase.closed result s = (record s { running = false }, quiet)

unfoldable pub report : ℕ → Send → SendStats
report now s = record {
  id = s.id;
  start = s.stats_start;
  time = now;
  config = s.stats_config;
  rate = s.clock.stats;
  send = s.sock_stats;
}

-- the case that hands the statistics over, with the guard on the minimum duration
unfoldable pub on_flush : Option ℕ → ℕ → Send → Send × Output
unfolding report
on_flush none now s = (s, quiet)
on_flush (some interval) now s = if ltb (now - s.stats_start) interval then (s, quiet) else (
  record s {
    stats_start = now;
    clock = record (s.clock) { stats = Rate.no_stats };
    sock_stats = no_sock_stats;
  },
  reports (report now s),
)

unfoldable pub turn : Send → Event → Send × Output
unfolding on_tick on_flush
turn s (wakes now) = (record s { clock = (Rate.step s.clock (Rate.wakes now)).0 }, quiet)
turn s (ticks result) = on_tick s.clock.phase result s
turn s (flushes now) = on_flush s.stats_interval now s
turn s (pushes now decode) = let (s', r) = config_push now (decode s.config) s in (s', replies r)
turn s config_closes = (record s { running = false }, quiet)
turn s stops = (record s { clock = (Rate.step s.clock Rate.stops).0 }, quiet)

-- A sender whose `Run` has returned does nothing more.
unfoldable pub step : Send → Event → Send × Output
unfolding turn
step s e = if s.running then turn s e else (s, quiet)

unfoldable pub emit : Output → List Sent → List Sent
emit (sends p) ps = p ∷ ps
emit quiet ps = ps
emit (reports r) ps = ps
emit (replies r) ps = ps

-- The packets of an execution, in their order.
unfoldable pub run : Send → List Event → Send × List Sent
unfolding emit
run s [] = (s, [])
run s (e ∷ es) = let (s', o) = step s e in let (s'', ps) = run s' es in (s'', emit o ps)
