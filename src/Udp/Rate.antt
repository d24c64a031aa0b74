-- ===== src/Udp/Rate.antt =====
-- udp/rate.go: the clock that paces the sender. Its goroutine (`run`) and the receiver of its
-- channel run at the same time, and `Set` and `Stop` may be called at any moment; an execution is a
-- list of events. The channel has no buffer, so the goroutine waits in the send until the tick is
-- taken. Times are nanoseconds on a clock that the event supplies.
pub mod Ticks
pub mod Examples
use close.Prelude.{
  Bool, List, [], div64, false, if◌then◌else◌, is_positive, ltb, sub64, true, u64, ℕ, ◌*◌, ◌+◌,
  ◌==◌, ◌||◌, ◌∷◌,
}

-- `RateStats`
pub record RateStats : Type 0 where
  pub sleep_duration : ℕ  -- time.Duration
  pub underrun_count : ℕ  -- uint
  pub ticks : ℕ  -- uint, `Count`

abbrev pub no_stats : RateStats
no_stats = record { sleep_duration = 0; underrun_count = 0; ticks = 0 }

-- Where the goroutine of `run` stands: before the test of its loop, in the send of a tick, behind a
-- send that the receiver has taken and that is not counted yet, or behind the loop, with the channel
-- closed.
pub data Phase : Type 0 where
  testing sending counting closed : Phase

pub record RateClock : Type 0 where
  pub stats : RateStats  -- shared with the sender that hands it to `initStats`
  pub start : ℕ  -- time.Time
  pub rate : ℕ  -- uint
  pub stop : ℕ  -- uint, stop once offset
  pub offset : ℕ  -- uint
  pub phase : Phase

abbrev pub second : ℕ
second = 1_000_000_000

-- `Set`
unfoldable pub set : ℕ → ℕ → ℕ → RateClock → RateClock
set now rate count c = record c { start = now; rate = rate; stop = count; offset = 0 }

-- `Start`, called by a sender with its statistics; the goroutine begins at the test of its loop.
unfoldable pub start_clock : ℕ → ℕ → ℕ → RateClock
start_clock now rate count = record {
  stats = no_stats;
  start = now;
  rate = rate;
  stop = count;
  offset = 0;
  phase = testing;
}

-- `Stop`
unfoldable pub stop_clock : RateClock → RateClock
stop_clock c = record c { stop = c.offset }

-- the scheduled time of the tick at the clock's offset, since `start`
unfoldable pub target_clock : RateClock → ℕ
target_clock c = div64 (u64 (c.offset * second)) c.rate

unfoldable pub skew : RateClock → ℕ → ℕ
skew c now = sub64 (target_clock c) (sub64 now c.start)

-- the body of the loop as far as the send: sleep, or count an underrun
unfoldable pub pace : RateClock → ℕ → RateStats
pace c now =
    if c.rate == 0
    then c.stats
    else if is_positive (skew c now)
    then record (c.stats) { sleep_duration = u64 (c.stats.sleep_duration + skew c now) }
    else record (c.stats) { underrun_count = u64 (c.stats.underrun_count + 1) }

-- The goroutine goes on: from the test of its loop to the send, or it closes the channel; behind a send
-- it counts the tick, in its statistics and in the offset. In the send it waits.
wake : Phase → ℕ → RateClock → RateClock
unfolding pace
wake testing now c =
    if c.stop == 0 || ltb c.offset c.stop
    then record c { stats = pace c now; phase = sending }
    else record c { phase = closed }
wake sending now c = c
wake counting now c = record c {
  stats = record (c.stats) { ticks = u64 (c.stats.ticks + 1) };
  offset = u64 (c.offset + 1);
  phase = testing;
}
wake closed now c = c

-- the receiver takes the tick, which the goroutine has still to count
take_tick : Phase → RateClock → RateClock × ℕ
take_tick sending c = (record c { phase = counting }, 1)
take_tick counting c = (c, 0)
take_tick testing c = (c, 0)
take_tick closed c = (c, 0)

pub data Event : Type 0 where
  wakes : ℕ → Event
  takes : Event
  sets : ℕ → ℕ → ℕ → Event
  stops : Event

-- One event; the number is that of the ticks delivered.
unfoldable pub step : RateClock → Event → RateClock × ℕ
unfolding wake take_tick set stop_clock
step c (wakes now) = (wake c.phase now c, 0)
step c takes = take_tick c.phase c
step c (sets now rate count) = (set now rate count c, 0)
step c stops = (stop_clock c, 0)

unfoldable pub run : RateClock → List Event → RateClock × ℕ
run c [] = (c, 0)
run c (e ∷ es) = let (c', n) = step c e in let (c'', m) = run c' es in (c'', n + m)

-- The events of the goroutine and of its receiver alone.
abbrev pub is_tick : Event → Bool
is_tick (wakes now) = true
is_tick takes = true
is_tick (sets now rate count) = false
is_tick stops = false
