-- ===== src/Udp/Rate/Ticks.antt =====
-- How many ticks the clock delivers.
use close.Prelude.{
  All, List, [], arith, length, suc, true, ℕ, ◌++◌, ◌+◌, ◌<◌, ◌^◌, ◌∷◌, ◌≡◌, ◌≢◌, ◌≤◌,
}
use close.Udp.Rate.{
  Event, Phase, RateClock, closed, counting, is_tick, run, sending, step, stop_clock, takes,
  testing, wakes,
}

-- a tick that was taken and is not counted yet
abbrev pub uncounted : Phase → ℕ
uncounted testing = 0
uncounted sending = 0
uncounted counting = 1
uncounted closed = 0

-- What the clock still has to deliver, in any phase.
abbrev pub Owes : RateClock → ℕ → Type 0
Owes c k =
    (c.offset + uncounted c.phase + k ≡ c.stop)
    × (0 < c.stop)
    × (c.stop < 2 ^ 64)
    × (c.phase ≡ sending → 0 < k)
    × (c.phase ≡ closed → k ≡ 0)

abbrev pub AllTicks : List Event → Type 0
AllTicks = All (λ e. is_tick e ≡ true)

-- the goroutine wakes, its tick is taken, and it counts it, once for each time
abbrev pub rounds : List ℕ → List Event
rounds [] = []
rounds (now ∷ nows) = wakes now ∷ takes ∷ wakes now ∷ rounds nows

round_lem :
    (c : RateClock) (k now : ℕ)
    → Owes c (suc k)
    → c.phase ≢ closed
    → c.phase ≢ counting
    → let c' = (step (step (step c (wakes now)).0 takes).0 (wakes now)).0 in
      Owes c' k
      × (c'.phase ≡ testing)
      × ((step c (wakes now)).1 ≡ 0)
      × ((step (step c (wakes now)).0 takes).1 ≡ 1)
      × ((step (step (step c (wakes now)).0 takes).0 (wakes now)).1 ≡ 0)
unfolding step
round_lem c k now h live idle = ground arith

-- A clock that has no tick to count and owes as many ticks as there are rounds delivers them all in
-- these rounds, and closes its channel when it wakes once more.
pub rounds_close :
    (c : RateClock) (nows : List ℕ) (last : ℕ)
    → Owes c (length nows)
    → c.phase ≢ closed
    → c.phase ≢ counting
    → let (c', n) = run c (rounds nows ++ wakes last ∷ []) in
      (c'.phase ≡ closed) × (n ≡ length nows)
unfolding run
rounds_close c [] last h live idle = unfold step in ground arith
rounds_close c (now ∷ nows) last h live idle =
    let c' = (step (step (step c (wakes now)).0 takes).0 (wakes now)).0 in
    ground (arith, round_lem c (length nows) now h live idle, rounds_close c' nows last)

-- `Stop` behind the first tick: at most one more tick, the one on its way, and the channel is closed
-- at the next turns of the goroutine.
pub stop_closes :
    (c : RateClock) (a b : ℕ)
    → 0 < c.offset
    → c.offset + 1 < 2 ^ 64
    → let (c', n) = run (stop_clock c) (wakes a ∷ takes ∷ wakes b ∷ wakes b ∷ []) in
      (c'.phase ≡ closed) × (n ≤ 1)
unfolding run step
stop_closes c a b lo hi = ground arith

step_unbounded :
    (c : RateClock) (e : Event)
    → is_tick e ≡ true
    → c.stop ≡ 0
    → c.phase ≢ closed
    → ((step c e).0.stop ≡ 0) × ((step c e).0.phase ≢ closed)
unfolding step
step_unbounded c e t z live = ground arith

run_unbounded :
    (c : RateClock) (es : List Event)
    → AllTicks es
    → c.stop ≡ 0
    → c.phase ≢ closed
    → (run c es).0.phase ≢ closed
unfolding run
run_unbounded c [] t z live = live
run_unbounded c (e ∷ es) t z live =
    let (z', live') = step_unbounded c e t.0 z live in run_unbounded (step c e).0 es t.1 z' live'

-- `Stop` before the first tick is counted never closes the channel: the count becomes 0, which means
-- no limit.
pub stop_at_zero_ignored :
    (c : RateClock) (es : List Event)
    → c.offset ≡ 0
    → c.phase ≢ closed
    → AllTicks es
    → (run (stop_clock c) es).0.phase ≢ closed
unfolding stop_clock
stop_at_zero_ignored c es z live t = run_unbounded (record c { stop = c.offset }) es t z live
