-- ===== src/Stats/Writer/Pacing.antt =====
-- stats/writer.go: the goroutine of `statsWriter`, which takes statistics off its channel and then waits
-- for a tick of its interval, which both of its callers give it. A channel of ticks holds one tick that
-- nobody waits for.
use close.Prelude.{
  Bool, List, [], arith, false, if◌then◌else◌, length, length-append, suc, true, ℕ, ◌++◌, ◌+◌, ◌∷◌,
  ◌≡◌, ◌≤◌,
}
use close.Stats.Writer.{Stats}

-- the goroutine between two turns of its loop
pub record Pacer : Type 0 where
  pub waiting : Bool  -- for a tick
  pub ticked : Bool  -- a tick is in the channel

abbrev pub new_pacer : Pacer
new_pacer = record { waiting = false; ticked = false }

pub data Turn (Fields : Type 0) : Type 0 where
  offers : Stats Fields → Turn Fields  -- a worker that sends
  ticks : Turn Fields

-- behind a statistic that was taken: `<-intervalChan`
unfoldable pub await : Pacer → Pacer
await p = if p.ticked then new_pacer else record { waiting = true; ticked = false }

-- a tick, which is dropped if one is there
unfoldable pub tick : Pacer → Pacer
tick p = if p.waiting then new_pacer else record { waiting = false; ticked = true }

-- the statistics that can be taken without another tick
abbrev credit : Pacer → ℕ
credit p = (if p.waiting then 0 else 1) + (if p.ticked then 1 else 0)

abbrev IsPacer : Pacer → Type 0
IsPacer p = p.waiting ≡ true → p.ticked ≡ false

module _ {Fields : Type 0} where
  -- One turn, with the statistics that were taken; a worker that sends while the goroutine waits is
  -- blocked.
  unfoldable pub turn : Pacer → Turn Fields → Pacer × List (Stats Fields)
  unfolding await tick
  turn p ticks = (tick p, [])
  turn p (offers s) = if p.waiting then (p, []) else (await p, s ∷ [])

  -- the statistics that are taken in a run
  unfoldable pub run : Pacer → List (Turn Fields) → Pacer × List (Stats Fields)
  unfolding turn
  run p [] = (p, [])
  run p (t ∷ ts) = let (p', taken) = turn p t in let (p'', more) = run p' ts in (p'', taken ++ more)

  abbrev pub tick_count : List (Turn Fields) → ℕ
  tick_count [] = 0
  tick_count (ticks ∷ ts) = suc (tick_count ts)
  tick_count (offers s ∷ ts) = tick_count ts

  turn-credit :
      (p : Pacer) (t : Turn Fields)
      → IsPacer p
      → IsPacer (turn p t).0
        × (length (turn p t).1 + credit (turn p t).0 ≤ credit p + tick_count (t ∷ []))
  unfolding turn await tick
  turn-credit p ticks h = ground arith
  turn-credit p (offers s) h = ground arith

  run-credit :
      (p : Pacer) (ts : List (Turn Fields))
      → IsPacer p
      → length (run p ts).1 + credit (run p ts).0 ≤ credit p + tick_count ts
  unfolding run
  run-credit p [] h = omega arith
  run-credit p (ticks ∷ ts) h =
      let (p', taken) = turn p ticks in
      let (h', le) = turn-credit p ticks h in
      omega (arith, run-credit p' ts h', length-append taken (run p' ts).1)
  run-credit p (offers s ∷ ts) h =
      let (p', taken) = turn p (offers s) in
      let (h', le) = turn-credit p (offers s) h in
      omega (arith, run-credit p' ts h', length-append taken (run p' ts).1)

  -- However often workers send, a writer takes at most one statistic for each tick of its
  -- interval, and one more.
  pub run_paced : (ts : List (Turn Fields)) → length (run new_pacer ts).1 ≤ tick_count ts + 1
  run_paced ts = omega (arith, run-credit new_pacer ts (λ e. absurd (cc)))
