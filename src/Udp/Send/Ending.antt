-- ===== src/Udp/Send/Ending.antt =====
-- The end of a sender's execution: a sender with a count sends that many packets and returns, whatever
-- else its loop does between the turns of its clock and its ticks.
use close.Prelude.{
  All, Bool, List, Option, [], arith, false, length, none, refl, some, subst, true, ℕ, ◌+◌, ◌-◌,
  ◌<◌, ◌^◌, ◌∷◌, ◌≡◌, ◌≢◌, ◌≤◌, ◌∙◌, sym,
}
use close.Udp.Rate as Rate
use close.Udp.Rate.{Phase, closed, counting, sending, start_clock, testing}
use close.Udp.Rate.Ticks.{Owes}
use close.Udp.Send.{
  Event, Output, Send, SendConfig, Sent, begin, config_closes, emit, flushes, on_flush, on_tick,
  pushes, quiet, replies, reports, run, sends, step, stops, ticks, turn, wakes,
}

-- The turns of the loop without its environment: no push, no end of the configuration, no `Stop`, and no
-- packet that `send` refuses.
abbrev pub is_own : Event → Bool
is_own (wakes now) = true
is_own (ticks none) = false
is_own (ticks (some written)) = true
is_own (flushes now) = true
is_own (pushes now decode) = false
is_own config_closes = false
is_own stops = false

-- What a schedule waits for: the wake that leads to the send, the tick, or the wake that counts it.
pub data Awaited : Type 0 where
  a_send a_tick a_count : Awaited

-- What an event moves on: one turn, if it is what was waited for.
abbrev pub moves : Awaited → Event → ℕ × Awaited
moves a_send (wakes now) = (1, a_tick)
moves a_send (ticks result) = (0, a_send)
moves a_send (flushes now) = (0, a_send)
moves a_send (pushes now decode) = (0, a_send)
moves a_send config_closes = (0, a_send)
moves a_send stops = (0, a_send)
moves a_tick (wakes now) = (0, a_tick)
moves a_tick (ticks result) = (1, a_count)
moves a_tick (flushes now) = (0, a_tick)
moves a_tick (pushes now decode) = (0, a_tick)
moves a_tick config_closes = (0, a_tick)
moves a_tick stops = (0, a_tick)
moves a_count (wakes now) = (1, a_send)
moves a_count (ticks result) = (0, a_count)
moves a_count (flushes now) = (0, a_count)
moves a_count (pushes now decode) = (0, a_count)
moves a_count config_closes = (0, a_count)
moves a_count stops = (0, a_count)

-- How many turns of the clock and of its receiver there are in a schedule.
abbrev pub alternations : Awaited → List Event → ℕ
alternations b [] = 0
alternations b (e ∷ es) = let (n, b') = moves b e in n + alternations b' es

abbrev awaited : Phase → Awaited
awaited Rate.Phase.testing = a_send
awaited Rate.Phase.sending = a_tick
awaited Rate.Phase.counting = a_count
awaited Rate.Phase.closed = a_tick

-- the turns that are left until `Run` returns
abbrev need : Phase → ℕ → ℕ
need Rate.Phase.testing k = k + k + k + 2
need Rate.Phase.sending k = k + k + k + 1
need Rate.Phase.counting k = k + k + k + 3
need Rate.Phase.closed k = 1

abbrev count_of : Output → ℕ
count_of quiet = 0
count_of (sends p) = 1
count_of (reports r) = 0
count_of (replies r) = 0

-- A turn that the sender survives.
abbrev Survives : Phase → ℕ → Event → Send × Output → Type 0
Survives phase k e (s', o) =
    (s'.running ≡ true)
    × Owes s'.clock (k - count_of o)
    × (count_of o ≤ k)
    × ((moves (awaited phase) e).1 ≡ awaited s'.clock.phase)
    × ((moves (awaited phase) e).0 + need s'.clock.phase (k - count_of o) ≤ need phase k)

wake-Survives :
    (phase : Phase) (now : ℕ) (s : Send) (k : ℕ)
    → s.clock.phase ≡ phase
    → s.running ≡ true
    → Owes s.clock k
    → Survives phase k (wakes now) (turn s (wakes now))
unfolding turn Rate.step
wake-Survives Rate.Phase.counting now s k e r h = ground arith
wake-Survives Rate.Phase.testing now s k e r h = ground arith
wake-Survives Rate.Phase.sending now s k e r h = ground arith
wake-Survives Rate.Phase.closed now s k e r h = ground arith

flush-Survives :
    (phase : Phase) (now : ℕ) (s : Send) (k : ℕ)
    → s.clock.phase ≡ phase
    → s.running ≡ true
    → Owes s.clock k
    → Survives phase k (flushes now) (turn s (flushes now))
unfolding turn on_flush
flush-Survives phase now s k e r h = ground arith

tick-Survives :
    (phase : Phase) (written : Option ℕ) (s : Send) (k : ℕ)
    → s.clock.phase ≡ phase
    → phase ≢ closed
    → s.running ≡ true
    → Owes s.clock k
    → Survives phase k (ticks (some written)) (on_tick phase (some written) s)
unfolding on_tick Rate.step
tick-Survives Rate.Phase.testing written s k e live r h = ground arith
tick-Survives Rate.Phase.counting written s k e live r h = ground arith
tick-Survives Rate.Phase.sending written s k e live r h = ground arith
tick-Survives Rate.Phase.closed written s k e live r h = absurd (live refl)

turn-Survives :
    (phase : Phase) (written : Option ℕ) (s : Send) (k : ℕ)
    → s.clock.phase ≡ phase
    → phase ≢ closed
    → s.running ≡ true
    → Owes s.clock k
    → Survives phase k (ticks (some written)) (turn s (ticks (some written)))
unfolding turn
turn-Survives phase written s k e live r h =
    subst (λ x. Survives phase k (ticks (some written)) (on_tick x (some written) s)) (sym e)
      (tick-Survives phase written s k e live r h)

length-emit : (o : Output) (ps : List Sent) → length (emit o ps) ≡ count_of o + length ps
unfolding emit
length-emit quiet ps = omega arith
length-emit (sends p) ps = omega arith
length-emit (reports r) ps = omega arith
length-emit (replies r) ps = omega arith

step-ended : (s : Send) (e : Event) → s.running ≡ false → step s e ≡ (s, quiet)
unfolding step
step-ended s e r = rw r refl

ended : (s : Send) (es : List Event) → s.running ≡ false → run s es ≡ (s, [])
unfolding run emit
ended s [] r = refl
ended s (e ∷ es) r = rw (step-ended s e r, ended s es r) refl

step-running : (s : Send) (e : Event) → s.running ≡ true → step s e ≡ turn s e
unfolding step
step-running s e r = rw r refl

abbrev IsOver : ℕ → Send × List Sent → Type 0
IsOver k (s, ps) = (s.running ≡ false) × (length ps ≡ k)

-- One turn that the sender survives, before the others.
Survives-IsOver :
    (phase : Phase) (s : Send) (k : ℕ) (e : Event) (es : List Event)
    → s.running ≡ true
    → Survives phase k e (turn s e)
    → need phase k ≤ alternations (awaited phase) (e ∷ es)
    → ((s' : Send) (k' : ℕ)
        → s'.running ≡ true
        → Owes s'.clock k'
        → need s'.clock.phase k' ≤ alternations (awaited s'.clock.phase) es
        → IsOver k' (run s' es))
    → IsOver k (run s (e ∷ es))
unfolding run
Survives-IsOver phase s k e es r (run', h, c, m, n) a later =
    let (s', o) = turn s e in
    let enough : need s'.clock.phase (k - count_of o) ≤ alternations (awaited s'.clock.phase) es =
      subst (λ b. need s'.clock.phase (k - count_of o) ≤ alternations b es) m (omega arith) in
    let (done, sent) = later s' (k - count_of o) run' h enough in
    rw (step-running s e r) (done, omega (arith, length-emit o (run s' es).1))

tick-closed :
    (s : Send) (written : Option ℕ)
    → s.clock.phase ≡ closed
    → turn s (ticks (some written)) ≡ (record s { running = false }, quiet)
unfolding turn on_tick
tick-closed s written e = rw e refl

closed-IsOver :
    (s : Send) (k : ℕ) (written : Option ℕ) (es : List Event)
    → s.clock.phase ≡ closed
    → s.running ≡ true
    → Owes s.clock k
    → IsOver k (run s (ticks (some written) ∷ es))
unfolding run emit
closed-IsOver s k written es e r h =
    rw
      (
        step-running s (ticks (some written)) r ∙ tick-closed s written e,
        ended (record s { running = false }) es refl,
      )
      (refl, ground arith)

run-IsOver :
    (phase : Phase) (s : Send) (k : ℕ) (es : List Event)
    → s.clock.phase ≡ phase
    → s.running ≡ true
    → Owes s.clock k
    → All (λ e. is_own e ≡ true) es
    → need phase k ≤ alternations (awaited phase) es
    → IsOver k (run s es)
run-IsOver phase s k [] e r h own a = absurd (ground arith)
run-IsOver phase s k (wakes now ∷ es) e r h own a =
    Survives-IsOver phase s k (wakes now) es r (wake-Survives phase now s k e r h) a
      (λ s' k' r' h' a'. run-IsOver s'.clock.phase s' k' es refl r' h' own.1 a')
run-IsOver phase s k (flushes now ∷ es) e r h own a =
    Survives-IsOver phase s k (flushes now) es r (flush-Survives phase now s k e r h) a
      (λ s' k' r' h' a'. run-IsOver s'.clock.phase s' k' es refl r' h' own.1 a')
run-IsOver phase s k (ticks none ∷ es) e r h own a = absurd (cc)
run-IsOver Rate.Phase.closed s k (ticks (some written) ∷ es) e r h own a =
    closed-IsOver s k written es e r h
run-IsOver Rate.Phase.testing s k (ticks (some written) ∷ es) e r h own a =
    Survives-IsOver testing s k (ticks (some written)) es r
      (turn-Survives testing written s k e (λ q. cc) r h) a
      (λ s' k' r' h' a'. run-IsOver s'.clock.phase s' k' es refl r' h' own.1 a')
run-IsOver Rate.Phase.sending s k (ticks (some written) ∷ es) e r h own a =
    Survives-IsOver sending s k (ticks (some written)) es r
      (turn-Survives sending written s k e (λ q. cc) r h) a
      (λ s' k' r' h' a'. run-IsOver s'.clock.phase s' k' es refl r' h' own.1 a')
run-IsOver Rate.Phase.counting s k (ticks (some written) ∷ es) e r h own a =
    Survives-IsOver counting s k (ticks (some written)) es r
      (turn-Survives counting written s k e (λ q. cc) r h) a
      (λ s' k' r' h' a'. run-IsOver s'.clock.phase s' k' es refl r' h' own.1 a')
run-IsOver phase s k (pushes now decode ∷ es) e r h own a = absurd (cc)
run-IsOver phase s k (config_closes ∷ es) e r h own a = absurd (cc)
run-IsOver phase s k (stops ∷ es) e r h own a = absurd (cc)

-- A sender with a count that is not 0, and below 2 ^ 64, always comes to its end: in any schedule
-- of its clock, its ticks and its statistics, without pushes and without Stop, without a
-- packet that send refuses, in which the clock and its receiver take their turns three times as often
-- as the count says and twice more, whatever the clock and the answers of the socket to the writes
-- say, Run returns, and the packets sent are as many as the count says.
pub begin_ends :
    (now : ℕ) (id : List ℕ) (config : SendConfig) (interval : Option ℕ) (es : List Event)
    → 0 < config.count
    → config.count < 2 ^ 64
    → All (λ e. is_own e ≡ true) es
    → config.count + config.count + config.count + 2 ≤ alternations a_send es
    → let (s, ps) = run (begin now id config interval) es in
      (s.running ≡ false) × (length ps ≡ config.count)
unfolding begin start_clock
begin_ends now id config interval es lo hi own a =
    run-IsOver testing (begin now id config interval) config.count es refl refl (ground arith) own a
