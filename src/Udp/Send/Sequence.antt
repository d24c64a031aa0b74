-- ===== src/Udp/Send/Sequence.antt =====
-- The sequence numbers of a sender's packets.
use mathlib.Core.Path.{subst₂}
use close.Prelude.{
  Bool-cases, List, Option, Result, [], arith, false, if◌then◌else◌, inl, inr, ltb, none, refl,
  some, true, u64, ℕ, ◌+◌, ◌-◌, ◌∷◌, ◌≡◌,
}
use close.Udp.Rate as Rate
use close.Udp.Send.{
  ConfigError, Event, Output, Send, SendConfig, Sent, config_closes, config_push, emit, flushes,
  on_flush, on_tick, pushes, quiet, replies, reports, run, sends, step, stops, ticks, turn, wakes,
}
use close.Udp.Rate.{Phase, closed, sending, testing}

-- The payloads that carry the ID and the consecutive numbers from `seq` on.
abbrev pub Consecutive : List ℕ → ℕ → List Sent → Type 0
Consecutive id seq [] = Unit {0}
Consecutive id seq (p ∷ ps) =
    (p.payload.id ≡ id) × (p.payload.seq ≡ seq) × Consecutive id (u64 (seq + 1)) ps

-- the sequence number behind an output, and what the output's packet carries
abbrev next : Output → ℕ → ℕ
next (sends p) seq = u64 (seq + 1)
next quiet seq = seq
next (reports r) seq = seq
next (replies r) seq = seq

abbrev Numbered : List ℕ → ℕ → Output → Type 0
Numbered id seq (sends p) = (p.payload.id ≡ id) × (p.payload.seq ≡ seq)
Numbered id seq quiet = Unit {0}
Numbered id seq (reports r) = Unit {0}
Numbered id seq (replies r) = Unit {0}

-- One turn sends the next payload or keeps the sequence number, and keeps the ID.
abbrev Turned : Send → Send × Output → Type 0
Turned s t = (t.0.id ≡ s.id) × (t.0.seq ≡ next t.1 s.seq) × Numbered s.id s.seq t.1

config_push-keeps :
    (now : ℕ) (r : Result ConfigError SendConfig) (s : Send)
    → ((config_push now r s).0.id ≡ s.id) × ((config_push now r s).0.seq ≡ s.seq)
unfolding config_push
config_push-keeps now r s = ground arith

on_tick-Turned :
    (phase : Rate.Phase) (result : Option (Option ℕ)) (s : Send) → Turned s (on_tick phase result s)
unfolding on_tick
on_tick-Turned Rate.Phase.sending none s = (refl, refl, tt)
on_tick-Turned Rate.Phase.sending (some written) s = (refl, refl, (refl, refl))
on_tick-Turned Rate.Phase.testing result s = (refl, refl, tt)
on_tick-Turned Rate.Phase.counting result s = (refl, refl, tt)
on_tick-Turned Rate.Phase.closed result s = (refl, refl, tt)

on_flush-Turned : (interval : Option ℕ) (now : ℕ) (s : Send) → Turned s (on_flush interval now s)
unfolding on_flush
on_flush-Turned none now s = (refl, refl, tt)
on_flush-Turned (some interval) now s = elim (Bool-cases (ltb (now - s.stats_start) interval)) [
  | inl e ↦ rw e (refl, refl, tt)
  | inr e ↦ rw e (refl, refl, tt)
]

step-Turned : (s : Send) (e : Event) → Turned s (step s e)
unfolding step
step-Turned s e = elim s.running as (λ b. Turned s (if b then turn s e else (s, quiet))) [
  | true ↦ turned e
  | false ↦ (refl, refl, tt)
]
  where
    turned : (e : Event) → Turned s (turn s e)
    turned (wakes now) = (refl, refl, tt)
    turned (ticks result) = on_tick-Turned s.clock.phase result s
    turned (flushes now) = on_flush-Turned s.stats_interval now s
    turned (pushes now decode) =
        let (i, q) = config_push-keeps now (decode s.config) s in (i, q, tt)
    turned config_closes = (refl, refl, tt)
    turned stops = (refl, refl, tt)

emit-Consecutive :
    (o : Output) (id : List ℕ) (seq : ℕ) (ps : List Sent)
    → Numbered id seq o
    → Consecutive id (next o seq) ps
    → Consecutive id seq (emit o ps)
unfolding emit
emit-Consecutive (sends p) id seq ps (i, q) c = (i, q, c)
emit-Consecutive quiet id seq ps n c = c
emit-Consecutive (reports r) id seq ps n c = c
emit-Consecutive (replies r) id seq ps n c = c

Consecutive-eq :
    {id id' : List ℕ} {seq seq' : ℕ} (ps : List Sent)
    → id ≡ id'
    → seq ≡ seq'
    → Consecutive id seq ps
    → Consecutive id' seq' ps
Consecutive-eq ps p q = subst₂ (λ i n. Consecutive i n ps) p q

-- The packets of every execution carry the sender's ID and consecutive sequence numbers, from the
-- sender's own one on, whatever the clock, the socket, the statistics and pushed configurations do.
pub run-Consecutive : (s : Send) (es : List Event) → Consecutive s.id s.seq (run s es).1
unfolding run
run-Consecutive s [] = tt
run-Consecutive s (e ∷ es) =
    let (s', o) = step s e in
    let (i, q, n) = step-Turned s e in
    let (s'', ps) = run s' es in
    emit-Consecutive o s.id s.seq ps n (Consecutive-eq ps i q (run-Consecutive s' es))
