-- ===== src/Udp/Send/Reconfigure.antt =====
-- Pushed configurations of a running sender.
use close.Prelude.{
  List, Option, Result, [], arith, err, false, if◌then◌else◌, ok, refl, str_eq, true, ℕ, ◌&&◌, ◌==◌,
  ◌∙◌, ◌∷◌, ◌≡◌,
}
use close.Udp.Rate as Rate
use close.Udp.Send.{
  ConfigError, Event, Send, SendConfig, cannot_change_id, config_closes, config_push, flushes,
  on_flush, on_tick, pushes, quiet, run, step, stops, ticks, turn, wakes,
}
use close.Udp.Rate.{Phase}

-- A push that decodes to the sender's own ID sets rate, count and size to the pushed values and
-- answers with the configuration that then holds; the clock is set anew just when rate or count
-- change.
pub config_push_accepted :
    (now : ℕ) (c : SendConfig) (s : Send)
    → str_eq c.id s.config.id ≡ true
    → let (s', r) = config_push now (ok c) s in
      (s'.config ≡ record c { id = s.config.id })
      × (r ≡ ok s'.config)
      × (s'.clock ≡ (
          if c.rate == s.config.rate && c.count == s.config.count
          then s.clock
          else Rate.set now c.rate c.count s.clock))
unfolding config_push
config_push_accepted now c s e = ground arith

-- A push with another ID is refused and changes nothing.
pub config_push_refused :
    (now : ℕ) (c : SendConfig) (s : Send)
    → str_eq c.id s.config.id ≡ false
    → config_push now (ok c) s ≡ (s, err cannot_change_id)
unfolding config_push
config_push_refused now c s e = rw e

abbrev Fixed : Send → Send → Type 0
Fixed s s' = (s'.config.id ≡ s.config.id) × (s'.stats_config ≡ s.stats_config)

config_push-Fixed :
    (now : ℕ) (r : Result ConfigError SendConfig) (s : Send) → Fixed s (config_push now r s).0
unfolding config_push
config_push-Fixed now r s = ground arith

on_tick-Fixed :
    (phase : Rate.Phase) (result : Option (Option ℕ)) (s : Send)
    → Fixed s (on_tick phase result s).0
unfolding on_tick
on_tick-Fixed phase result s = ground arith

on_flush-Fixed : (interval : Option ℕ) (now : ℕ) (s : Send) → Fixed s (on_flush interval now s).0
unfolding on_flush
on_flush-Fixed interval now s = ground arith

turn-Fixed : (s : Send) (e : Event) → Fixed s (turn s e).0
unfolding turn
turn-Fixed s (wakes now) = (refl, refl)
turn-Fixed s (ticks result) = on_tick-Fixed s.clock.phase result s
turn-Fixed s (flushes now) = on_flush-Fixed s.stats_interval now s
turn-Fixed s (pushes now decode) = config_push-Fixed now (decode s.config) s
turn-Fixed s config_closes = (refl, refl)
turn-Fixed s stops = (refl, refl)

step-Fixed : (s : Send) (e : Event) → Fixed s (step s e).0
unfolding step
step-Fixed s e = elim s.running as (λ b. Fixed s (if b then turn s e else (s, quiet)).0) [
  | true ↦ turn-Fixed s e
  | false ↦ (refl, refl)
]

-- No execution changes the sender's configured ID, nor the configuration that its reports carry.
pub run-Fixed :
    (s : Send) (es : List Event)
    → let s' = (run s es).0 in (s'.config.id ≡ s.config.id) × (s'.stats_config ≡ s.stats_config)
unfolding run
run-Fixed s [] = (refl, refl)
run-Fixed s (e ∷ es) =
    let (s', o) = step s e in
    let (i, c) = step-Fixed s e in let (i', c') = run-Fixed s' es in (i' ∙ i, c' ∙ c)
