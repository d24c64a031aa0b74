-- ===== src/Udp/Rate/Examples.antt =====
-- A clock of two ticks per second.
use close.Prelude.{[], arith, refl, ◌++◌, ◌∷◌, ◌≡◌, ◌≢◌}
use close.Udp.Rate.{
  RateClock, closed, no_stats, run, start_clock, stop_clock, takes, testing, wakes,
}
use close.Udp.Rate.Ticks.{rounds, rounds_close, stop_at_zero_ignored}

abbrev clock : RateClock
clock = record { stats = no_stats; start = 0; rate = 2; stop = 5; offset = 1; phase = testing }

rounds_close_example :
    let (c', n) = run (start_clock 0 2 2) (rounds (1 ∷ 2 ∷ []) ++ wakes 3 ∷ []) in
    (c'.phase ≡ closed) × (n ≡ 2)
unfolding start_clock
rounds_close_example =
    rounds_close (start_clock 0 2 2) (1 ∷ 2 ∷ []) 3
      (refl, omega arith, omega arith, (λ e. cc), (λ e. cc)) (λ e. cc) (λ e. cc)

stop_at_zero_ignored_example :
    (run (stop_clock (start_clock 0 2 2)) (wakes 1 ∷ takes ∷ [])).0.phase ≢ closed
unfolding start_clock
stop_at_zero_ignored_example =
    stop_at_zero_ignored (start_clock 0 2 2) (wakes 1 ∷ takes ∷ []) refl (λ e. cc)
      (refl, (refl, tt))
