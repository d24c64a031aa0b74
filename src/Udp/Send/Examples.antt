-- ===== src/Udp/Send/Examples.antt =====
-- A sender that is reconfigured between two packets.
use close.Config.Push as Push
use close.Config.Push.{ConfigPush, serve}
use close.Config.Push.Examples.{stored_back}
use close.Config.Sub.Examples.{store}
use close.Prelude.{
  Assoc, List, Option, String, [], arith, false, length, if◌then◌else◌, lookup, none, ok, refl,
  some, str_eq, ℕ, ◌==◌, ◌∷◌, ◌≡◌,
}
use close.Udp.Send.{Event, Send, SendConfig, begin, flushes, pushes, run, ticks, wakes}
use close.Udp.Send.Sequence.{Consecutive, run-Consecutive}
use close.Udp.Send.Ending.{begin_ends}
use close.Udp.Send.Registration.{push_config, serve_agrees}

abbrev slow : SendConfig
slow = record { id = "0102"; rate = 1; count = 0; size = 64 }

abbrev fast : SendConfig
fast = record { id = "0102"; rate = 100; count = 7; size = 64 }

abbrev sender : Send
sender = begin 0 (1 ∷ 2 ∷ []) slow (some 5)

abbrev turns : List Event
turns =
    wakes 1
    ∷ ticks (some (some 64))
    ∷ wakes 2
    ∷ pushes 2 (λ c. ok fast)
    ∷ wakes 3
    ∷ ticks (some none)
    ∷ flushes 9
    ∷ ticks none
    ∷ []

run-Consecutive_example : Consecutive sender.id sender.seq (run sender turns).1
run-Consecutive_example = run-Consecutive sender turns

-- Texts for two configurations, and one that cannot be read.
abbrev decode : SendConfig → String → Option SendConfig
decode old text =
    if str_eq text "bad" then none else if str_eq text "fast" then some fast else some slow

abbrev encode : SendConfig → String
encode c = if c.rate == 1 then "slow" else "fast"

abbrev push_of : String → ConfigPush
push_of text = record { config = some text }

abbrev pushed : List (ConfigPush × ℕ)
pushed = (push_of "fast", 1) ∷ (push_of "bad", 2) ∷ []

serve_agrees_example :
    (s' : Send) × (t' : Assoc String) × (Push.serve store "close/ping/1" 9
        (some (push_config decode (λ p. 1)))
        (λ c. some (encode c))
        pushed
        sender
        (("close/ping/1", "slow") ∷ [])
      ≡ some (s', t'))
    × (lookup "close/ping/1" t' ≡ some (encode s'.config))
unfolding begin lookup
serve_agrees_example =
    serve_agrees decode (λ p. 1) encode store "close/ping/1" 9 (lookup "close/ping/1") pushed sender
      (("close/ping/1", "slow") ∷ []) stored_back (("fast", refl), (("bad", refl), tt)) refl

-- A sender of two packets, with an idle turn and a report between the two.
abbrev two : SendConfig
two = record { id = "0102"; rate = 1; count = 2; size = 64 }

abbrev to_end : List Event
to_end =
    ticks (some none)
    ∷ wakes 1
    ∷ ticks (some (some 64))
    ∷ flushes 9
    ∷ wakes 2
    ∷ wakes 2
    ∷ ticks (some none)
    ∷ wakes 3
    ∷ wakes 3
    ∷ ticks (some none)
    ∷ []

begin_ends_example :
    let (s, ps) = run (begin 0 (1 ∷ 2 ∷ []) two (some 5)) to_end in
    (s.running ≡ false) × (length ps ≡ 2)
begin_ends_example =
    begin_ends 0 (1 ∷ 2 ∷ []) two (some 5) to_end (omega arith) (omega arith)
      (refl, (refl, (refl, (refl, (refl, (refl, (refl, (refl, (refl, (refl, tt))))))))))
      (omega arith)
