-- ===== src/Icmp/Ping/Receiver.antt =====
-- icmp/ping.go: the goroutine that reads responses, the answers to pushes, and the end of the main loop.
use close.Prelude.{
  Bool-cases, Exec, List, Option, Result, String, [], err, false, inl, inr, ok, raise, refl, true,
  ℕ, ◌++◌, ◌>>=◌, ◌∷◌, ◌≡◌,
}
use close.Config.Push.{ConfigPush, PushError, rejected, unmarshal}
use close.Icmp.Conn.{Conn, ConnError, Echo, MessageType, NetAddr, Parsed, Ping, recv}
use close.Icmp.Ping.{Event, PingConfig, Pinger, receives, recv_closes, run, step, turn}

-- what a socket gave at a time
abbrev pub Read : Type 0
Read = ℕ × Option (List ℕ × NetAddr)

module _ (parse : ℕ → List ℕ → Parsed) (c : Conn) where
  -- `receiver`: it closes its channel at the first error
  unfoldable pub receiver : List Read → List Event
  unfolding recv
  receiver [] = []
  receiver ((now, r) ∷ rs) =
      let rest = receiver rs in
      elim (recv parse c now r) [ err e ↦ recv_closes ∷ [] | ok p ↦ receives p ∷ rest ]

pub data PingError : Type 0 where
  not_implemented : PingError

-- `configPush`: what was decoded over a copy of the configuration is not applied
unfoldable pub config_push :
    {S : Type 0}
    → (PingConfig → String → Option PingConfig)
    → PingConfig
    → ConfigPush
    → Exec S (PushError PingError) PingConfig
config_push decode config p = do
  pushed ← unmarshal (decode config) p
  raise (rejected not_implemented)

module _ (marshal : MessageType → Echo → Option (List ℕ)) where
  step-stopped : (s : Pinger) (e : Event) → s.running ≡ false → step marshal s e ≡ (s, [])
  unfolding step
  step-stopped s e h = rw h refl

  stopped :
      (s : Pinger) (es : List Event) → s.running ≡ false → (run marshal s es).0.running ≡ false
  unfolding run
  stopped s [] h = h
  stopped s (e ∷ es) h = rw (step-stopped s e h) (stopped s es h)

  step-closes :
      (s : Pinger)
      → s.running ≡ true
      → step marshal s recv_closes ≡ (record s { running = false }, [])
  unfolding step turn
  step-closes s h = rw h refl

  closes : (s : Pinger) (es : List Event) → (run marshal s (recv_closes ∷ es)).0.running ≡ false
  unfolding run
  closes s es = elim (Bool-cases s.running) [
    | inl h ↦ rw (step-closes s h) (stopped (record s { running = false }) es refl)
    | inr h ↦ rw (step-stopped s recv_closes h) (stopped s es h)
  ]

  -- One read that is an error, or a message that is no echo, ends the worker, whatever was read before.
  pub receiver_ends :
      (parse : ℕ → List ℕ → Parsed) (c : Conn) (s : Pinger) (front back : List Read) (now : ℕ)
      (r : Option (List ℕ × NetAddr)) {e : ConnError}
      → recv parse c now r ≡ err e
      → (run marshal s (receiver parse c (front ++ (now, r) ∷ back))).0.running ≡ false
  unfolding receiver run
  receiver_ends parse c s [] back now r h = rw (receiver, h) (closes s [])
  receiver_ends parse c s ((at, first) ∷ front) back now r h =
      go (recv parse c at first) (λ s. receiver_ends parse c s front back now r h)
    where
      go :
          (x : Result {0, 0} ConnError Ping)
          → ((s : Pinger)
              → (run marshal s (receiver parse c (front ++ (now, r) ∷ back))).0.running ≡ false)
          → (run marshal s (elim x as (λ x. List Event) [
            | err e ↦ recv_closes ∷ []
            | ok p ↦ receives p ∷ receiver parse c (front ++ (now, r) ∷ back)
          ])).0.running
            ≡ false
      go (err e) ih = closes s []
      go (ok p) ih = ih (step marshal s (receives p)).0
