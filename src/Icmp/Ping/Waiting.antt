-- ===== src/Icmp/Ping/Waiting.antt =====
-- What becomes of a request in flight while other events come.
use close.Prelude.{
  All, Bool, List, Option, [], arith, false, if◌then◌else◌, none, refl, some, suc, true, ℕ, ◌+◌,
  ◌<◌, ◌==◌, ◌^◌, ◌∙◌, ◌∷◌, ◌≡◌, ◌≤◌,
}
use close.Icmp.Conn.{Conn, ConnError, Echo, MessageType, Ping, send, send_bytes, u16}
use close.Icmp.Ping.{
  Event, Pinger, answer, config_closes, keep, lookup_seq, pushes, receives, recv_closes, run, step,
  timer, turn,
}
use close.Icmp.Ping.Requests.{lookup-delete_seq, lookup-insert_seq}

-- the turns of the timer
abbrev pub timers : List Event → ℕ
timers [] = 0
timers (timer now write ∷ es) = suc (timers es)
timers (receives r ∷ es) = timers es
timers (recv_closes ∷ es) = timers es
timers (pushes ∷ es) = timers es
timers (config_closes ∷ es) = timers es

-- a response with a number
abbrev pub responds : ℕ → Event → Bool
responds k (timer now write) = false
responds k (receives r) = r.seq == k
responds k recv_closes = false
responds k pushes = false
responds k config_closes = false

module _ (marshal : MessageType → Echo → Option (List ℕ)) where
  send-seq :
      (c : Conn) (now : ℕ) (write : List ℕ → Option ℕ) (wb : Option (List ℕ)) (p : Ping)
      → (send_bytes c now write wb p).1.seq ≡ p.seq
  unfolding send_bytes
  send-seq c now write none p = refl
  send-seq c now write (some wb) p = refl

  -- What becomes of the request with the number `k`, the last one but `j`: it is what `o` says, the same
  -- as before.
  pub record Waits (k j : ℕ) (o : Option Ping) (s : Pinger) : Type 0 where
    pub found : lookup_seq k s.packets ≡ o
    pub behind : s.packet.seq ≡ u16 (k + j)
    pub reports : s.has_stats ≡ true

  keep-Waits :
      (k j : ℕ) (o : Option Ping) (s : Pinger) (x : Option ConnError × Ping)
      → k < 2 ^ 16
      → suc j < 2 ^ 16
      → x.1.seq ≡ u16 (s.packet.seq + 1)
      → Waits k j o s
      → Waits k (suc j) o (keep x s)
  unfolding keep
  keep-Waits k j o s (some e, p) lk lj q h = record {
    found = h.found;
    behind = omega (arith, q, h.behind);
    reports = h.reports;
  }
  keep-Waits k j o s (none, p) lk lj q h =
      let other : (p.seq == k) ≡ false = ground (arith, q, h.behind) in
      record {
        found = lookup-insert_seq p.seq k p s.packets ∙ rw other (h.found);
        behind = omega (arith, q, h.behind);
        reports = h.reports;
      }

  answer-Waits :
      (k j : ℕ) (o x : Option Ping) (s : Pinger) (r : Ping)
      → lookup_seq r.seq s.packets ≡ x
      → (r.seq == k ≡ true → o ≡ none)
      → Waits k j o s
      → Waits k j o (answer r x s).0
  unfolding answer
  answer-Waits k j o none s r e c h = h
  answer-Waits k j o (some p) s r e c h = record {
    found = lookup-delete_seq r.seq k s.packets ∙ ground (arith, h.found, c);
    behind = h.behind;
    reports = h.reports;
  }

  -- the same behind at most so many turns of the timer
  abbrev pub Later : ℕ → ℕ → Option Ping → Pinger → Type 0
  Later k n o s = (j : ℕ) × (j ≤ n) × Waits k j o s

  turn-Waits :
      (k j : ℕ) (o : Option Ping) (s : Pinger) (e : Event)
      → k < 2 ^ 16
      → j + timers (e ∷ []) < 2 ^ 16
      → (responds k e ≡ true → o ≡ none)
      → Waits k j o s
      → Later k (j + timers (e ∷ [])) o (turn marshal s e).0
  unfolding turn send
  turn-Waits k j o s (timer now write) lk lj c h =
      let next : Ping = record (s.packet) { seq = u16 (s.packet.seq + 1) } in
      let echo : Echo = record { id = next.id; seq = next.seq; bytes = next.bytes } in
      (
        suc j,
        omega arith,
        keep-Waits k j o s (send marshal s.conn now write next) lk (omega arith)
            (send-seq s.conn now write (marshal s.conn.proto.message_type echo) next) h,
      )
  turn-Waits k j o s (receives r) lk lj c h =
      (j, omega arith, answer-Waits k j o (lookup_seq r.seq s.packets) s r refl c h)
  turn-Waits k j o s recv_closes lk lj c h =
      (j, omega arith, record { found = h.found; behind = h.behind; reports = h.reports })
  turn-Waits k j o s pushes lk lj c h = (j, omega arith, h)
  turn-Waits k j o s config_closes lk lj c h =
      (j, omega arith, record { found = h.found; behind = h.behind; reports = h.reports })

  step-Waits :
      (k j : ℕ) (o : Option Ping) (s : Pinger) (e : Event)
      → k < 2 ^ 16
      → j + timers (e ∷ []) < 2 ^ 16
      → (responds k e ≡ true → o ≡ none)
      → Waits k j o s
      → Later k (j + timers (e ∷ [])) o (step marshal s e).0
  unfolding step
  step-Waits k j o s e lk lj c h =
      elim s.running
        as (λ t. Later k (j + timers (e ∷ [])) o (if t then turn marshal s e else (s, [])).0) [
          | true ↦ turn-Waits k j o s e lk lj c h
          | false ↦ (j, omega arith, h)
        ]

  timers-cons : (e : Event) (es : List Event) → timers (e ∷ es) ≡ timers (e ∷ []) + timers es
  timers-cons (timer now write) es = omega arith
  timers-cons (receives r) es = omega arith
  timers-cons recv_closes es = omega arith
  timers-cons pushes es = omega arith
  timers-cons config_closes es = omega arith

  pub run-Waits :
      (k j : ℕ) (o : Option Ping) (s : Pinger) (es : List Event)
      → k < 2 ^ 16
      → j + timers es < 2 ^ 16
      → All (λ e. responds k e ≡ true → o ≡ none) es
      → Waits k j o s
      → Later k (j + timers es) o (run marshal s es).0
  unfolding run
  run-Waits k j o s [] lk lj c h = (j, omega arith, h)
  run-Waits k j o s (e ∷ es) lk lj c h =
      let t = timers-cons e es in
      let (i, li, w) = step-Waits k j o s e lk (omega arith) c.0 h in
      let (m, lm, v) = run-Waits k i o (step marshal s e).0 es lk (omega arith) c.1 w in
      (m, omega arith, v)

  abbrev pub absent : Option Ping
  absent = none

  pub any_events : (k : ℕ) (es : List Event) → All (λ e. responds k e ≡ true → absent ≡ none) es
  any_events k [] = tt
  any_events k (e ∷ es) = (λ _. refl, any_events k es)

  pub other_events :
      (k : ℕ) (o : Option Ping) (es : List Event)
      → All (λ e. responds k e ≡ false) es
      → All (λ e. responds k e ≡ true → o ≡ none) es
  other_events k o [] c = tt
  other_events k o (e ∷ es) c = (λ q. absurd (cc (c.0, q)), other_events k o es c.1)
