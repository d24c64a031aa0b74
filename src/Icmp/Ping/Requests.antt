-- ===== src/Icmp/Ping/Requests.antt =====
-- Requests and the responses that are reported for them.
use close.Prelude.{
  All, All-append, List, Option, [], arith, false, if◌then◌else◌, length, length-append, none, refl,
  some, subst, suc, sym, true, ℕ, ◌+◌, ◌==◌, ◌∷◌, ◌≡◌, ◌≤◌,
}
use close.Icmp.Conn.{Conn, ConnError, Echo, MessageType, Ping, send, send_bytes, u16}
use close.Icmp.Ping.{
  Event, Inflight, PingStats, Pinger, answer, config_closes, delete_seq, insert_seq, keep,
  lookup_seq, pushes, receives, recv_closes, run, step, timer, turn,
}

pub lookup-insert_seq :
    (k i : ℕ) (p : Ping) (ps : Inflight)
    → lookup_seq i (insert_seq k p ps) ≡ (if k == i then some p else lookup_seq i ps)
unfolding lookup_seq insert_seq
lookup-insert_seq k i p [] = refl
lookup-insert_seq k i p ((j, q) ∷ ps) = ground (arith, lookup-insert_seq k i p ps)

pub lookup-delete_seq :
    (k i : ℕ) (ps : Inflight)
    → lookup_seq i (delete_seq k ps) ≡ (if k == i then none else lookup_seq i ps)
unfolding lookup_seq delete_seq
lookup-delete_seq k i [] = ground arith
lookup-delete_seq k i ((j, q) ∷ ps) = ground (arith, lookup-delete_seq k i ps)

length-insert_seq :
    (k : ℕ) (p : Ping) (ps : Inflight) → length (insert_seq k p ps) ≤ suc (length ps)
unfolding insert_seq
length-insert_seq k p [] = omega arith
length-insert_seq k p ((j, q) ∷ ps) = ground (arith, length-insert_seq k p ps)

length-delete_seq : (k : ℕ) (ps : Inflight) → length (delete_seq k ps) ≤ length ps
unfolding delete_seq
length-delete_seq k [] = omega arith
length-delete_seq k ((j, q) ∷ ps) = ground (arith, length-delete_seq k ps)

length-delete_seq_of_some :
    (k : ℕ) (ps : Inflight) (p : Ping)
    → lookup_seq k ps ≡ some p
    → suc (length (delete_seq k ps)) ≤ length ps
unfolding delete_seq lookup_seq
length-delete_seq_of_some k [] p e = absurd (cc)
length-delete_seq_of_some k ((j, q) ∷ ps) p e =
    ground (arith, length-delete_seq_of_some k ps p, length-delete_seq k ps)

-- Every request in flight carries the connection's ID.
abbrev Ours : ℕ → Inflight → Type 0
Ours id = All (λ e. e.1.id ≡ id)

Ours-insert_seq :
    (id k : ℕ) (p : Ping) (ps : Inflight) → p.id ≡ id → Ours id ps → Ours id (insert_seq k p ps)
unfolding insert_seq
Ours-insert_seq id k p [] e h = (e, tt)
Ours-insert_seq id k p ((j, q) ∷ ps) e (f, h) =
    elim (j == k) as (λ t. Ours id (if t then (k, p) ∷ ps else (j, q) ∷ insert_seq k p ps)) [
      | true ↦ (e, h)
      | false ↦ (f, Ours-insert_seq id k p ps e h)
    ]

Ours-delete_seq : (id k : ℕ) (ps : Inflight) → Ours id ps → Ours id (delete_seq k ps)
unfolding delete_seq
Ours-delete_seq id k [] h = tt
Ours-delete_seq id k ((j, q) ∷ ps) (f, h) =
    elim (j == k) as (λ t. Ours id (if t then delete_seq k ps else (j, q) ∷ delete_seq k ps)) [
      | true ↦ Ours-delete_seq id k ps h
      | false ↦ (f, Ours-delete_seq id k ps h)
    ]

Ours-lookup_seq :
    (id k : ℕ) (ps : Inflight) (p : Ping) → Ours id ps → lookup_seq k ps ≡ some p → p.id ≡ id
unfolding lookup_seq
Ours-lookup_seq id k [] p h e = absurd (cc)
Ours-lookup_seq id k ((j, q) ∷ ps) p (f, h) e = ground (arith, Ours-lookup_seq id k ps p h)

-- 1 for a request that the socket took whole
abbrev pub accepted : Option ConnError → ℕ
accepted none = 1
accepted (some e) = 0

module _ (marshal : MessageType → Echo → Option (List ℕ)) where
  sent-id :
      (c : Conn) (now : ℕ) (write : List ℕ → Option ℕ) (wb : Option (List ℕ)) (p : Ping)
      → (send_bytes c now write wb p).0 ≡ none
      → (send_bytes c now write wb p).1.id ≡ u16 c.id
  unfolding send_bytes
  sent-id c now write none p e = absurd (cc)
  sent-id c now write (some wb) p e = refl

  -- the request that a turn of the loop sends
  abbrev pub requested : Pinger → Event → ℕ
  requested s (timer now write) =
      accepted
        (send marshal s.conn now write (record (s.packet) { seq = u16 (s.packet.seq + 1) })).0
  requested s (receives r) = 0
  requested s recv_closes = 0
  requested s pushes = 0
  requested s config_closes = 0

  -- The requests that are sent without an error in an execution.
  abbrev pub requests : Pinger → List Event → ℕ
  requests s [] = 0
  requests s (e ∷ es) = (if s.running then requested s e else 0) + requests (step marshal s e).0 es

  record Turned (s : Pinger) (n : ℕ) (x : Pinger × List PingStats) : Type 0 where
    same_conn : x.0.conn ≡ s.conn
    ours : Ours (u16 s.conn.id) x.0.packets
    counted : length x.1 + length x.0.packets ≤ length s.packets + n
    ids : All (λ st. st.id ≡ u16 s.conn.id) x.1

  keep-Turned :
      (x : Option ConnError × Ping) (s : Pinger)
      → (x.0 ≡ none → x.1.id ≡ u16 s.conn.id)
      → Ours (u16 s.conn.id) s.packets
      → Turned s (accepted x.0) (keep x s, [])
  unfolding keep
  keep-Turned (some e, p) s k h = record {
    same_conn = refl;
    ours = h;
    counted = omega arith;
    ids = tt;
  }
  keep-Turned (none, p) s k h = record {
    same_conn = refl;
    ours = Ours-insert_seq (u16 s.conn.id) p.seq p s.packets (k refl) h;
    counted = omega (arith, length-insert_seq p.seq p s.packets);
    ids = tt;
  }

  answer-Turned :
      (r : Ping) (o : Option Ping) (s : Pinger)
      → lookup_seq r.seq s.packets ≡ o
      → Ours (u16 s.conn.id) s.packets
      → Turned s 0 (answer r o s)
  unfolding answer
  answer-Turned r none s e h = record {
    same_conn = refl;
    ours = h;
    counted = omega arith;
    ids = tt;
  }
  answer-Turned r (some sent) s e h =
      let id = Ours-lookup_seq (u16 s.conn.id) r.seq s.packets sent h e in
      let short = length-delete_seq_of_some r.seq s.packets sent e in
      record {
        same_conn = refl;
        ours = Ours-delete_seq (u16 s.conn.id) r.seq s.packets h;
        counted = ground arith;
        ids =
            elim s.has_stats
              as (λ t.
                All (λ (st : PingStats). st.id ≡ u16 s.conn.id)
                  (if t
                    then record { id = sent.id; send_time = sent.time; recv_time = r.time } ∷ []
                    else [])) [ true ↦ (id, tt) | false ↦ tt ];
      }

  ended-Turned :
      (s : Pinger) → Ours (u16 s.conn.id) s.packets → Turned s 0 (record s { running = false }, [])
  ended-Turned s h = record { same_conn = refl; ours = h; counted = omega arith; ids = tt }

  turn-Turned :
      (s : Pinger) (e : Event)
      → Ours (u16 s.conn.id) s.packets
      → Turned s (requested s e) (turn marshal s e)
  unfolding turn send
  turn-Turned s (timer now write) h =
      let next : Ping = record (s.packet) { seq = u16 (s.packet.seq + 1) } in
      let echo : Echo = record { id = next.id; seq = next.seq; bytes = next.bytes } in
      keep-Turned (send marshal s.conn now write next) s
        (sent-id s.conn now write (marshal s.conn.proto.message_type echo) next) h
  turn-Turned s (receives r) h = answer-Turned r (lookup_seq r.seq s.packets) s refl h
  turn-Turned s recv_closes h = ended-Turned s h
  turn-Turned s pushes h = record { same_conn = refl; ours = h; counted = omega arith; ids = tt }
  turn-Turned s config_closes h = ended-Turned s h

  step-Turned :
      (s : Pinger) (e : Event)
      → Ours (u16 s.conn.id) s.packets
      → Turned s (if s.running then requested s e else 0) (step marshal s e)
  unfolding step
  step-Turned s e h =
      elim s.running
        as (λ t.
          Turned s (if t then requested s e else 0) (if t then turn marshal s e else (s, []))) [
            | true ↦ turn-Turned s e h
            | false ↦ record { same_conn = refl; ours = h; counted = omega arith; ids = tt }
          ]

  -- Whatever responses arrive, doubled, late or foreign, a pinger whose requests in flight carry the
  -- connection's ID reports that ID alone, and at most one response for each request: those in flight
  -- at first and those that were sent without an error, less those that are still in flight.
  pub run_reports_once :
      (s : Pinger) (es : List Event)
      → Ours (u16 s.conn.id) s.packets
      → let (s', out) = run marshal s es in
        (length out + length s'.packets ≤ length s.packets + requests s es)
        × All (λ st. st.id ≡ u16 s.conn.id) out
  unfolding run
  run_reports_once s [] h = (omega arith, tt)
  run_reports_once s (e ∷ es) h =
      let w = step-Turned s e h in
      let (s', out) = step marshal s e in
      let (n, a) =
        run_reports_once s' es (subst (λ c. Ours (u16 c.id) s'.packets) (sym w.same_conn) w.ours) in
      (
        omega (arith, n, w.counted, length-append out (run marshal s' es).1),
        All-append (λ st. st.id ≡ u16 s.conn.id) out (run marshal s' es).1 w.ids
            (subst (λ c. All (λ st. st.id ≡ u16 c.id) (run marshal s' es).1) w.same_conn a),
      )
