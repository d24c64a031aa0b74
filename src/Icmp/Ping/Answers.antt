-- ===== src/Icmp/Ping/Answers.antt =====
-- Requests that are answered, and only once.
use close.Prelude.{
  All, Bool-cases, List, Option, [], ap, arith, false, if◌then◌else◌, inl, inr, length, none, some,
  subst, sym, true, ℕ, ◌+◌, ◌<◌, ◌==◌, ◌^◌, ◌∙◌, ◌∷◌, ◌≡◌,
}
use close.Icmp.Conn.{Echo, MessageType, Ping, send, send_bytes, short_write, u16, written}
use close.Icmp.Ping.{
  Event, Pinger, answer, delete_seq, insert_seq, keep, lookup_seq, receives, run, step, timer, turn,
}
use close.Icmp.Ping.Requests.{lookup-delete_seq, lookup-insert_seq}
use close.Icmp.Ping.Waiting.{Waits, any_events, other_events, responds, run-Waits, timers}

module _ (marshal : MessageType → Echo → Option (List ℕ)) where
  running_turn : (s : Pinger) (e : Event) → s.running ≡ true → step marshal s e ≡ turn marshal s e
  unfolding step
  running_turn s e h = ap (λ b. if b then turn marshal s e else (s, [])) h

  -- the state behind a request that was sent
  abbrev sent_state : Pinger → Ping → Pinger
  sent_state s p = record s { packet = p; packets = insert_seq p.seq p s.packets }

  timer_sends :
      (s : Pinger) (now : ℕ) (write : List ℕ → Option ℕ) (wb : List ℕ)
      → s.running ≡ true
      → marshal s.conn.proto.message_type
          (record { id = s.packet.id; seq = u16 (s.packet.seq + 1); bytes = s.packet.bytes })
        ≡ some wb
      → write wb ≡ some (length wb)
      → step marshal s (timer now write) ≡ (
        sent_state s (record (s.packet) {
          time = now;
          ip = s.conn.target_ip;
          id = u16 s.conn.id;
          seq = u16 (s.packet.seq + 1);
        }),
        [],
      )
  unfolding turn send send_bytes keep written
  timer_sends s now write wb e1 e3 e4 =
      let next : Ping = record (s.packet) { seq = u16 (s.packet.seq + 1) } in
      let sent : Ping = record next { time = now; ip = s.conn.target_ip; id = u16 s.conn.id } in
      let same : (length wb == length wb) ≡ true = ground arith in
      running_turn s (timer now write) e1
      ∙ ap (λ o. (keep (send_bytes s.conn now write o next) s, [])) e3
      ∙ ap (λ o. (keep (written (length wb) o, sent) s, [])) e4
      ∙ ap (λ b. (keep (if b then none else some short_write, sent) s, [])) same

  -- a response to a request in flight, and one to none
  response_reported :
      (s : Pinger) (r sent : Ping)
      → s.running ≡ true
      → s.has_stats ≡ true
      → lookup_seq r.seq s.packets ≡ some sent
      → step marshal s (receives r) ≡ (
        record s { packets = delete_seq r.seq s.packets },
        record { id = sent.id; send_time = sent.time; recv_time = r.time } ∷ [],
      )
  unfolding turn answer
  response_reported s r sent e1 e2 e =
      running_turn s (receives r) e1
      ∙ ap (λ o. answer r o s) e
      ∙ ap
          (λ b. (
            record s { packets = delete_seq r.seq s.packets },
            if b
                then record { id = sent.id; send_time = sent.time; recv_time = r.time } ∷ []
                else [],
          ))
          e2

  response_ignored :
      (s : Pinger) (r : Ping)
      → lookup_seq r.seq s.packets ≡ none
      → step marshal s (receives r) ≡ (s, [])
  unfolding step turn answer
  response_ignored s r e = elim (Bool-cases s.running) [
    | inl t ↦ running_turn s (receives r) t ∙ ap (λ o. answer r o s) e
    | inr t ↦ ap (λ b. if b then turn marshal s (receives r) else (s, [])) t
  ]

  -- A request that was sent is reported with its own times at the first response with its number,
  -- whatever else happens in between but such a response, if the pinger still runs then and its timer
  -- turns less than 2 ^ 16 times, so that the number is not used again; and a second response with the
  -- number is not reported, whatever is between the two.
  pub request_answered :
      (s : Pinger) (now : ℕ) (write : List ℕ → Option ℕ) (wb : List ℕ) (es es' : List Event)
      (r r' : Ping)
      → s.running ≡ true
      → s.has_stats ≡ true
      → marshal s.conn.proto.message_type
          (record { id = s.packet.id; seq = u16 (s.packet.seq + 1); bytes = s.packet.bytes })
        ≡ some wb
      → write wb ≡ some (length wb)
      → r.seq ≡ u16 (s.packet.seq + 1)
      → r'.seq ≡ u16 (s.packet.seq + 1)
      → All (λ e. responds (u16 (s.packet.seq + 1)) e ≡ false) es
      → timers es + timers es' < 2 ^ 16
      → (run marshal s (timer now write ∷ es)).0.running ≡ true
      → let waiting = (run marshal s (timer now write ∷ es)).0 in
        let (answered, out) = step marshal waiting (receives r) in
        (out ≡ record { id = u16 s.conn.id; send_time = now; recv_time = r.time } ∷ [])
        × ((step marshal (run marshal answered es').0 (receives r')).1 ≡ [])
  unfolding run
  request_answered s now write wb es es' r r' e1 e2 e3 e4 e5 e6 quiet few live =
      let k = u16 (s.packet.seq + 1) in
      let sent : Ping = record (s.packet) {
        time = now;
        ip = s.conn.target_ip;
        id = u16 s.conn.id;
        seq = u16 (s.packet.seq + 1);
      } in
      let lk : k < 2 ^ 16 = omega arith in
      let first = timer_sends s now write wb e1 e3 e4 in
      let s1 = (step marshal s (timer now write)).0 in
      let w0 : Waits marshal k 0 (some sent) (sent_state s sent) = record {
        found = lookup-insert_seq k k sent s.packets ∙ ground arith;
        behind = omega arith;
        reports = e2;
      } in
      let w1 : Waits marshal k 0 (some sent) s1 =
        subst (Waits marshal k 0 (some sent)) (sym (ap (λ x. x.0) first)) w0 in
      let (j, lj, w2) =
        run-Waits marshal k 0 (some sent) s1 es lk (omega arith)
          (other_events marshal k (some sent) es quiet) w1 in
      let s2 = (run marshal s1 es).0 in
      let second =
        response_reported s2 r sent live w2.reports
          (ap (λ i. lookup_seq i s2.packets) e5 ∙ w2.found) in
      let w3 : Waits marshal k j none (record s2 { packets = delete_seq r.seq s2.packets }) =
        record {
          found = lookup-delete_seq r.seq k s2.packets ∙ ground (arith, e5);
          behind = w2.behind;
          reports = w2.reports;
        } in
      let s3 = (step marshal s2 (receives r)).0 in
      let w4 : Waits marshal k j none s3 =
        subst (Waits marshal k j none) (sym (ap (λ x. x.0) second)) w3 in
      let (m, lm, w5) =
        run-Waits marshal k j none s3 es' lk (omega arith) (any_events marshal k es') w4 in
      let s4 = (run marshal s3 es').0 in
      (
        ap (λ x. x.1) second,
        ap (λ x. x.1) (response_ignored s4 r' (ap (λ i. lookup_seq i s4.packets) e6 ∙ w5.found)),
      )
