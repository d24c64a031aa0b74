-- ===== src/Udp/Measure/Exact.antt =====
-- What the reports say of a network is what it did.
use close.Prelude.{
  All, List, [], ap, arith, length, lt→ltb, refl, subst, sym, true, ℕ, ◌+◌, ◌-◌, ◌<◌, ◌^◌, ◌∙◌, ◌∷◌,
  ◌≡◌,
}
use close.Udp.Measure.{
  Arrives, Delivers, brought, ends, brings, loses, lost, repeated, repeats, waits,
}
use close.Udp.Measure.Counts.{Arrives-payload, Consecutive-suc, duplicates, received, serve_counts}
use close.Udp.Recv.{
  Event, Packet, RecvState, RecvStats, alive, handle_packet, make_state, on_packet, on_tick, packet,
  run, same_id, step, take_stats,
}
use close.Udp.Recv.Accounting.{InRange, make_state-IsAccounted}
use close.Udp.Recv.Intervals.{serve, serve_total, total}
use close.Udp.Send as Send
use close.Udp.Send.{Sent}
use close.Udp.Send.Sequence.{Consecutive, run-Consecutive}

-- the sum over the reports
abbrev pub skipped : List RecvStats → ℕ
skipped [] = 0
skipped (s ∷ ss) = s.packet_skips + skipped ss

-- A report on an interval in which a packet came in order.
abbrev pub IsLive : RecvStats → Type 0
IsLive s = s.packet_start < s.packet_seq

same_id_refl : (i : List ℕ) → same_id i i ≡ true
unfolding same_id
same_id_refl [] = refl
same_id_refl (a ∷ as') = ground (arith, same_id_refl as')

same_id-eq : {i j id : List ℕ} → i ≡ id → j ≡ id → same_id i j ≡ true
same_id-eq {i} {j} p q = subst (λ k. same_id i k ≡ true) (p ∙ sym q) (same_id_refl i)

handle_id : (now : ℕ) (q : Packet) (r : RecvState) → (handle_packet now q r).id ≡ r.id
unfolding handle_packet
handle_id now q r = ground arith

-- The map of a receiver that hears of one sender holds one state, while every interval brings a packet.
on_packet-one :
    (now : ℕ) (q : Packet) (r : RecvState)
    → same_id r.id q.payload.id ≡ true
    → on_packet now q (r ∷ []) ≡ handle_packet now q r ∷ []
unfolding on_packet
on_packet-one now q r e = rw e

on_tick-one :
    (now : ℕ) (r : RecvState)
    → IsLive (take_stats now r).0
    → on_tick now (r ∷ []) ≡ ((take_stats now r).1 ∷ [], (take_stats now r).0 ∷ [])
unfolding on_tick alive take_stats
on_tick-one now r l = rw (lt→ltb r.stats.packet_start r.stats.packet_seq l)

received-covered : (ss : List RecvStats) → received ss + skipped ss ≡ total ss
received-covered [] = refl
received-covered (s ∷ ss) = omega (arith, received-covered ss)

module _ {id : List ℕ} (eight : length id ≡ 8) where
  run-serve :
      (r : RecvState) {last m : ℕ} {ps : List Sent} {es : List Event} (d : Delivers id last ps es)
      → r.id ≡ id
      → last < m
      → m + length ps < 2 ^ 64
      → Consecutive id m ps
      → All IsLive (serve r es).1
      → (run (r ∷ []) es ≡ ((serve r es).0 ∷ [], (serve r es).1)) × All InRange es
  unfolding run step serve take_stats
  run-serve r ends i g b c l = (refl, tt)
  run-serve r {m} (loses {ps} d) i g b c l =
      run-serve r {m = m + 1} d i (omega arith) (omega arith)
        (Consecutive-suc id m ps (omega arith) c.2) l
  run-serve r {m} (brings {p} {ps} now q h d) i g b c l =
      let same = Arrives-payload p q h eight (omega arith) c.0 c.1 in
      let seq : q.payload.seq ≡ m = ap (λ x. x.seq) same ∙ c.1 in
      let (e, k) =
        run-serve (handle_packet now q r) {m = m + 1} d (handle_id now q r ∙ i) (omega arith)
          (omega arith) (Consecutive-suc id m ps (omega arith) c.2) l in
      (
        rw (on_packet-one now q r (same_id-eq i (ap (λ x. x.id) same ∙ c.0)), e) refl,
        (omega arith, k),
      )
  run-serve r (repeats now q j h d) i g b c l =
      let (e, k) = run-serve (handle_packet now q r) d (handle_id now q r ∙ i) g b c l in
      (rw (on_packet-one now q r (same_id-eq i j), e) refl, (omega arith, k))
  run-serve r (waits now d) i g b c l =
      let (e, k) = run-serve (take_stats now r).1 d i g b c l.1 in
      (rw (on_tick-one now r l.0, e) refl, (tt, k))

brought-lost :
    {id : List ℕ} {last : ℕ} {ps : List Sent} {es : List Event} (d : Delivers id last ps es)
    → brought d + lost d ≡ length ps
brought-lost ends = refl
brought-lost (loses d) = omega (arith, brought-lost d)
brought-lost (brings now q h d) = omega (arith, brought-lost d)
brought-lost (repeats now q i h d) = brought-lost d
brought-lost (waits now d) = brought-lost d

make_starts :
    (now : ℕ) (q : Packet)
    → let r = make_state now q in
      (r.id ≡ q.payload.id)
      × (r.seq ≡ q.payload.seq)
      × (r.stats.packet_start ≡ q.payload.seq)
      × (r.stats.packet_count ≡ 0)
      × (r.stats.packet_dups ≡ 0)
unfolding make_state
make_starts now q = (refl, refl, refl, refl, refl)

-- What `run` does with the first packet of a sender.
run-first :
    (now : ℕ) (q : Packet) (es : List Event)
    → run [] (packet now q ∷ es) ≡ run (make_state now q ∷ []) es
unfolding run step on_packet
run-first now q es = refl

-- The reports of a receiver say what the network did to a sender's packets, whatever the sender's
-- execution, when the network loses some, brings others in order, and brings any again or late.
-- The conditions are: the ID has eight bytes, the sequence numbers and the events stay below 2 ^
-- 64, the first packet arrives, and in every interval that ends a packet comes in order. Then the
-- packets received are those that came in order, the duplicates those that came again or late, and
-- the packets skipped, with those after the last one that came, are the others.
pub measured :
    (s : Send.Send) (turns : List Send.Event) {first : Sent} {rest : List Sent} (now : ℕ)
    (q : Packet) {es : List Event}
    → length s.id ≡ 8
    → (Send.run s turns).1 ≡ first ∷ rest
    → s.seq + length rest + 1 < 2 ^ 64
    → length es < 2 ^ 64
    → Arrives first q
    → (d : Delivers s.id s.seq rest es) → All IsLive (serve (make_state now q) es).1
    → let (r, out) = serve (make_state now q) es in
      (run [] (packet now q ∷ es) ≡ (r ∷ [], out))
      × (received out + r.stats.packet_count ≡ brought d)
      × (duplicates out + r.stats.packet_dups ≡ repeated d)
      × ((after : ℕ) × (r.seq + after ≡ s.seq + length rest)
          × (skipped out + r.stats.packet_skips + after ≡ lost d))
measured s turns {first} {rest} now q {es} eight sent range few a d live =
    let c : Consecutive s.id s.seq (first ∷ rest) =
      subst (λ ps. Consecutive s.id s.seq ps) sent (run-Consecutive s turns) in
    let same = Arrives-payload first q a eight (omega arith) c.0 c.1 in
    let seq : q.payload.seq ≡ s.seq = ap (λ x. x.seq) same ∙ c.1 in
    let r = make_state now q in
    let (i, e, start, none', no_dups) = make_starts now q in
    let rest_c = Consecutive-suc s.id s.seq rest (omega arith) c.2 in
    let acc = make_state-IsAccounted now q (omega arith) in
    let (runs, in_range) =
      run-serve eight r {m = s.seq + 1} d (i ∙ ap (λ x. x.id) same ∙ c.0) (omega arith)
        (omega arith) rest_c live in
    let (k, u, b) =
      serve_counts eight r {m = s.seq + 1} d (e ∙ seq) (omega arith) (omega arith) rest_c acc
        (omega arith) in
    let (t, g) = serve_total r es acc in_range in
    (
      run-first now q es ∙ runs,
      omega arith,
      omega arith,
      (
        s.seq + length rest - (serve r es).0.seq,
        omega arith,
        omega (arith, brought-lost d, received-covered (serve r es).1),
      ),
    )
