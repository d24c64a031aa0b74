-- ===== src/Udp/Measure/Counts.antt =====
-- What the receiver counts of the packets that a network brings.
use close.Prelude.{
  List, [], ap, arith, ok, length, refl, subst, sym, u64, ℕ, ◌+◌, ◌<◌, ◌^◌, ◌∙◌, ◌∷◌, ◌≡◌, ◌≤◌,
}
use close.Udp.Measure.{Arrives, Delivers, brought, ends, brings, loses, repeated, repeats, waits}
use close.Udp.Payload.{IsPayload}
use close.Udp.Payload.RoundTrip.{unpack-pack}
use close.Udp.Recv.{Event, Packet, RecvState, RecvStats, handle_packet, take_stats}
use close.Udp.Recv.Accounting.{IsAccounted, handle_packet-IsAccounted, take_stats-IsAccounted}
use close.Udp.Recv.Intervals.{serve}
use close.Udp.Send.{Sent}
use close.Udp.Send.Sequence.{Consecutive}

-- the sums over the reports
abbrev pub received : List RecvStats → ℕ
received [] = 0
received (s ∷ ss) = s.packet_count + received ss

abbrev pub duplicates : List RecvStats → ℕ
duplicates [] = 0
duplicates (s ∷ ss) = s.packet_dups + duplicates ss

-- A packet that arrives carries what was sent.
pub Arrives-payload :
    {id : List ℕ} {m : ℕ} (p : Sent) (q : Packet)
    → Arrives p q
    → length id ≡ 8
    → m < 2 ^ 64
    → p.payload.id ≡ id
    → p.payload.seq ≡ m
    → q.payload ≡ p.payload
Arrives-payload p q a l h i e =
    let v : IsPayload p.payload = record { id_length = ap length i ∙ l; seq_range = omega arith } in
    let same : ok p.payload ≡ ok q.payload = sym (unpack-pack p.payload p.size v) ∙ a in cc

handle_new :
    (now : ℕ) (q : Packet) (r : RecvState)
    → r.seq < q.payload.seq
    → q.payload.seq < 2 ^ 64
    → IsAccounted r
    → ((handle_packet now q r).seq ≡ q.payload.seq)
      × ((handle_packet now q r).stats.packet_count ≡ r.stats.packet_count + 1)
      × ((handle_packet now q r).stats.packet_dups ≡ r.stats.packet_dups)
unfolding handle_packet
handle_new now q r h b a = ground arith

handle_old :
    (now : ℕ) (q : Packet) (r : RecvState)
    → q.payload.seq ≤ r.seq
    → r.stats.packet_dups + 1 < 2 ^ 64
    → ((handle_packet now q r).seq ≡ r.seq)
      × ((handle_packet now q r).stats.packet_count ≡ r.stats.packet_count)
      × ((handle_packet now q r).stats.packet_dups ≡ r.stats.packet_dups + 1)
unfolding handle_packet
handle_old now q r h b = ground arith

take_counts :
    (now : ℕ) (r : RecvState)
    → let (s, r') = take_stats now r in
      (r'.seq ≡ r.seq)
      × (s.packet_count ≡ r.stats.packet_count)
      × (s.packet_dups ≡ r.stats.packet_dups)
      × (r'.stats.packet_count ≡ 0)
      × (r'.stats.packet_dups ≡ 0)
unfolding take_stats
take_counts now r = (refl, refl, refl, refl, refl)

pub Consecutive-suc :
    (id : List ℕ) (m : ℕ) (ps : List Sent)
    → m + 1 < 2 ^ 64
    → Consecutive id (u64 (m + 1)) ps
    → Consecutive id (m + 1) ps
Consecutive-suc id m ps h c =
    let same : u64 (m + 1) ≡ m + 1 = omega arith in subst (λ n. Consecutive id n ps) same c

module _ {id : List ℕ} (eight : length id ≡ 8) where
  -- The packets that came in order and those that came again are counted as such, and the last one is
  -- one that was sent.
  pub serve_counts :
      (r : RecvState) {last m : ℕ} {ps : List Sent} {es : List Event} (d : Delivers id last ps es)
      → r.seq ≡ last
      → last < m
      → m + length ps < 2 ^ 64
      → Consecutive id m ps
      → IsAccounted r
      → r.stats.packet_dups + length es < 2 ^ 64
      → let (r', out) = serve r es in
        (received out + r'.stats.packet_count ≡ r.stats.packet_count + brought d)
        × (duplicates out + r'.stats.packet_dups ≡ r.stats.packet_dups + repeated d)
        × (r'.seq < m + length ps)
  unfolding serve
  serve_counts r ends e l b c a n = ground arith
  serve_counts r {m} (loses {ps} d) e l b c a n = ground (
    arith,
    serve_counts r {m = m + 1} d e (omega arith) (omega arith)
        (Consecutive-suc id m ps (omega arith) c.2) a n,
  )
  serve_counts r {m} (brings {p} {ps} now q h d) e l b c a n =
      let same = Arrives-payload p q h eight (omega arith) c.0 c.1 in
      let seq : q.payload.seq ≡ m = ap (λ x. x.seq) same ∙ c.1 in
      let (s, k, u) = handle_new now q r (omega arith) (omega arith) a in
      ground (
        arith,
        serve_counts (handle_packet now q r) {m = m + 1} d (s ∙ ap (λ x. x.seq) same) (omega arith)
            (omega arith) (Consecutive-suc id m ps (omega arith) c.2)
            (handle_packet-IsAccounted now q r (omega arith) a) (omega arith),
      )
  serve_counts r (repeats now q i h d) e l b c a n =
      let (s, k, u) = handle_old now q r (omega arith) (omega arith) in
      ground (
        arith,
        serve_counts (handle_packet now q r) d (s ∙ e) l b c
            (handle_packet-IsAccounted now q r (omega (arith, a.seq_range)) a) (omega arith),
      )
  serve_counts r (waits now d) e l b c a n =
      let (s, k, u, k', u') = take_counts now r in
      ground (
        arith,
        serve_counts (take_stats now r).1 d (s ∙ e) l b c (take_stats-IsAccounted now r a)
            (omega arith),
      )
