-- ===== src/Udp/Recv/Fields.antt =====
-- udp/recv.go: what a report is written as. Division of floating point numbers is a parameter.
use close.Prelude.{
  All, ap, Assoc, List, [], arith, if◌then◌else◌, insert, lookup, some, sub64, ℕ, ◌+◌, ◌-◌, ◌<◌,
  ◌∷◌, ◌≡◌,
}
use close.Stats.Series.{StatsId}
use close.Udp.Payload.Hex.{id_string}
use close.Udp.Recv.{Event, RecvStats, run, valid}
use close.Udp.Recv.Accounting.{InRange, IsReport, run_reports}

-- `StatsID`
unfoldable pub stats_id : RecvStats → StatsId
unfolding id_string
stats_id s = record { type = "udp_recv"; hostname = ""; instance_name = id_string s.id }

-- `StatsTime`
unfoldable pub stats_time : RecvStats → ℕ
stats_time s = s.time

-- `interface{}` of a field
pub data FieldValue (Float : Type 0) : Type 0 where
  uint : ℕ → FieldValue Float
  float : Float → FieldValue Float

-- `float64(a) / float64(b)`
module _ {Float : Type 0} (ratio : ℕ → ℕ → Float) where
  -- `PacketWin`
  unfoldable pub packet_win : RecvStats → Float
  packet_win s = ratio s.packet_count (sub64 s.packet_seq s.packet_start)

  -- `PacketLoss`
  unfoldable pub packet_loss : RecvStats → Float
  packet_loss s = ratio s.packet_skips (sub64 s.packet_seq s.packet_start)

  counts : RecvStats → Assoc (FieldValue Float)
  counts s =
      ("packet_errors", uint s.packet_errors)
      ∷ ("packets", uint s.packet_count)
      ∷ ("packet_skips", uint s.packet_skips)
      ∷ ("packet_dups", uint s.packet_dups)
      ∷ []

  -- `StatsFields`
  unfoldable pub stats_fields : RecvStats → Assoc (FieldValue Float)
  unfolding counts packet_win packet_loss insert
  stats_fields s =
      if valid s
      then insert "packet_loss" (float (packet_loss s))
          (insert "packet_win" (float (packet_win s)) (counts s))
      else counts s

  -- What is written of a report: the two ratios, over a number of packets that is not 0 and that is the
  -- sum of those received and those skipped.
  pub record HasRatios (s : RecvStats) : Type 0 where
    pub offset : ℕ
    pub offset_pos : 0 < offset
    pub offset_sum : s.packet_count + s.packet_skips ≡ offset
    pub win : lookup "packet_win" (stats_fields s) ≡ some (float (ratio s.packet_count offset))
    pub loss : lookup "packet_loss" (stats_fields s) ≡ some (float (ratio s.packet_skips offset))

  report-HasRatios : (s : RecvStats) → IsReport s → HasRatios s
  unfolding stats_fields packet_win packet_loss counts insert lookup
  report-HasRatios s r =
      let offset = s.packet_seq - s.packet_start in
      let same : sub64 s.packet_seq s.packet_start ≡ offset =
        omega (arith, r.seq_range, r.offset_pos) in
      record {
        offset = offset;
        offset_pos = omega (arith, r.offset_pos);
        offset_sum = r.total;
        win = rw r.is_valid (ap (λ n. some (float (ratio s.packet_count n))) same);
        loss = rw r.is_valid (ap (λ n. some (float (ratio s.packet_skips n))) same);
      }

  All-HasRatios : (ss : List RecvStats) → All IsReport ss → All HasRatios ss
  All-HasRatios [] h = tt
  All-HasRatios (s ∷ ss) (r, h) = (report-HasRatios s r, All-HasRatios ss h)

  -- Every report of a receiver is written with both ratios, and none of them divides by 0: the
  -- number of packets under them is that of the packets received and of those skipped, over any
  -- sequence of intervals and of packets with 64-bit sequence numbers.
  pub run-HasRatios : (es : List Event) → All InRange es → All HasRatios (run [] es).1
  run-HasRatios es h = All-HasRatios (run [] es).1 (run_reports es h)
