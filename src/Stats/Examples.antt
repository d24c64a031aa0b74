-- ===== src/Stats/Examples.antt =====
-- A database that answers each query with one row.
use close.Prelude.{List, String, [], false, json_number, json_text, length, some, ℕ, ◌+◌, ◌∷◌, ◌≤◌}
use close.Stats.Influx.{Influx, InfluxUrl, Response, Row}
use close.Stats.Writer.Pacing as Pacing
use close.Stats.Writer.Pacing.{Turn, new_pacer, offers, run_paced, tick_count, ticks}

abbrev one_row : Row
one_row = record {
  name = "icmp_latency";
  tags = ("instance", "ping:1") ∷ [];
  columns = "time" ∷ "mean" ∷ [];
  values = (json_text "now" ∷ json_number "1.5" ∷ []) ∷ [];
}

abbrev one_response : Response
one_response = record { has_error = false; results = (one_row ∷ []) ∷ [] }

abbrev pub row_influx : Influx
row_influx = record {
  State = ℕ;
  query = λ q s. (some one_response, s + 1);
  Float = String;
  zero_float = "0";
  to_float = λ text. some text;
  parse_time = λ text. some 0;
  seconds_text = λ duration. "10";
}

abbrev pub influx_url : InfluxUrl
influx_url = record { scheme = "http"; host = "influx"; path = "" }

-- Four statistics are offered, and two ticks come.
abbrev offered : Turn ℕ
offered = offers (record {
  stats_id = record { type = "udp_recv"; hostname = ""; instance_name = "" };
  stats_time = 0;
  stats_fields = 0;
})

abbrev turns : List (Turn ℕ)
turns = offered ∷ offered ∷ ticks ∷ offered ∷ ticks ∷ offered ∷ []

run_paced_example : length (Pacing.run new_pacer turns).1 ≤ tick_count turns + 1
run_paced_example = run_paced turns
