-- ===== src/Docker/Info/Examples.antt =====
-- The text of a swarm of one node.
use close.Prelude.{List, String, [], none, some, ℕ, ◌∷◌}
use close.Docker.Info.{Scans, decode_swarm_status, line_of, strip_prefix}
use close.Docker.Info.Nodes.{Gives, decode_swarm_status_lem}

abbrev scans : Scans
scans = record {
  Int = ℕ;
  zero_int = 0;
  Float = String;
  zero_float = "0";
  trim_space = λ text. text;
  scan_int = λ text. some 1;
  scan_cpus = λ text. (some 0, some 2);
  scan_memory = λ text. ((some "0", some "B"), (some "1", some "GiB"));
  find_labels = λ text. [];
  parse_time = λ text. none;
}

abbrev lines : List (String × String)
lines = ("Role", "primary") ∷ (" node1", "10.0.0.1:2375") ∷ ("  └ Status", "Healthy") ∷ []

decode_swarm_status_lem_example :
    Gives scans ((" node1", "10.0.0.1:2375") ∷ []) (decode_swarm_status scans lines)
unfolding line_of strip_prefix
decode_swarm_status_lem_example = decode_swarm_status_lem scans lines tt
