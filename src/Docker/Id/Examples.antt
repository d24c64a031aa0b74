-- ===== src/Docker/Id/Examples.antt =====
-- The identity of a worker's container.
use close.Prelude.{arith, eq_iff, false≢true, ok, ◌≡◌, ◌⧺◌}
use close.Docker.Id.{ContainerId, id_string, labels, parse_id}
use close.Docker.Id.Parsing.{parse_id-labels}

abbrev ping : ContainerId
ping = record { class = "worker"; type = "ping"; instance_name = "1" }

parse_id-labels_example : parse_id ("node" ⧺ ("/" ⧺ id_string ping)) (labels ping) ≡ ok ping
unfolding id_string
parse_id-labels_example =
    parse_id-labels "node" ping (λ e. false≢true ((eq_iff "worker" "").1 e))
      (λ e. false≢true ((eq_iff "ping" "").1 e)) (λ e. false≢true ((eq_iff "1" "").1 e))
      (ground arith)
