-- ===== src/Polls/Examples.antt =====
-- Two queries, of which the second is answered first.
use close.Prelude.{List, Option, [], false, none, some, ℕ, ◌+◌, ◌∷◌, ◌≡◌}
use close.Polls.{Event, Running, answers, receives, ticks}
use close.Polls.Conservation.{tally, waiting}
use close.Polls.Dns as Dns
use close.Polls.Dns.{DnsQuery, DnsWorker, generate_query, stats_writer}
use close.Polls.Reports.{dns_reports_each, started_at}

abbrev worker : DnsWorker
worker = record {
  config = record {
    network = "udp";
    timeout = 2;
    server = "ns";
    interval = 1;
    query_type = "A";
    query_name = "www.google.com";
  };
  server = "ns:53";
  query_type = 1;
  query_name = "www.google.com.";
  reports = false;
}

abbrev idle : Running DnsQuery (Option (ℕ × ℕ))
idle = record { started = []; finished = [] }

abbrev events : List (Event DnsQuery (Option (ℕ × ℕ)))
events = ticks 1 ∷ ticks 2 ∷ answers 1 (some (3, 7)) ∷ receives 0 ∷ answers 0 none ∷ []

dns_reports_each_example :
    tally (started_at 2) (Dns.run (stats_writer worker) idle events).1
      + waiting (started_at 2) (Dns.run (stats_writer worker) idle events).0
    ≡ 1
unfolding Dns.generate_query
dns_reports_each_example = dns_reports_each worker idle events 2
