-- ===== src/Polls/Dns.antt =====
-- dns/worker.go: a worker that asks a name server. Package dns, which is not part of the repository,
-- and the functions of package net on addresses are parameters; times are numbers.
use close.Prelude.{
  Bool, List, Option, Result, String, err, false, if◌then◌else◌, none, not, ok, some, str_eq, true,
  ℕ, ◌&&◌,
}
use close.Polls.{Event, Running, run as run_polls}

pub record DnsConfig : Type 0 where
  pub network : String
  pub timeout : ℕ
  pub server : String
  pub interval : ℕ
  pub query_type : String
  pub query_name : String

pub record DnsQuery : Type 0 where
  pub server : String
  pub query_name : String  -- the question of msg
  pub query_type : ℕ
  pub answer_count : ℕ  -- len(msg.Answer)
  pub start : ℕ
  pub rtt : ℕ
  pub has_error : Bool

pub record DnsWorker : Type 0 where
  pub config : DnsConfig
  pub server : String
  pub query_type : ℕ
  pub query_name : String
  pub reports : Bool  -- statsChan is not nil

pub record DnsLibrary : Type 0 where
  pub split_host_port : String → Option (String × String)  -- none for an error
  pub join_host_port : String → String → String
  pub string_to_type : String → Option ℕ  -- of the text in upper case
  pub fqdn : String → String

pub data DnsError : Type 0 where
  invalid_server invalid_type invalid_name : DnsError

module _ (l : DnsLibrary) where
  -- the server's address, with the port 53 unless it has a host and a port
  unfoldable pub server_address : String → Option (String × String) → String
  server_address text none = l.join_host_port text "53"
  server_address text (some (host, port)) =
      if not (str_eq host "") && not (str_eq port "")
      then l.join_host_port host port
      else l.join_host_port text "53"

  unfoldable pub typed : DnsConfig → Option ℕ → Result {0, 0} DnsError DnsWorker
  unfolding server_address
  typed config none = err invalid_type
  typed config (some t) =
      if str_eq config.query_name ""
      then err invalid_name
      else ok (record {
        config = config;
        server = server_address config.server (l.split_host_port config.server);
        query_type = t;
        query_name = l.fqdn config.query_name;
        reports = false;
      })

  -- `Config.Worker`, with `apply`
  unfoldable pub apply : DnsConfig → Result {0, 0} DnsError DnsWorker
  unfolding typed
  apply config =
      if str_eq config.server ""
      then err invalid_server
      else typed config (l.string_to_type config.query_type)

-- `StatsWriter`
unfoldable pub stats_writer : DnsWorker → DnsWorker
stats_writer w = record w { reports = true }

-- `generateQuery`, at the time of a tick
unfoldable pub generate_query : DnsWorker → ℕ → DnsQuery
generate_query w tick = record {
  server = w.server;
  query_name = w.query_name;
  query_type = w.query_type;
  answer_count = 0;
  start = tick;
  rtt = 0;
  has_error = false;
}

-- `query`, on the number of answers and the time that `Exchange` returns, none for an error
unfoldable pub exchanged : Option (ℕ × ℕ) → DnsQuery → DnsQuery
exchanged none q = record q { has_error = true }
exchanged (some (count, rtt)) q = record q { answer_count = count; rtt = rtt }

-- `Errors`
unfoldable pub errors : DnsQuery → ℕ
errors q = if q.has_error then 1 else 0

-- `Run`
unfoldable pub run :
    DnsWorker
    → Running DnsQuery (Option (ℕ × ℕ))
    → List (Event DnsQuery (Option (ℕ × ℕ)))
    → Running DnsQuery (Option (ℕ × ℕ)) × List DnsQuery
unfolding generate_query exchanged
run w = run_polls (generate_query w) exchanged w.reports
