-- ===== src/Control/Workers/Examples.antt =====
-- A worker whose statistics are in the database, and one whose statistics are not.
use close.Stats.Reader.{
  answered, ask, float_of, get_stats, over_results, read_column, read_tab, set_column, stats_of,
  tabs_of, tag, time_of,
}
use close.Stats.Reader.{key_of as row_key}
use close.Stats.Influx.{database, make_query}
use close.Prelude.{
  [], done, failed, false, if◌then◌else◌, insert, lookup, none, refl, some, str_eq, true, ◌∷◌, ◌≡◌,
}
use close.Config.Sub.Examples.{store}
use close.Control.Types.{Manager, Worker, WorkerConfig}
use close.Control.Workers.Cache.{
  Texts, WorkerCache, in_influx, index_of, key_of, not_found, parse_stats, path_series,
  query_instance, query_series, with_instance, wrapped,
}
use close.Control.Workers.Cache.Fetch.{
  fetch_stats, hot, keep_stats, parsed_stats, put_stats, stats_get, warm_stats,
}
use close.Docker.Manager.Examples.{empty_daemon}
use close.Stats.Examples.{influx_url, row_influx}
use close.Stats.Series.{SeriesStats}
use close.Control.Workers.Cache.Repeats.{missing_once, stats_get_repeats}
use close.Control.Workers.Status.{list_workers}
use close.Control.Workers.Status.Listing.{Lists, list_workers_complete}
use close.Docker.Container.{split_path}

abbrev texts : Texts
texts = record {
  parse_url = λ text. some (record {
    path = "icmp_latency/rtt";
    query = λ key. if str_eq key "instance" then text else "";
  });
  to_int64 = λ text. none;
  trim_dollar = λ text. none;
}

abbrev config : WorkerConfig
config = record {
  pointer = 1;
  name = "ping";
  count = 2;
  client = "";
  constraints = [];
  image = "ping";
  privileged = false;
  command = "";
  args = [];
  type = "icmp_ping";
  instance_flag = "";
  stats = "";
  rate_config = "";
  rate_stats = "";
  latency_stats = "ping:1";
}

abbrev ping : Worker
ping = record {
  config = some config;
  instance_name = "1";
  up = true;
  docker_id = record { class = "worker"; type = "ping"; instance_name = "1" };
  config_sub = some (record { type = "icmp_ping"; instance_name = "ping:1" });
}

abbrev eager_cache : WorkerCache empty_daemon store row_influx
eager_cache = record {
  eager = true;
  docker = record { eager = true; queries = []; statuses = []; docker = 0 };
  configs = [];
  stats = [];
  index = [];
  redis = [];
  influx = 0;
}

abbrev rtt : SeriesStats row_influx
rtt = record {
  key = record { type = "icmp_latency"; hostname = ""; instance_name = "ping:1" };
  field = "rtt";
  tab = record { time = 0; mean = "1.5"; min = "0"; max = "0"; last = "0" };
}

-- what the query of all instances leaves
abbrev full_cache : WorkerCache empty_daemon store row_influx
full_cache = record eager_cache {
  stats = ("icmp_latency/rtt?instance=ping:1", rtt) ∷ [];
  index = ("icmp_latency/rtt", true) ∷ [];
  influx = 1;
}

first_answer :
    stats_get empty_daemon store row_influx "close" texts influx_url "ping:1" ping config "ping:1"
      eager_cache
    ≡ (done (some rtt), full_cache)
unfolding stats_get parse_stats path_series query_series query_instance with_instance split_path
    parsed_stats warm_stats fetch_stats in_influx put_stats keep_stats hot key_of index_of wrapped
    get_stats make_query database ask answered over_results stats_of tabs_of row_key tag read_tab
    read_column set_column time_of float_of lookup insert
first_answer = refl

stats_get_repeats_example :
    stats_get empty_daemon store row_influx "close" texts influx_url "ping:1" ping config "ping:1"
      full_cache
    ≡ (done (some rtt), full_cache)
stats_get_repeats_example =
    stats_get_repeats empty_daemon store row_influx "close" texts influx_url "ping:1" ping config
      "ping:1" eager_cache full_cache (some rtt) first_answer

first_miss :
    stats_get empty_daemon store row_influx "close" texts influx_url "ping:2" ping config "ping:2"
      eager_cache
    ≡ (failed (not_found "icmp_latency/rtt?instance=ping:2"), full_cache)
unfolding stats_get parse_stats path_series query_series query_instance with_instance split_path
    parsed_stats warm_stats fetch_stats in_influx put_stats keep_stats hot key_of index_of wrapped
    get_stats make_query database ask answered over_results stats_of tabs_of row_key tag read_tab
    read_column set_column time_of float_of lookup insert
first_miss = refl

missing_once_example :
    stats_get empty_daemon store row_influx "close" texts influx_url "ping:2" ping config "ping:2"
      full_cache
    ≡ (done none, full_cache)
missing_once_example =
    missing_once empty_daemon store row_influx "close" texts influx_url "ping:2" ping config
      "ping:2" "icmp_latency/rtt?instance=ping:2" eager_cache full_cache first_miss refl

abbrev manager : Manager empty_daemon
manager = record {
  config_text = "";
  config = record { clients = []; workers = ("ping", config) ∷ [] };
  clients = [];
  workers = ("ping:1", ping) ∷ [];
  docker = 0;
}

list_workers_complete_example :
    Lists empty_daemon store row_influx "close" texts influx_url manager.workers
      (list_workers empty_daemon store row_influx "close" texts influx_url manager [] 0).0
list_workers_complete_example =
    list_workers_complete empty_daemon store row_influx "close" texts influx_url manager [] 0
