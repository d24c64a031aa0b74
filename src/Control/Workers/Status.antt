-- ===== src/Control/Workers/Status.antt =====
-- control/worker.go: the statuses of workers. The text of an error, which is only shown, stays the
-- error; `docker_status` is empty with one.
pub mod Listing
use close.Prelude.{
  Assoc, Bool, Exec, List, Option, Outcome, Result, String, Value, [], attempt, done, err, false,
  if◌then◌else◌, lookup, none, not, ok, pure, some, true, ℕ, ◌>>=◌, ◌>>◌, ◌∷◌, ◌⧺◌,
}
use close.Docker.Container.{Container, ContainerStatus, State, is_error, is_up}
use close.Docker.Id.{id_string}
use close.Config.Redis.{sub_path, check as check_redis}
use close.Control.Types.{Manager, Worker, WorkerConfig, docker, worker_string}
use close.Stats.Series.{SeriesKey, SeriesStats, no_key}
use close.Control.Workers.Cache.{
  CacheError, Texts, WorkerCache, config_get, config_get_rate, in_docker, in_redis, make_cache,
  stats_meta,
}
use close.Control.Workers.Cache.Fetch.{stats_get}
use close.Config.Id.{ConfigId}
use close.Config.Sub.{Redis}
use close.Docker.Daemon.{Daemon}
use close.Stats.Influx.{Influx, InfluxUrl}
use close.Docker.Cache.{get_container, get_status as cached_status}

pub data WorkerState : Type 0 where
  state_down state_unknown state_wait state_up state_error : WorkerState

module _ (i : Influx) where
  pub record WorkerStatus : Type 0 where
    pub config : String
    pub instance_name : String
    pub worker_config : Option WorkerConfig  -- detail
    pub container_name : String  -- Docker
    pub docker_status : String
    pub docker_node : String
    pub docker_container : Option Container  -- detail
    pub up : Bool
    pub state : WorkerState
    pub config_instance : String
    pub config_error : Option CacheError
    pub config_ttl : ℕ  -- in nanoseconds
    pub config_map : Option (Assoc Value)  -- detail
    pub stats_series : SeriesKey  -- StatsMeta
    pub rate : ℕ  -- RateConfig
    pub rate_stats : Option (SeriesStats i)
    pub latency_stats : Option (SeriesStats i)

  -- the status before any question
  unfoldable pub first_status : Worker → WorkerStatus
  first_status worker = record {
    config = "";
    instance_name = worker.instance_name;
    worker_config = none;
    container_name = "";
    docker_status = "";
    docker_node = "";
    docker_container = none;
    up = worker.up;
    state = state_down;
    config_instance = "";
    config_error = none;
    config_ttl = 0;
    config_map = none;
    stats_series = no_key;
    rate = 0;
    rate_stats = none;
    latency_stats = none;
  }

  unfoldable pub state_of : ContainerStatus → WorkerState
  state_of s = if is_up s then state_up else if is_error s then state_error else state_down

  -- the answer of the cache of containers
  unfoldable pub with_container :
      Worker → Result {0, 0} CacheError (Option ContainerStatus) → WorkerStatus → WorkerStatus
  unfolding state_of
  with_container worker (err e) w = record w {
    container_name = id_string worker.docker_id;
    state = state_error;
  }
  with_container worker (ok none) w = w
  with_container worker (ok (some s)) w = record w {
    container_name = id_string s.id;
    docker_status = s.status;
    docker_node = s.node;
    state = state_of s;
  }

  unfoldable pub waits : WorkerState → WorkerState
  waits state_up = state_wait
  waits state_wait = state_wait
  waits state_down = state_down
  waits state_unknown = state_unknown
  waits state_error = state_error

  -- the TTL of the registration
  unfoldable pub with_ttl : Worker → Result {0, 0} CacheError ℕ → WorkerStatus → WorkerStatus
  unfolding waits
  with_ttl worker (err e) w = record w { state = waits w.state }
  with_ttl worker (ok ttl) w = record w { config_instance = worker_string worker; config_ttl = ttl }

  unfoldable pub with_rate : Result {0, 0} CacheError ℕ → WorkerStatus → WorkerStatus
  with_rate (err e) w = record w { config_error = some e }
  with_rate (ok n) w = record w { rate = n }

  unfoldable pub with_series : SeriesKey × Option CacheError → WorkerStatus → WorkerStatus
  with_series (key, none) w = record w { stats_series = key }
  with_series (key, some e) w = record w { stats_series = key; config_error = some e }

  unfoldable pub with_rate_stats :
      Result {0, 0} CacheError (Option (SeriesStats i)) → WorkerStatus → WorkerStatus
  with_rate_stats (err e) w = record w { config_error = some e }
  with_rate_stats (ok s) w = record w { rate_stats = s }

  unfoldable pub with_latency_stats :
      Result {0, 0} CacheError (Option (SeriesStats i)) → WorkerStatus → WorkerStatus
  with_latency_stats (err e) w = record w { config_error = some e }
  with_latency_stats (ok s) w = record w { latency_stats = s }

module _ (d : Daemon) (r : Redis) (i : Influx) (prefix : String) (t : Texts) (u : InfluxUrl) where
  -- the checks of the registration, if the worker has one
  unfoldable pub check_sub :
      Worker
      → Option ConfigId
      → WorkerStatus i
      → Exec (WorkerCache d r i) CacheError (WorkerStatus i)
  unfolding in_redis with_ttl
  check_sub worker none w = pure w
  check_sub worker (some sub) w = do
    ttl ← attempt (in_redis d r i (check_redis r (sub_path prefix sub)))
    pure (with_ttl i worker ttl w)

  -- with the current running config
  unfoldable pub running_status :
      Bool
      → String
      → Worker
      → WorkerConfig
      → Assoc Value
      → WorkerStatus i
      → Exec (WorkerCache d r i) CacheError (WorkerStatus i)
  unfolding with_rate with_series with_rate_stats with_latency_stats config_get_rate stats_meta
      stats_get
  running_status detail key worker config m w = do
    rate ← attempt (config_get_rate d r i prefix t key worker config)
    series ← stats_meta d r i prefix t key worker config
    rate_stats ← attempt (stats_get d r i prefix t u key worker config config.rate_stats)
    latency_stats ← attempt (stats_get d r i prefix t u key worker config config.latency_stats)
    pure (
        with_latency_stats i latency_stats (
          with_rate_stats i rate_stats (
            with_series i series
              (with_rate i rate (if detail then record w { config_map = some m } else w)))))

  unfoldable pub current_status :
      Bool
      → String
      → Worker
      → WorkerConfig
      → WorkerStatus i
      → Exec (WorkerCache d r i) CacheError (WorkerStatus i)
  unfolding running_status config_get
  current_status detail key worker config w = if not worker.up then pure w else (do
    m ← attempt (config_get d r i prefix t key worker)
    (elim m [ err e ↦ pure w | ok m ↦ running_status detail key worker config m w ]))

  -- the part of a worker with a configuration
  unfoldable pub config_status :
      Bool
      → String
      → Worker
      → Option WorkerConfig
      → WorkerStatus i
      → Exec (WorkerCache d r i) CacheError (WorkerStatus i)
  unfolding check_sub current_status
  config_status detail key worker none w = pure w
  config_status detail key worker (some config) w = do
    checked ←
        check_sub worker worker.config_sub
          (record w { config = config.name; worker_config = if detail then some config else none })
    current_status detail key worker config checked

  -- `getStatus`, of the worker under a key
  unfoldable pub get_status :
      Bool → String → Worker → Exec (WorkerCache d r i) CacheError (WorkerStatus i)
  unfolding first_status with_container config_status in_docker
  get_status detail key worker = do
    container ← if detail then in_docker d r i (get_container d worker.docker_id) else pure none
    found ← attempt (in_docker d r i (cached_status d worker.docker_id))
    config_status detail key worker worker.config (
        with_container i worker found
          (record (first_status i worker) { docker_container = container }))

  -- the range of `ListWorkers`
  unfoldable pub list_over :
      Assoc Worker → Exec (WorkerCache d r i) CacheError (List (WorkerStatus i))
  unfolding get_status
  list_over [] = pure []
  list_over ((k, c) ∷ m) = do s ← get_status false k c; ss ← list_over m; pure (s ∷ ss)

  -- `ListWorkers`, with the cache that it leaves
  unfoldable pub list_workers :
      Manager d → r.State → i.State → Outcome CacheError (List (WorkerStatus i)) × WorkerCache d r i
  unfolding list_over make_cache
  list_workers w redis influx = list_over w.workers (make_cache d r i true w.docker redis influx)

  -- `WorkerGet`, with the cache that it leaves; none for a worker that is not there
  unfoldable pub worker_get :
      Manager d
      → r.State
      → i.State
      → String
      → String
      → Outcome CacheError (Option (WorkerStatus i)) × WorkerCache d r i
  unfolding get_status make_cache
  worker_get w redis influx config instance_name =
      let key = config ⧺ (":" ⧺ instance_name) in
      let cache = make_cache d r i false w.docker redis influx in
      elim (lookup key w.workers) [
        | none ↦ (done none, cache)
        | some worker ↦ (do s ← get_status true key worker; pure (some s)) cache
      ]
