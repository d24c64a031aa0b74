-- ===== src/Control/Workers/Cache.antt =====
-- control/worker.go: the cache of a listing of workers, over the containers' statuses, the
-- configurations in Redis and the statistics in InfluxDB. A worker stands under its key in the map of
-- workers, by which the cache knows the object.
pub mod Fetch
pub mod Parsing
pub mod Repeats
use close.Prelude.{
  Assoc, Bool, Exec, List, Option, Outcome, String, Value, [], attempt, done, err, failed,
  if◌then◌else◌, insert, json_number, json_other, json_text, lookup, none, ok, panicked, pure,
  raise, some, str_eq, ℕ, ◌>>=◌, ◌>>◌, ◌∷◌, ◌⧺◌,
}
use close.Docker.Manager.{DockerError}
use close.Docker.Cache.{Cache, new_cache}
use close.Config.Redis.{RedisError, sub_path, get as get_redis}
use close.Control.Types.{Worker, WorkerConfig, worker_string}
use close.Stats.Series.{ReaderError, SeriesKey, SeriesStats, no_key}
use close.Docker.Container.{State, split_path}
use close.Config.Id.{ConfigId}
use close.Config.Sub.{Redis}
use close.Docker.Daemon.{Daemon}
use close.Stats.Influx.{Influx}

-- the parts of a URL that are read: the path, and the first value of a query's key
pub record StatsUrl : Type 0 where
  pub path : String
  pub query : String → String

-- the answer of `Int64`
pub data Int64 : Type 0 where
  not_negative negative : ℕ → Int64

-- the functions of the standard library on texts; none is an error
pub record Texts : Type 0 where
  pub parse_url : String → Option StatsUrl
  pub to_int64 : String → Option Int64
  pub trim_dollar : String → Option String  -- what follows a "$" in front

pub data CacheError : Type 0 where
  docker_error : DockerError → CacheError
  redis_error : RedisError → CacheError
  reader_error : ReaderError → CacheError
  invalid_number negative_rate invalid_rate : CacheError
  no_config_sub invalid_url invalid_path invalid_instance : CacheError
  has_field : CacheError
  not_found : String → CacheError

-- `%s/%s` of a type and a field
unfoldable pub index_of : String → String → String
index_of type field = type ⧺ ("/" ⧺ field)

-- `%s/%s?instance=%s`
unfoldable pub key_of : String → String → String → String
unfolding index_of
key_of type field instance_name = index_of type field ⧺ ("?instance=" ⧺ instance_name)

-- what `parseStats` returns: all of its results, also with an error
pub record Parsed : Type 0 where
  pub series : SeriesKey
  pub field : String
  pub error : Option CacheError

-- the switch on the parts of the path
unfoldable pub path_series : WorkerConfig → List String → Parsed
path_series config [] = record {
  series = record (no_key) { type = config.type };
  field = "";
  error = none;
}
path_series config (type ∷ []) = record {
  series = record (no_key) { type = type };
  field = "";
  error = none;
}
path_series config (type ∷ field ∷ []) = record {
  series = record (no_key) { type = type };
  field = field;
  error = none;
}
path_series config (a ∷ b ∷ c ∷ rest) = record {
  series = no_key;
  field = "";
  error = some invalid_path;
}

unfoldable pub with_instance : String → Parsed → Parsed
with_instance instance_name p = record p {
  series = record (p.series) { instance_name = instance_name };
}

-- the instance by a value of the configuration
unfoldable pub value_instance : Option Value → Parsed → Parsed
unfolding with_instance
value_instance (some (json_text s)) p = with_instance s p
value_instance (some (json_number s)) p = with_instance s p
value_instance (some json_other) p = record p { error = some invalid_instance }
value_instance none p = record p { error = some invalid_instance }

-- the rate by a value of the configuration
unfoldable pub int_rate : {S : Type 0} → Option Int64 → Exec S CacheError ℕ
int_rate none = raise invalid_number
int_rate (some (not_negative n)) = pure n
int_rate (some (negative n)) = raise negative_rate

unfoldable pub value_rate : {S : Type 0} → Texts → Option Value → Exec S CacheError ℕ
unfolding int_rate
value_rate t (some (json_number s)) = int_rate (t.to_int64 s)
value_rate t (some (json_text s)) = raise invalid_rate
value_rate t (some json_other) = raise invalid_rate
value_rate t none = raise invalid_rate

unfoldable pub wrapped : {E A : Type 0} → (E → CacheError) → Outcome E A → Outcome CacheError A
wrapped f (done a) = done a
wrapped f (failed e) = failed (f e)
wrapped f panicked = panicked

module _ (d : Daemon) (r : Redis) (i : Influx) where
  -- `workerCache`, with the states of the three services
  pub record WorkerCache : Type 0 where
    pub eager : Bool
    pub docker : Cache d  -- dockerCache
    pub configs : Assoc (Assoc Value)  -- configCache
    pub stats : Assoc (SeriesStats i)  -- statsCache
    pub index : Assoc Bool  -- statsIndex
    pub redis : r.State
    pub influx : i.State

  -- `makeWorkerCache`
  unfoldable pub make_cache : Bool → d.State → r.State → i.State → WorkerCache
  make_cache eager s redis influx = record {
    eager = eager;
    docker = new_cache d eager s;
    configs = [];
    stats = [];
    index = [];
    redis = redis;
    influx = influx;
  }

  -- the three services under the cache
  unfoldable pub in_docker :
      {A : Type 0} → Exec (Cache d) DockerError A → Exec WorkerCache CacheError A
  unfolding wrapped
  in_docker m c = let (o, s) = m c.docker in (wrapped docker_error o, record c { docker = s })

  unfoldable pub in_redis : {A : Type 0} → Exec r.State RedisError A → Exec WorkerCache CacheError A
  unfolding wrapped
  in_redis m c = let (o, s) = m c.redis in (wrapped redis_error o, record c { redis = s })

  unfoldable pub in_influx :
      {A : Type 0} → Exec i.State ReaderError A → Exec WorkerCache CacheError A
  unfolding wrapped
  in_influx m c = let (o, s) = m c.influx in (wrapped reader_error o, record c { influx = s })

  unfoldable pub put_config : String → Assoc Value → Exec WorkerCache CacheError (Assoc Value)
  put_config key m c = (done m, record c { configs = insert key m c.configs })

  module _ (prefix : String) (t : Texts) where
    -- the path of a worker's configuration
    unfoldable pub fetch_config :
        String → Option ConfigId → Exec WorkerCache CacheError (Assoc Value)
    unfolding in_redis put_config
    fetch_config key none = raise no_config_sub
    fetch_config key (some sub) = do
      m ← in_redis (get_redis r (sub_path prefix sub))
      put_config key m

    -- `ConfigGet`: Get current configuration for worker.
    unfoldable pub config_get : String → Worker → Exec WorkerCache CacheError (Assoc Value)
    unfolding fetch_config
    config_get key worker c = elim (lookup key c.configs) [
      | some m ↦ (done m, c)
      | none ↦ fetch_config key worker.config_sub c
    ]

    -- `ConfigGetRate`: Get configured rate from configMap.
    unfoldable pub config_get_rate : String → Worker → WorkerConfig → Exec WorkerCache CacheError ℕ
    unfolding config_get value_rate
    config_get_rate key worker config =
        if str_eq config.rate_config ""
        then pure 0
        else (do m ← config_get key worker; value_rate t (lookup config.rate_config m))

    -- the instance from the worker's configuration
    unfoldable pub config_instance :
        String → Worker → String → Parsed → Exec WorkerCache CacheError Parsed
    unfolding config_get value_instance
    config_instance key worker name p = do
      m ← attempt (config_get key worker)
      pure
          (elim m [ err e ↦ record p { error = some e } | ok m ↦ value_instance (lookup name m) p ])

    -- the tests on the query's instance, for a path that is valid
    unfoldable pub query_instance :
        String → Worker → String → Parsed → Exec WorkerCache CacheError Parsed
    unfolding config_instance with_instance
    query_instance key worker text p =
        if str_eq text ""
        then pure p
        else if str_eq text "$"
        then pure (with_instance (worker_string worker) p)
        else elim (t.trim_dollar text) [
          | none ↦ pure (with_instance text p)
          | some name ↦ config_instance key worker name p
        ]

    -- what follows the switch: nothing after an error
    unfoldable pub query_series :
        String → Worker → StatsUrl → Parsed → Exec WorkerCache CacheError Parsed
    unfolding query_instance
    query_series key worker url p = elim (p.error) [
      | some e ↦ pure p
      | none ↦
          query_instance key worker (url.query "instance")
            (record p { series = record (p.series) { hostname = url.query "hostname" } })
    ]

    -- `parseStats`: Get configured stats instance.
    unfoldable pub parse_stats :
        String → Worker → WorkerConfig → String → Exec WorkerCache CacheError Parsed
    unfolding path_series query_series split_path
    parse_stats key worker config stats_url = elim (t.parse_url stats_url) [
      | none ↦ pure (record { series = no_key; field = ""; error = some invalid_url })
      | some url ↦
          (let (part, rest) = split_path url.path in
            query_series key worker url (path_series config (part ∷ rest)))
    ]

    -- `StatsMeta`: the key, also with an error
    unfoldable pub stats_meta :
        String → Worker → WorkerConfig → Exec WorkerCache CacheError (SeriesKey × Option CacheError)
    unfolding parse_stats
    stats_meta key worker config = if str_eq config.stats "" then pure (no_key, none) else (do
      p ← parse_stats key worker config config.stats
      pure (elim (p.error) [
        | some e ↦ (p.series, some e)
        | none ↦ if str_eq p.field "" then (p.series, none) else (p.series, some has_field)
      ]))
