-- ===== src/Control/Web.antt =====
-- control/web.go: the handlers of the web interface, over the manager, Redis and InfluxDB. What a
-- handler writes is a list of responses; the texts of errors and the encoding in JSON are left out.
pub mod Deletion
pub mod Examples
use close.Prelude.{
  Assoc, Exec, List, Option, Outcome, Result, String, Value, [], done, err, failed, if◌then◌else◌,
  none, ok, panicked, pure, some, str_eq, true, ℕ, ◌>>=◌, ◌>>◌, ◌∷◌,
}
use close.Docker.Manager as Docker
use close.Config.Id.{ConfigId, parse_id}
use close.Control.Clients.{client_delete}
use close.Control.Clients.Status.{ClientStatus, list_over as clients_over}
use close.Docker.Cache.{new_cache}
use close.Control.Types.{Error, Manager, Options, docker, Config as SystemConfig}
use close.Control.Workers.{worker_delete}
use close.Control.Workers.Status.{WorkerStatus, list_workers, worker_get}
use close.Control.Manager.{clean, load_config, panic_docker, start, stop}
use close.Control.Configs.{ConfigItem, config_get, config_list, config_push}
use close.Stats.Reader.{get_series, list_series, list_types}
use close.Config.Sub.{Redis}
use close.Control.Workers.Cache.{CacheError, Texts, WorkerCache}
use close.Docker.Container.{Container, ContainerStatus, State}
use close.Docker.Daemon.{Daemon}
use close.Docker.Id.{no_id}
use close.Stats.Influx.{Influx, InfluxUrl}
use close.Stats.Series.{SeriesData, SeriesKey, SeriesMeta}
use close.Docker.Manager.{DockerError}

module _ (i : Influx) where
  -- `APIGet`
  pub record ApiGet : Type 0 where
    pub config : SystemConfig
    pub config_text : String
    pub clients : List ClientStatus
    pub workers : List (WorkerStatus i)

  pub data Body : Type 0 where
    api_body : ApiGet → Body
    worker_body : WorkerStatus i → Body
    containers_body : List ContainerStatus → Body
    container_body : Container → Body
    configs_body : List ConfigItem → Body
    config_body : Assoc Value → Body
    types_body : List SeriesMeta → Body
    keys_body : List SeriesKey → Body
    series_body : List (SeriesData i) → Body

  -- what a handler does to the response writer
  pub data Write : Type 0 where
    writes_error : ℕ → Write  -- rest.Error, with the status
    writes_json : Body → Write
    writes_header : ℕ → Write
    adds_location : String → Write

-- The parameters that a request has, and the functions that decode it.
pub record Request : Type 0 where
  pub config : String
  pub instance_name : String
  pub type : String
  pub field : String
  pub container : String  -- id
  pub form : String → String  -- FormValue
  pub body : String
  pub json : Option String  -- the configuration of the body, encoded again

module _ (d : Daemon) (r : Redis) (i : Influx) where
  -- the state under the handlers
  pub record App : Type 0 where
    pub manager : Manager d
    pub redis : r.State
    pub influx : i.State

  abbrev pub Handler : Type 0
  Handler = Exec App ⊥ (List (Write i))

  -- an error of an operation as a value
  unfoldable pub serve : {E A : Type 0} → (Result E A → Handler) → Outcome E A → Handler
  serve f (done a) s = f (ok a) s
  serve f (failed e) s = f (err e) s
  serve f panicked s = (panicked, s)

  unfoldable pub with_manager :
      {E A : Type 0} → Exec (Manager d) E A → (Result E A → Handler) → Handler
  unfolding serve
  with_manager m f s = let (o, t) = m s.manager in serve f o (record s { manager = t })

  unfoldable pub with_docker : {E A : Type 0} → Exec d.State E A → (Result E A → Handler) → Handler
  unfolding serve
  with_docker m f s =
      let (o, t) = m s.manager.docker in
      serve f o (record s { manager = record (s.manager) { docker = t } })

  unfoldable pub with_redis : {E A : Type 0} → Exec r.State E A → (Result E A → Handler) → Handler
  unfolding serve
  with_redis m f s = let (o, t) = m s.redis in serve f o (record s { redis = t })

  unfoldable pub with_influx : {E A : Type 0} → Exec i.State E A → (Result E A → Handler) → Handler
  unfolding serve
  with_influx m f s = let (o, t) = m s.influx in serve f o (record s { influx = t })

  abbrev pub write : Write i → Handler
  write x = pure (x ∷ [])

  -- `if errs != nil`: a 500, or what follows
  unfoldable pub no_errors : {E : Type 0} → Handler → Result {0, 0} E (List Error) → Handler
  no_errors next (err e) = write (writes_error 500)
  no_errors next (ok []) = next
  no_errors next (ok (e ∷ es)) = write (writes_error 500)

  -- `if err != nil`: a 500, or a response
  unfoldable pub or_500 : {E A : Type 0} → (A → Write i) → Result {0, 0} E A → Handler
  or_500 f (err e) = write (writes_error 500)
  or_500 f (ok a) = write (f a)

  module _ (decode : String → Option (SystemConfig × List String)) (o : Options) where
    -- `Post`
    unfoldable pub post : Request → Handler
    unfolding no_errors with_manager
    post req = with_manager (load_config d decode req.body) (λ x. elim x [
      | err e ↦ write (writes_error 400)
      | ok u ↦ with_manager (start d o) (no_errors (write (writes_header 200)))
    ])

  -- `PostStop`
  unfoldable pub post_stop : Handler
  unfolding no_errors with_manager
  post_stop = with_manager (stop d) (no_errors (write (writes_header 200)))

  -- `PostClean`
  unfoldable pub post_clean : Handler
  unfolding no_errors with_manager
  post_clean = with_manager (clean d) (no_errors (write (writes_header 200)))

  -- `Delete`
  unfoldable pub delete_all : Handler
  unfolding no_errors with_manager
  delete_all =
      with_manager (stop d)
        (no_errors (with_manager (clean d) (no_errors (write (writes_header 200)))))

  -- `DeleteWorkers`
  unfoldable pub delete_workers : Request → Handler
  unfolding with_manager or_500
  delete_workers req =
      with_manager (worker_delete d req.config req.instance_name) (or_500 (λ _. writes_header 200))

  -- `DeleteClients`
  unfoldable pub delete_clients : Request → Handler
  unfolding with_manager or_500
  delete_clients req =
      with_manager (client_delete d req.config req.instance_name) (or_500 (λ _. writes_header 200))

  -- `GetDockerList`
  unfoldable pub get_docker_list : Handler
  unfolding with_docker or_500
  get_docker_list =
      with_docker (Docker.list d no_id) (or_500 (λ l. writes_json (containers_body l)))

  -- `GetDocker`
  unfoldable pub get_docker : Request → Handler
  unfolding with_docker
  get_docker req = with_docker (Docker.get d req.container) (λ x. elim x [
    | err e ↦ write (writes_error 500)
    | ok c ↦ elim c [
      | none ↦ write (writes_error 404)
      | some c ↦ write (writes_json (container_body c))
    ]
  ])

  -- `PostPanic`
  unfoldable pub post_panic : Handler
  unfolding with_manager
  post_panic = with_manager (panic_docker d) (λ x. elim x [
    | err e ↦ write (writes_error 500)
    | ok u ↦ pure (adds_location "/" ∷ writes_header 302 ∷ [])
  ])

  module _ (prefix : String) where
    -- `GetConfigList`, at the time `now`
    unfoldable pub get_config_list : ℕ → Request → Handler
    unfolding with_redis or_500
    get_config_list now req =
        with_redis (config_list r prefix now req.type) (or_500 (λ l. writes_json (configs_body l)))

    -- a request's ID, a 400 without one
    unfoldable pub with_id : Request → (ConfigId → Handler) → Handler
    with_id req f = elim (parse_id req.type req.instance_name) [
      | err e ↦ write (writes_error 400)
      | ok id ↦ f id
    ]

    -- `GetConfig`
    unfoldable pub get_config : Request → Handler
    unfolding with_id with_redis or_500
    get_config req =
        with_id req
          (λ id. with_redis (config_get r prefix id) (or_500 (λ m. writes_json (config_body m))))

    -- `PostConfig`
    unfoldable pub post_config : Request → Handler
    unfolding with_id with_redis or_500
    post_config req = elim (req.json) [
      | none ↦ write (writes_error 400)
      | some json ↦
          with_id req (λ id.
            with_redis (config_push r prefix id (some json)) (or_500 (λ _. writes_header 200)))
    ]

    module _ (t : Texts) (u : InfluxUrl) where
      -- what a cache leaves of the services
      unfoldable pub put_back : WorkerCache d r i → App → App
      put_back c s = record s {
        manager = record (s.manager) { docker = c.docker.docker };
        redis = c.redis;
        influx = c.influx;
      }

      -- `ListClients`
      unfoldable pub with_clients :
          (Result {0, 0} DockerError (List ClientStatus) → Handler) → Handler
      unfolding serve
      with_clients f s =
          let (o, c) = clients_over d s.manager.clients (new_cache d true s.manager.docker) in
          serve f o (record s { manager = record (s.manager) { docker = c.docker } })

      -- `ListWorkers`
      unfoldable pub with_workers :
          (Result {0, 0} CacheError (List (WorkerStatus i)) → Handler) → Handler
      unfolding serve put_back
      with_workers f s =
          let (o, c) = list_workers d r i prefix t u s.manager s.redis s.influx in
          serve f o (put_back c s)

      -- `Get`; the configuration and its text are the manager's
      unfoldable pub get : Handler
      unfolding with_clients with_workers or_500
      get s =
          with_clients
            (λ x. elim x [
              | err e ↦ write (writes_error 500)
              | ok clients ↦ with_workers (
                  or_500 (λ workers. writes_json (
                    api_body (record {
                      config = s.manager.config;
                      config_text = s.manager.config_text;
                      clients = clients;
                      workers = workers;
                    }))))
            ])
            s

      -- the tests of `GetWorker`: without a status the response is a 404, also with an error
      unfoldable pub worker_response : Result {0, 0} CacheError (Option (WorkerStatus i)) → Handler
      worker_response (err e) = write (writes_error 404)
      worker_response (ok none) = write (writes_error 404)
      worker_response (ok (some w)) = write (writes_json (worker_body w))

      -- `GetWorker`
      unfoldable pub get_worker : Request → Handler
      unfolding serve put_back worker_response
      get_worker req s =
          let (o, c) =
            worker_get d r i prefix t u s.manager s.redis s.influx req.config req.instance_name in
          serve worker_response o (put_back c s)

  module _ (u : InfluxUrl) where
    -- `GetStatsTypes`
    unfoldable pub get_stats_types : Handler
    unfolding with_influx or_500
    get_stats_types = with_influx (list_types i u) (or_500 (λ l. writes_json (types_body l)))

    unfoldable pub request_key : Request → SeriesKey
    request_key req = record {
      type = req.type;
      hostname = req.form "hostname";
      instance_name = req.form "instance";
    }

    -- `GetStatsList`
    unfoldable pub get_stats_list : Request → Handler
    unfolding with_influx or_500 request_key
    get_stats_list req =
        with_influx (list_series i u (request_key req)) (or_500 (λ l. writes_json (keys_body l)))

    -- the query of `GetStats`
    unfoldable pub stats_of : Request → ℕ → Handler
    unfolding with_influx or_500 request_key
    stats_of req duration =
        with_influx
          (get_series i u (request_key req) (if str_eq req.field "" then [] else req.field ∷ [])
            duration)
          (or_500 (λ l. writes_json (series_body l)))

    -- `GetStats`; after the response to a bad duration the query is made with a duration of 0
    unfoldable pub get_stats : (String → Option ℕ) → Request → Handler
    unfolding stats_of
    get_stats parse_duration req =
        if str_eq (req.form "duration") ""
        then stats_of req 10_000_000_000
        else elim (parse_duration (req.form "duration")) [
          | none ↦ (do more ← stats_of req 0; pure (writes_error 400 ∷ more))
          | some duration ↦ stats_of req duration
        ]
