-- ===== src/Control/Manager/Setup.antt =====
-- control/manager.go, config/redis.go and stats/reader.go: how a manager is made, and
-- cmd/control-web/main.go, what the daemon does with it before it serves. The connections to the three
-- services and the reading of files are parameters.
use close.Prelude.{
  Assoc, Bool, Exec, List, Option, Outcome, String, [], ap, continue, done, failed, if◌then◌else◌,
  none, panicked, pure, raise, some, str_eq, sym, ◌>>=◌, ◌>>◌, ◌∷◌, ◌≡◌,
}
use close.Config.Url.{Url, redis_empty}
use close.Stats.Influx.{InfluxUrl, is_empty}
use close.Docker.Daemon.{Daemon}
use close.Control.Types.{Client, Config, Error, Manager, Options, Worker}
use close.Control.Manager.{clean, discover, load_config, start, stop}
use close.Control.Manager.History.{Operation, history, history_ends}

pub data SetupError : Type 0 where
  missing_config redis_refused missing_stats stats_refused docker_refused : SetupError

-- the options of the services
pub record ServiceOptions : Type 0 where
  pub config : Url
  pub stats : InfluxUrl

module _ (d : Daemon) where
  -- NewRedis, NewReader and NewManager; the last one gives the daemon
  pub record Services : Type 1 where
    pub World : Type 0
    pub new_redis : Url → World → Option (Unit {0}) × World
    pub new_reader : InfluxUrl → World → Option (Unit {0}) × World
    pub new_docker : World → Option d.State × World

  module _ (v : Services) where
    unfoldable pub or_raise :
        {A : Type 0} → SetupError → Option A × v.World → Outcome SetupError A × v.World
    or_raise e (none, s) = (failed e, s)
    or_raise e (some a, s) = (done a, s)

    -- `init`
    unfoldable pub init : ServiceOptions → Exec v.World SetupError d.State
    unfolding or_raise
    init o = do
      (if redis_empty (o.config)
          then raise missing_config
          else (λ s. or_raise redis_refused (v.new_redis o.config s)))
      (if is_empty (o.stats)
          then raise missing_stats
          else (λ s. or_raise stats_refused (v.new_reader o.stats s)))
      (λ s. or_raise docker_refused (v.new_docker s))

    -- the manager that `New` makes
    unfoldable pub empty_manager : d.State → Manager d
    empty_manager docker = record {
      config_text = "";
      config = record { clients = []; workers = [] };
      clients = [];
      workers = [];
      docker = docker;
    }

    -- `New`
    unfoldable pub new : ServiceOptions → Exec v.World SetupError (Manager d)
    unfolding init empty_manager
    new o = do docker ← init o; pure (empty_manager docker)

    clients_of : Outcome SetupError (Manager d) → Assoc Client
    clients_of (done m) = m.clients
    clients_of (failed e) = []
    clients_of panicked = []

    workers_of : Outcome SetupError (Manager d) → Assoc Worker
    workers_of (done m) = m.workers
    workers_of (failed e) = []
    workers_of panicked = []

    new-empty :
        (o : ServiceOptions) (m : Manager d) (s t : v.World)
        → new o s ≡ (done m, t)
        → (m.clients ≡ []) × (m.workers ≡ [])
    unfolding new empty_manager clients_of workers_of
    new-empty o m s t e = let (answer, s') = init o s in go answer s' e
      where
        go :
            (x : Outcome SetupError d.State) (s' : v.World)
            → continue x (λ docker. pure (empty_manager docker)) s' ≡ (done m, t)
            → (m.clients ≡ []) × (m.workers ≡ [])
        go (done k) s' q = (ap (λ x. clients_of x.0) (sym q), ap (λ x. workers_of x.0) (sym q))
        go (failed x) s' q = absurd (cc)
        go panicked s' q = absurd (cc)

    -- A manager that New has made can be used in any way: a Stop and a Clean run to their end and leave
    -- no client and no worker.
    new_ends :
        (o : ServiceOptions) (m : Manager d) (s t : v.World)
        → new o s ≡ (done m, t)
        → (options : Options) → (decode : String → Option (Config × List String))
        → (ops : List (Operation d options decode))
        → (es : List Error) × (k : d.State) × ((stop d >> clean d) (history d options decode ops m)
            ≡ (
              done es,
              record (history d options decode ops m) { docker = k; clients = []; workers = [] },
            ))
    new_ends o m s t e options decode ops =
        let (clients, workers) = new-empty o m s t e in
        history_ends d options decode ops m clients workers

  -- `LoadConfigReader` and `LoadConfigFile`: none for what cannot be read
  unfoldable pub load_read :
      (String → Option (Config × List String))
      → Error
      → Option String
      → Exec (Manager d) Error (Unit {0})
  load_read decode unreadable none = raise unreadable
  load_read decode unreadable (some text) = load_config d decode text

  -- `DumpConfig`
  unfoldable pub dump_config : Exec (Manager d) Error String
  dump_config m = (done m.config_text, m)

  data Fatal : Type 0 where
    load_fatal discover_fatal : Error → Fatal
    start_fatal : List Error → Fatal

  unfoldable or_fatal : {A : Type 0} → (Error → Fatal) → Outcome Error A → Outcome Fatal A
  or_fatal wrap (done a) = done a
  or_fatal wrap (failed e) = failed (wrap e)
  or_fatal wrap panicked = panicked

  -- a call in `main` whose error is fatal
  unfoldable fatally :
      {A : Type 0} → (Error → Fatal) → Exec (Manager d) Error A → Exec (Manager d) Fatal A
  unfolding or_fatal
  fatally wrap m w = let (x, w') = m w in (or_fatal wrap x, w')

  unfoldable all_started : List Error → Exec (Manager d) Fatal (Unit {0})
  all_started [] = pure tt
  all_started (e ∷ es) = raise (start_fatal (e ∷ es))

  -- `main`, up to the web server: path, the text of the file and whether to start are arguments
  unfoldable prepare :
      (String → Option (Config × List String))
      → Error
      → String
      → Option String
      → Bool
      → Options
      → Exec (Manager d) Fatal (Unit {0})
  unfolding fatally all_started
  prepare decode unreadable path file starts o = do
    (if str_eq path "" then pure tt else fatally load_fatal (load_read decode unreadable file))
    fatally discover_fatal (discover d)
    (if starts then (do es ← fatally load_fatal (start d o); all_started es) else pure tt)
