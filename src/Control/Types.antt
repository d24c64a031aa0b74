-- ===== src/Control/Types.antt =====
-- control/clients.go, control/worker.go and control/manager.go: the data of the manager. An object
-- that Go compares by its address carries the address in `pointer`.
use close.Prelude.{
  Assoc, Bool, Exec, List, Option, Outcome, String, [], attempt, done, err, failed, none, ok,
  panicked, pure, some, ℕ, ◌>>=◌, ◌∷◌, ◌⧺◌,
}
use close.Docker.Id.{ContainerId}
use close.Docker.Daemon.{Daemon}
use close.Docker.Manager.{DockerError}
use close.Config.Id.{ConfigId, InvalidId}

pub record ClientConfig : Type 0 where
  pub pointer : ℕ
  pub name : String
  pub count : ℕ  -- uint
  pub image : String
  pub privileged : Bool
  pub volume : String
  pub volume_path : String
  pub volume_fmt_id : String
  pub volume_readonly : Bool

pub record Client : Type 0 where
  pub config : Option ClientConfig  -- a pointer, none for nil
  pub instance_name : String
  pub up : Bool  -- configured to be up
  pub docker_id : ContainerId

pub record WorkerConfig : Type 0 where
  pub pointer : ℕ
  pub name : String
  pub count : ℕ  -- uint
  pub client : String  -- ClientConfig.name
  pub constraints : List String
  pub image : String
  pub privileged : Bool
  pub command : String
  pub args : List String
  pub type : String
  pub instance_flag : String
  pub stats : String
  pub rate_config : String
  pub rate_stats : String
  pub latency_stats : String

pub record Worker : Type 0 where
  pub config : Option WorkerConfig
  pub instance_name : String
  pub up : Bool
  pub docker_id : ContainerId
  pub config_sub : Option ConfigId  -- a Sub is known by its ID

-- full-system configuration
pub record Config : Type 0 where
  pub clients : Assoc ClientConfig
  pub workers : Assoc WorkerConfig

-- `%v` of a pointer to a configuration, and of a nil pointer
abbrev pub client_config_text : Option ClientConfig → String
client_config_text none = "<nil>"
client_config_text (some c) = c.name

abbrev pub worker_config_text : Option WorkerConfig → String
worker_config_text none = "<nil>"
worker_config_text (some c) = c.name

-- `Client.String`
unfoldable pub client_string : Client → String
client_string c = client_config_text c.config ⧺ (":" ⧺ c.instance_name)

-- `Worker.String`
unfoldable pub worker_string : Worker → String
worker_string w = worker_config_text w.config ⧺ (":" ⧺ w.instance_name)

pub data Error : Type 0 where
  docker_up docker_down docker_clean : ContainerId → DockerError → Error
  docker_failed : DockerError → Error
  client_not_found : String → Error
  get_sub : InvalidId → Error
  decode_failed : Error
  undecoded_keys : List String → Error

-- The options and the parts of the standard library that the manager is given: the two URLs that it
-- passes on to workers, and `fmt.Sprintf` with a format from the configuration.
pub record Options : Type 0 where
  pub influx_url : String
  pub redis_url : String
  pub sprintf : String → String → String

module _ (d : Daemon) where
  -- `Manager`, with the daemon's state
  pub record Manager : Type 0 where
    pub config_text : String
    pub config : Config
    pub clients : Assoc Client
    pub workers : Assoc Worker
    pub docker : d.State

unfoldable pub docker_outcome :
    {A : Type 0} → Outcome DockerError A → (DockerError → Error) → Outcome Error A
docker_outcome (done a) wrap = done a
docker_outcome (failed e) wrap = failed (wrap e)
docker_outcome panicked wrap = panicked

-- An action of package docker, with the error that the manager makes of a failure.
unfoldable pub docker :
    {d : Daemon} {A : Type 0}
    → Exec d.State DockerError A
    → (DockerError → Error)
    → Exec (Manager d) Error A
unfolding docker_outcome
docker m wrap w = let (r, s) = m w.docker in (docker_outcome r wrap, record w { docker = s })

-- `if err := f(); err != nil { errs = append(errs, err) }`: the error goes into a list
unfoldable pub collect : {S : Type 0} → Exec S Error (Unit {0}) → Exec S Error (List Error)
collect m = do r ← attempt m; pure (elim r [ ok u ↦ [] | err e ↦ e ∷ [] ])
