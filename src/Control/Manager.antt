-- ===== src/Control/Manager.antt =====
-- control/manager.go: the operations on the whole configuration. The decoder of TOML texts is not part
-- of the repository: it gives the configuration and the keys that it did not decode.
pub mod Lifecycle
pub mod Loading
pub mod History
pub mod Setup
pub mod Examples
use close.Prelude.{
  Assoc, Exec, List, Option, Result, String, [], attempt, done, err, if◌then◌else◌, none, ok, pure,
  raise, some, str_eq, ◌++◌, ◌>>=◌, ◌>>◌, ◌∷◌,
}
use close.Docker.Container.{ContainerStatus}
use close.Docker.Daemon.{Daemon}
use close.Docker.Manager as Docker
use close.Control.Types.{
  ClientConfig, Config, Error, Manager, Options, Worker, WorkerConfig, decode_failed, docker,
  docker_failed, undecoded_keys,
}
use close.Control.Clients.{
  client_clean, client_down, client_up_all, discover_client, mark_clients, put_client,
  sweep_clients,
}
use close.Control.Workers.{
  discover_worker, mark_workers, put_worker, sweep_workers, worker_clean, worker_down,
  worker_up_all,
}
use close.Docker.Manager.{list, panic_all}

-- the names of the entries
unfoldable pub name_clients : Assoc ClientConfig → Assoc ClientConfig
name_clients [] = []
name_clients ((k, c) ∷ m) = (k, record c { name = k }) ∷ name_clients m

unfoldable pub name_workers : Assoc WorkerConfig → Assoc WorkerConfig
name_workers [] = []
name_workers ((k, c) ∷ m) = (k, record c { name = k }) ∷ name_workers m

unfoldable pub named : Config → Config
unfolding name_clients name_workers
named c = record { clients = name_clients c.clients; workers = name_workers c.workers }

module _ (d : Daemon) where
  unfoldable pub set_config : String → Config → Exec (Manager d) Error (Unit {0})
  set_config text c w = (done tt, record w { config_text = text; config = c })

  -- what `loadConfig` makes of the decoder's answer
  unfoldable pub loaded : String → Option (Config × List String) → Exec (Manager d) Error (Unit {0})
  unfolding set_config named
  loaded text none = raise decode_failed
  loaded text (some (c, [])) = set_config text (named c)
  loaded text (some (c, k ∷ ks)) = raise (undecoded_keys (k ∷ ks))

  -- `loadConfig`: Load a TOML-formatted config.
  unfoldable pub load_config :
      (String → Option (Config × List String)) → String → Exec (Manager d) Error (Unit {0})
  load_config decode text = loaded text (decode text)

  unfoldable pub put_found_worker :
      Result {0, 0} Error (Option Worker) → Exec (Manager d) Error (Unit {0})
  put_found_worker (err e) = pure tt
  put_found_worker (ok none) = pure tt
  put_found_worker (ok (some c)) = put_worker d c

  -- the turn of `Discover` for one container; an error is only logged
  unfoldable pub discover_at : ContainerStatus → Exec (Manager d) Error (Unit {0})
  unfolding put_found_worker
  discover_at c =
      if str_eq c.id.class "client"
      then (λ w. put_client d (discover_client d c.id w) w)
      else if str_eq c.id.class "worker"
      then (do r ← attempt (discover_worker d c.id); put_found_worker r)
      else pure tt

  unfoldable pub discover_each : List ContainerStatus → Exec (Manager d) Error (Unit {0})
  unfolding discover_at
  discover_each [] = pure tt
  discover_each (c ∷ cs) = do discover_at c; discover_each cs

  -- `Discover`: Discover any existing running docker containers before initial Start()
  unfoldable pub discover : Exec (Manager d) Error (Unit {0})
  unfolding discover_each
  discover = do
    containers ←
        docker (Docker.list d (record { class = ""; type = ""; instance_name = "" })) docker_failed
    discover_each containers

  module _ (o : Options) where
    unfoldable pub start_clients : Assoc ClientConfig → Exec (Manager d) Error (List Error)
    start_clients [] = pure []
    start_clients ((k, c) ∷ m) = do
      es ← client_up_all d o c
      more ← start_clients m
      pure (es ++ more)

    unfoldable pub start_workers : Assoc WorkerConfig → Exec (Manager d) Error (List Error)
    start_workers [] = pure []
    start_workers ((k, c) ∷ m) = do
      es ← worker_up_all d o c
      more ← start_workers m
      pure (es ++ more)

    -- `Start`: Start new configuration
    unfoldable pub start : Exec (Manager d) Error (List Error)
    unfolding start_clients start_workers
    start = do
      mark_clients d
      client_errors ← (λ w. start_clients w.config.clients w)
      client_sweep ← sweep_clients d
      mark_workers d
      worker_errors ← (λ w. start_workers w.config.workers w)
      worker_sweep ← sweep_workers d
      pure (client_errors ++ client_sweep ++ worker_errors ++ worker_sweep)

  -- `Stop`: Stop current configuration
  unfoldable pub stop : Exec (Manager d) Error (List Error)
  stop = do
    workers_errors ← worker_down d none
    clients_errors ← client_down d none
    pure (workers_errors ++ clients_errors)

  -- `Clean`: Clean unused workers
  unfoldable pub clean : Exec (Manager d) Error (List Error)
  clean = do
    workers_errors ← worker_clean d
    clients_errors ← client_clean d
    pure (workers_errors ++ clients_errors)

  -- `Panic`: Kill any running containers
  unfoldable pub panic_docker : Exec (Manager d) Error (Unit {0})
  panic_docker = docker (Docker.panic_all d) docker_failed
