-- ===== src/Control/Workers.antt =====
-- control/worker.go: the workers, containers that generate load and that are configured through Redis.
-- A range over a map goes over its entries in the order of the list, which stands for any order.
pub mod Lifecycle
pub mod Keeping
pub mod Cache
pub mod Status
pub mod Examples
use close.Prelude.{
  Assoc, Bool, Exec, List, Option, Result, String, [], attempt, decimal, delete, done, err, false,
  if◌then◌else◌, insert, lookup, none, not, ok, pure, raise, some, str_eq, suc, true, zero, ℕ, ◌&&◌,
  ◌++◌, ◌+◌, ◌==◌, ◌>>=◌, ◌>>◌, ◌||◌, ◌∷◌,
}
use close.Config.Id.{ConfigId, invalid_id, valid}
use close.Docker.Id.{ContainerId}
use close.Docker.Config.{
  add_arg, add_flag, empty_config, set_network_container, Config as DockerConfig,
}
use close.Docker.Daemon.{Daemon}
use close.Docker.Manager as Docker
use close.Util.StringSet.{add_env, set as constraint_set}
use close.Control.Types.{
  Error, Manager, Options, Worker, WorkerConfig, collect, docker, docker_clean, docker_down,
  docker_failed, docker_up, get_sub, worker_string,
}
use close.Control.Clients.{get_client}

-- `Worker.configID`, of a worker with a configuration
unfoldable pub config_id : WorkerConfig → Worker → ConfigId
config_id config worker = record { type = config.type; instance_name = worker_string worker }

-- `Redis.GetSub`
unfoldable pub get_sub_of : {S : Type 0} → ConfigId → Exec S Error ConfigId
get_sub_of id = if valid id then pure id else raise (get_sub (invalid_id id))

-- the configuration of a worker's container, but for its network
unfoldable pub worker_docker_config : Options → WorkerConfig → Worker → DockerConfig
worker_docker_config o config worker =
    let name = worker_string worker in
    let base : DockerConfig = record (empty_config) {
      image = config.image;
      command = config.command;
      privileged = config.privileged;
      env =
          add_env "REDIS_URL" o.redis_url
            (add_env "INFLUXDB_URL" o.influx_url (add_env "CLOSE_INSTANCE" name []));
    } in
    let flagged : DockerConfig =
      (if str_eq config.instance_flag "" then base else add_flag config.instance_flag name base) in
    record (add_arg config.args flagged) { constraints = constraint_set config.constraints }

-- the object that `workerUp` makes first
unfoldable pub new_worker : WorkerConfig → String → Worker
new_worker config instance_name = record {
  config = some config;
  instance_name = instance_name;
  up = true;
  docker_id = record { class = "worker"; type = config.name; instance_name = instance_name };
  config_sub = none;
}

-- what `workerUp` returns: the worker, also with an error
unfoldable pub with_error : Worker → Result {0, 0} Error ConfigId → Worker × List Error
with_error worker (ok sub) = (record worker { config_sub = some sub }, [])
with_error worker (err e) = (worker, e ∷ [])

abbrev pub mark_worker : Worker → Worker
mark_worker w = record w { up = false }

unfoldable pub mark_all : Assoc Worker → Assoc Worker
mark_all [] = []
mark_all ((k, c) ∷ m) = (k, mark_worker c) ∷ mark_all m

-- `config != nil && worker.Config != config`, on pointers
unfoldable pub other_config : Option WorkerConfig → Option WorkerConfig → Bool
other_config none c = false
other_config (some wanted) none = true
other_config (some wanted) (some c) = not (wanted.pointer == c.pointer)

-- `configName != "" && (worker.Config == nil || worker.Config.name != configName)`
unfoldable pub other_name : String → Option WorkerConfig → Bool
other_name name none = not (str_eq name "")
other_name name (some c) = not (str_eq name "") && not (str_eq c.name name)

-- `instance != "" && worker.Instance != instance`
unfoldable pub other_instance : String → String → Bool
other_instance wanted instance_name = not (str_eq wanted "") && not (str_eq instance_name wanted)

module _ (d : Daemon) where
  unfoldable pub put_worker : Worker → Exec (Manager d) Error (Unit {0})
  put_worker c w = (done tt, record w { workers = insert (worker_string c) c w.workers })

  -- `discoverWorker`, none for a worker that is not configured
  unfoldable pub discover_worker : ContainerId → Exec (Manager d) Error (Option Worker)
  unfolding get_sub_of config_id
  discover_worker id w = elim (lookup id.type w.config.workers) [
    | none ↦ (done none, w)
    | some config ↦
        (let worker : Worker = record {
          config = some config;
          instance_name = id.instance_name;
          up = false;
          docker_id = id;
          config_sub = none;
        } in
          (do
            sub ← get_sub_of (config_id config worker)
            pure (some (record worker { config_sub = some sub })))
            w)
  ]

  -- the network of the worker's client
  unfoldable pub with_network :
      WorkerConfig → String → DockerConfig → Exec (Manager d) Error DockerConfig
  with_network config instance_name c = if str_eq config.client "" then pure c else (do
    client ← get_client d config.client instance_name
    pure (set_network_container client.docker_id c))

  module _ (o : Options) where
    -- `workerUp`
    unfoldable pub worker_up : WorkerConfig → String → Exec (Manager d) Error (Worker × List Error)
    unfolding new_worker worker_docker_config with_network get_sub_of config_id with_error
    worker_up config instance_name = do
      let worker = new_worker config instance_name
      r ← attempt (do
        docker_config ← with_network config instance_name (worker_docker_config o config worker)
        docker (Docker.up d worker.docker_id docker_config) (docker_up worker.docker_id)
        get_sub_of (config_id config worker))
      pure (with_error worker r)

    -- the turn of `WorkerUp` for one index: the worker is kept even if it failed
    unfoldable pub worker_up_at : WorkerConfig → ℕ → Exec (Manager d) Error (List Error)
    unfolding put_worker
    worker_up_at config index = do
      (worker, es) ← worker_up config (decimal index)
      put_worker worker
      pure es

    -- the loop of `WorkerUp`: the indices from `index` on, `left` of them
    unfoldable pub worker_up_from : WorkerConfig → ℕ → ℕ → Exec (Manager d) Error (List Error)
    worker_up_from config index zero = pure []
    worker_up_from config index (suc left) = do
      es ← worker_up_at config index
      more ← worker_up_from config (index + 1) left
      pure (es ++ more)

    -- `WorkerUp`: Setup workers from config
    unfoldable pub worker_up_all : WorkerConfig → Exec (Manager d) Error (List Error)
    unfolding worker_up_from
    worker_up_all config = worker_up_from config 1 config.count

  -- `markWorkers`: Mark all workers for sweep
  unfoldable pub mark_workers : Exec (Manager d) Error (Unit {0})
  unfolding mark_all
  mark_workers w = (done tt, record w { workers = mark_all w.workers })

  unfoldable pub down_worker : Worker → Exec (Manager d) Error (List Error)
  down_worker c = collect (docker (Docker.down d c.docker_id) (docker_down c.docker_id))

  -- the range of `sweepWorkers`
  unfoldable pub sweep_over : Assoc Worker → Exec (Manager d) Error (List Error)
  unfolding down_worker
  sweep_over [] = pure []
  sweep_over ((k, c) ∷ m) = do
    es ← if c.up then pure [] else down_worker c
    more ← sweep_over m
    pure (es ++ more)

  -- `sweepWorkers`: Stop any workers that are not configured, or are marked
  unfoldable pub sweep_workers : Exec (Manager d) Error (List Error)
  unfolding sweep_over
  sweep_workers w = sweep_over w.workers w

  unfoldable pub put_at : String → Worker → Exec (Manager d) Error (Unit {0})
  put_at k c w = (done tt, record w { workers = insert k c w.workers })

  unfoldable pub delete_at : String → Exec (Manager d) Error (Unit {0})
  delete_at k w = (done tt, record w { workers = delete k w.workers })

  -- the turn of `WorkerDown` for one entry that it does not skip
  unfoldable pub worker_down_at : String → Worker → Exec (Manager d) Error (List Error)
  unfolding down_worker put_at
  worker_down_at k c = do put_at k (mark_worker c); down_worker c

  -- the range of `WorkerDown`
  unfoldable pub down_over :
      Option WorkerConfig → Assoc Worker → Exec (Manager d) Error (List Error)
  unfolding other_config
  down_over config [] = pure []
  down_over config ((k, c) ∷ m) = do
    es ← if other_config config c.config then pure [] else worker_down_at k c
    more ← down_over config m
    pure (es ++ more)

  -- `WorkerDown`: Stop running workers for given config
  unfoldable pub worker_down : Option WorkerConfig → Exec (Manager d) Error (List Error)
  unfolding down_over
  worker_down config w = down_over config w.workers w

  -- the turn of `WorkerClean` for one entry that is not up: the entry is deleted even if the container
  -- could not be removed
  unfoldable pub worker_clean_at : String → Worker → Exec (Manager d) Error (List Error)
  unfolding delete_at
  worker_clean_at k c = do
    es ← collect (docker (Docker.clean d c.docker_id) (docker_clean c.docker_id))
    delete_at k
    pure es

  -- the range of `WorkerClean`
  unfoldable pub clean_over : Assoc Worker → Exec (Manager d) Error (List Error)
  clean_over [] = pure []
  clean_over ((k, c) ∷ m) = do
    es ← if c.up then pure [] else worker_clean_at k c
    more ← clean_over m
    pure (es ++ more)

  -- `WorkerClean`: Cleanup down'd workers
  unfoldable pub worker_clean : Exec (Manager d) Error (List Error)
  unfolding clean_over
  worker_clean w = clean_over w.workers w

  -- the turn of `WorkerDelete` for one entry that it does not skip
  unfoldable pub worker_delete_at : String → Worker → Exec (Manager d) Error (Unit {0})
  unfolding delete_at
  worker_delete_at k c = do docker (Docker.clean d c.docker_id) docker_failed; delete_at k

  -- the range of `WorkerDelete`: the first failure ends it
  unfoldable pub delete_over : String → String → Assoc Worker → Exec (Manager d) Error (Unit {0})
  unfolding other_name other_instance
  delete_over config instance_name [] = pure tt
  delete_over config instance_name ((k, c) ∷ m) = do
    (if other_name config c.config || other_instance instance_name c.instance_name
        then pure tt
        else worker_delete_at k c)
    delete_over config instance_name m

  -- `WorkerDelete`
  unfoldable pub worker_delete : String → String → Exec (Manager d) Error (Unit {0})
  unfolding delete_over
  worker_delete config instance_name w = delete_over config instance_name w.workers w
