-- ===== src/Control/Workers/Keeping.antt =====
-- The operations on workers keep one entry for each name.
use close.Prelude.{
  Assoc, Exec, Option, Outcome, String, [], attempt, decimal, done, failed, false, if◌then◌else◌,
  lookup, none, pure, raise, refl, some, str_eq, suc, true, zero, ℕ, ◌+◌, ◌>>=◌, ◌>>◌, ◌∷◌, ◌≡◌,
  ◌⧺◌,
}
use close.Control.Types.{
  Client, Error, Manager, Options, Worker, WorkerConfig, client_not_found, collect, docker,
  docker_clean, docker_down, docker_up, get_sub, worker_string,
}
use close.Control.Entries.{IsMap, delete-IsMap, insert-IsMap}
use close.Control.Keeps.{
  Keeps, Keeps-append, Keeps-bind, Keeps-collect, Keeps-docker, Keeps-if, Maps,
}
use close.Control.Workers.{
  discover_worker, clean_over, config_id, delete_at, down_over, down_worker, get_sub_of, mark_all,
  mark_worker, mark_workers, new_worker, other_config, put_at, put_worker, sweep_over,
  sweep_workers, with_error, with_network, worker_clean, worker_clean_at, worker_docker_config,
  worker_down, worker_down_at, worker_up, worker_up_all, worker_up_at, worker_up_from,
}
use close.Docker.Daemon.{Daemon}
use close.Docker.Id.{ContainerId}
use close.Docker.Manager as Docker
use close.Config.Id.{ConfigId, invalid_id, valid}
use close.Control.Clients.{get_client}
use close.Docker.Config.{set_network_container, Config as DockerConfig}
use close.Docker.Container.{Container}

mark_all-IsMap : (m : Assoc Worker) → IsMap m → IsMap (mark_all m)
unfolding mark_all IsMap lookup
mark_all-IsMap [] h = h
mark_all-IsMap ((k, c) ∷ m) (h, g) = (absent m h, mark_all-IsMap m g)
  where
    absent : (r : Assoc Worker) → lookup k r ≡ none → lookup k (mark_all r) ≡ none
    absent [] e = refl
    absent ((i, x) ∷ r) e =
        elim (str_eq i k)
            as (λ t.
              (if t then some x else lookup k r) ≡ none
              → (if t then some (mark_worker x) else lookup k (mark_all r)) ≡ none) [
                | true ↦ (λ f. absurd (cc))
                | false ↦ (λ f. absent r f)
              ]
          e

module _ (d : Daemon) where
  pub mark_workers-Keeps : Keeps d (mark_workers d)
  unfolding mark_workers
  mark_workers-Keeps w (hc, hw) = (hc, mark_all-IsMap w.workers hw)

  pub put_worker-Keeps : (c : Worker) → Keeps d (put_worker d c)
  unfolding put_worker
  put_worker-Keeps c w (hc, hw) = (hc, insert-IsMap (worker_string c) c w.workers hw)

  put_at-Keeps : (k : String) (c : Worker) → Keeps d (put_at d k c)
  unfolding put_at
  put_at-Keeps k c w (hc, hw) = (hc, insert-IsMap k c w.workers hw)

  delete_at-Keeps : (k : String) → Keeps d (delete_at d k)
  unfolding delete_at
  delete_at-Keeps k w (hc, hw) = (hc, delete-IsMap k w.workers hw)

  down_worker-Keeps : (c : Worker) → Keeps d (down_worker d c)
  unfolding down_worker
  down_worker-Keeps c =
      Keeps-collect d (docker (Docker.down d c.docker_id) (docker_down c.docker_id))
        (Keeps-docker d (Docker.down d c.docker_id) (docker_down c.docker_id))

  sweep_over-Keeps : (m : Assoc Worker) → Keeps d (sweep_over d m)
  unfolding sweep_over
  sweep_over-Keeps [] = λ w h. h
  sweep_over-Keeps ((k, c) ∷ m) =
      Keeps-append d (if c.up then pure [] else down_worker d c) (sweep_over d m)
        (Keeps-if d c.up (pure []) (down_worker d c) (λ w h. h) (down_worker-Keeps c))
        (sweep_over-Keeps m)

  pub sweep_workers-Keeps : Keeps d (sweep_workers d)
  unfolding sweep_workers
  sweep_workers-Keeps w h = sweep_over-Keeps w.workers w h

  worker_down_at-Keeps : (k : String) (c : Worker) → Keeps d (worker_down_at d k c)
  unfolding worker_down_at
  worker_down_at-Keeps k c =
      Keeps-bind d (put_at d k (mark_worker c)) (λ _. down_worker d c)
        (put_at-Keeps k (mark_worker c)) (λ _. down_worker-Keeps c)

  down_over-Keeps :
      (config : Option WorkerConfig) (m : Assoc Worker) → Keeps d (down_over d config m)
  unfolding down_over
  down_over-Keeps config [] = λ w h. h
  down_over-Keeps config ((k, c) ∷ m) =
      Keeps-append d (if other_config config c.config then pure [] else worker_down_at d k c)
        (down_over d config m)
        (Keeps-if d (other_config config c.config) (pure []) (worker_down_at d k c) (λ w h. h)
          (worker_down_at-Keeps k c))
        (down_over-Keeps config m)

  pub worker_down-Keeps : (config : Option WorkerConfig) → Keeps d (worker_down d config)
  unfolding worker_down
  worker_down-Keeps config w h = down_over-Keeps config w.workers w h

  worker_clean_at-Keeps : (k : String) (c : Worker) → Keeps d (worker_clean_at d k c)
  unfolding worker_clean_at
  worker_clean_at-Keeps k c =
      let cleaning = docker (Docker.clean d c.docker_id) (docker_clean c.docker_id) in
      Keeps-bind d (collect cleaning) (λ es. delete_at d k >> pure es)
        (Keeps-collect d cleaning
          (Keeps-docker d (Docker.clean d c.docker_id) (docker_clean c.docker_id)))
        (λ es. Keeps-bind d (delete_at d k) (λ _. pure es) (delete_at-Keeps k) (λ _ w h. h))

  clean_over-Keeps : (m : Assoc Worker) → Keeps d (clean_over d m)
  unfolding clean_over
  clean_over-Keeps [] = λ w h. h
  clean_over-Keeps ((k, c) ∷ m) =
      Keeps-append d (if c.up then pure [] else worker_clean_at d k c) (clean_over d m)
        (Keeps-if d c.up (pure []) (worker_clean_at d k c) (λ w h. h) (worker_clean_at-Keeps k c))
        (clean_over-Keeps m)

  pub worker_clean-Keeps : Keeps d (worker_clean d)
  unfolding worker_clean
  worker_clean-Keeps w h = clean_over-Keeps w.workers w h

  get_sub_of-Keeps : (id : ConfigId) → Keeps d (get_sub_of id)
  unfolding get_sub_of
  get_sub_of-Keeps id =
      Keeps-if d (valid id) (pure id) (raise (get_sub (invalid_id id))) (λ w h. h) (λ w h. h)

  pub discover_worker-Keeps : (id : ContainerId) → Keeps d (discover_worker d id)
  unfolding discover_worker
  discover_worker-Keeps id w h = go (lookup id.type w.config.workers)
    where
      found : WorkerConfig → Worker
      found config = record {
        config = some config;
        instance_name = id.instance_name;
        up = false;
        docker_id = id;
        config_sub = none;
      }

      go :
          (o : Option WorkerConfig)
          → Maps d
              (elim o as (λ _. Outcome Error (Option Worker) × Manager d) [
                | none ↦ (done none, w)
                | some config ↦
                    (get_sub_of (config_id config (found config))
                        >>= (λ sub. pure (some (record (found config) { config_sub = some sub }))))
                      w
              ]).1
      go none = h
      go (some config) =
          Keeps-bind d (get_sub_of (config_id config (found config)))
            (λ sub. pure (some (record (found config) { config_sub = some sub })))
            (get_sub_of-Keeps (config_id config (found config))) (λ sub w h. h) w h

  get_client-Keeps : (config instance_name : String) → Keeps d (get_client d config instance_name)
  unfolding get_client
  get_client-Keeps config instance_name w h =
      elim (lookup (config ⧺ (":" ⧺ instance_name)) w.clients)
        as (λ o.
          Maps d
            (elim o as (λ _. Outcome Error Client × Manager d) [
              | none ↦ (failed (client_not_found (config ⧺ (":" ⧺ instance_name))), w)
              | some c ↦ (done c, w)
            ]).1) [ none ↦ h | some c ↦ h ]

  with_network-Keeps :
      (config : WorkerConfig) (instance_name : String) (c : DockerConfig)
      → Keeps d (with_network d config instance_name c)
  unfolding with_network
  with_network-Keeps config instance_name c =
      let looked : Exec (Manager d) Error DockerConfig =
        get_client d config.client instance_name
        >>= (λ client. pure (set_network_container client.docker_id c)) in
      Keeps-if d (str_eq config.client "") (pure c) looked (λ w h. h)
        (Keeps-bind d (get_client d config.client instance_name)
          (λ client. pure (set_network_container client.docker_id c))
          (get_client-Keeps config.client instance_name) (λ client w h. h))

  module _ (o : Options) where
    worker_up-Keeps :
        (config : WorkerConfig) (instance_name : String)
        → Keeps d (worker_up d o config instance_name)
    unfolding worker_up
    worker_up-Keeps config instance_name =
        let worker = new_worker config instance_name in
        let starting : DockerConfig → Exec (Manager d) Error Container =
          λ c. docker (Docker.up d worker.docker_id c) (docker_up worker.docker_id) in
        let rest : DockerConfig → Exec (Manager d) Error ConfigId =
          λ c. starting c >> get_sub_of (config_id config worker) in
        let network = with_network d config instance_name (worker_docker_config o config worker) in
        Keeps-bind d (attempt (network >>= rest)) (λ r. pure (with_error worker r))
          (Keeps-bind d network rest
            (with_network-Keeps config instance_name (worker_docker_config o config worker))
            (λ c.
              Keeps-bind d (starting c) (λ _. get_sub_of (config_id config worker))
                (Keeps-docker d (Docker.up d worker.docker_id c) (docker_up worker.docker_id))
                (λ _. get_sub_of-Keeps (config_id config worker))))
          (λ r w h. h)

    worker_up_at-Keeps :
        (config : WorkerConfig) (index : ℕ) → Keeps d (worker_up_at d o config index)
    unfolding worker_up_at
    worker_up_at-Keeps config index =
        Keeps-bind d (worker_up d o config (decimal index)) (λ r. put_worker d r.0 >> pure r.1)
          (worker_up-Keeps config (decimal index))
          (λ r. Keeps-bind d (put_worker d r.0) (λ _. pure r.1) (put_worker-Keeps r.0) (λ _ w h. h))

    worker_up_from-Keeps :
        (config : WorkerConfig) (index left : ℕ) → Keeps d (worker_up_from d o config index left)
    unfolding worker_up_from
    worker_up_from-Keeps config index zero = λ w h. h
    worker_up_from-Keeps config index (suc left) =
        Keeps-append d (worker_up_at d o config index) (worker_up_from d o config (index + 1) left)
          (worker_up_at-Keeps config index) (worker_up_from-Keeps config (index + 1) left)

    pub worker_up_all-Keeps : (config : WorkerConfig) → Keeps d (worker_up_all d o config)
    unfolding worker_up_all
    worker_up_all-Keeps config = worker_up_from-Keeps config 1 config.count
