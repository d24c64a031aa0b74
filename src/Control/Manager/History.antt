-- ===== src/Control/Manager/History.antt =====
-- The life of a manager: operations in any order.
use close.Prelude.{
  Assoc, Exec, List, Option, Result, String, [], attempt, done, err, if◌then◌else◌, none, ok, pure,
  some, str_eq, subst, sym, ◌++◌, ◌>>=◌, ◌>>◌, ◌∷◌, ◌≡◌,
}
use close.Control.Types.{
  ClientConfig, Config, Error, Manager, Options, Worker, WorkerConfig, docker, docker_failed,
}
use close.Control.Keeps.{Keeps, Keeps-append, Keeps-bind, Keeps-docker, Keeps-if, Maps}
use close.Control.Manager.{
  clean, discover, discover_at, discover_each, load_config, loaded, put_found_worker, set_config,
  start, start_clients, start_workers, stop,
}
use close.Control.Clients.{
  client_clean, client_down, client_up_all, discover_client, mark_clients, put_client,
  sweep_clients,
}
use close.Control.Workers.{
  discover_worker, mark_workers, sweep_workers, worker_clean, worker_down, worker_up_all,
}
use close.Docker.Manager as Docker
use close.Docker.Id.{no_id}
use close.Docker.Daemon.{Daemon}
use close.Control.Clients.Keeping.{
  client_clean-Keeps, client_down-Keeps, client_up_all-Keeps, mark_clients-Keeps, put_client-Keeps,
  sweep_clients-Keeps,
}
use close.Control.Workers.Keeping.{
  discover_worker-Keeps, mark_workers-Keeps, put_worker-Keeps, sweep_workers-Keeps,
  worker_clean-Keeps, worker_down-Keeps, worker_up_all-Keeps,
}
use close.Control.Entries.{IsMap}
use close.Control.Manager.Lifecycle.{stop_clean_empties}
use close.Docker.Container.{ContainerStatus}

module _ (d : Daemon) (o : Options) (decode : String → Option (Config × List String)) where
  -- the operations on the whole configuration
  pub data Operation : Type 0 where
    loads : String → Operation
    discovers starts stops cleans : Operation

  -- One operation; its errors are its answer, and the manager lives on.
  unfoldable pub operate : Operation → Manager d → Manager d
  operate (loads text) w = (load_config d decode text w).1
  operate discovers w = (discover d w).1
  operate starts w = (start d o w).1
  operate stops w = (stop d w).1
  operate cleans w = (clean d w).1

  unfoldable pub history : List Operation → Manager d → Manager d
  unfolding operate
  history [] w = w
  history (op ∷ ops) w = history ops (operate op w)

  start_clients-Keeps : (m : Assoc ClientConfig) → Keeps d (start_clients d o m)
  unfolding start_clients
  start_clients-Keeps [] = λ w h. h
  start_clients-Keeps ((k, c) ∷ m) =
      Keeps-append d (client_up_all d o c) (start_clients d o m) (client_up_all-Keeps d o c)
        (start_clients-Keeps m)

  start_workers-Keeps : (m : Assoc WorkerConfig) → Keeps d (start_workers d o m)
  unfolding start_workers
  start_workers-Keeps [] = λ w h. h
  start_workers-Keeps ((k, c) ∷ m) =
      Keeps-append d (worker_up_all d o c) (start_workers d o m) (worker_up_all-Keeps d o c)
        (start_workers-Keeps m)

  load_config-Keeps : (text : String) → Keeps d (load_config d decode text)
  unfolding load_config loaded set_config
  load_config-Keeps text w h = go (decode text)
    where
      go : (x : Option (Config × List String)) → Maps d (loaded d text x w).1
      go none = h
      go (some (c, [])) = h
      go (some (c, k ∷ ks)) = h

  put_found_worker-Keeps :
      (r : Result {0, 0} Error (Option Worker)) → Keeps d (put_found_worker d r)
  unfolding put_found_worker
  put_found_worker-Keeps (err e) = λ w h. h
  put_found_worker-Keeps (ok none) = λ w h. h
  put_found_worker-Keeps (ok (some c)) = put_worker-Keeps d c

  discover_at-Keeps : (c : ContainerStatus) → Keeps d (discover_at d c)
  unfolding discover_at
  discover_at-Keeps c =
      let as_client : Exec (Manager d) Error (Unit {0}) =
        λ w. put_client d (discover_client d c.id w) w in
      let as_worker : Exec (Manager d) Error (Unit {0}) =
        attempt (discover_worker d c.id) >>= put_found_worker d in
      Keeps-if d (str_eq c.id.class "client") as_client
        (if str_eq c.id.class "worker" then as_worker else pure tt)
        (λ w. put_client-Keeps d (discover_client d c.id w) w)
        (Keeps-if d (str_eq c.id.class "worker") as_worker (pure tt)
          (Keeps-bind d (attempt (discover_worker d c.id)) (put_found_worker d)
            (discover_worker-Keeps d c.id) put_found_worker-Keeps)
          (λ w h. h))

  discover_each-Keeps : (cs : List ContainerStatus) → Keeps d (discover_each d cs)
  unfolding discover_each
  discover_each-Keeps [] = λ w h. h
  discover_each-Keeps (c ∷ cs) =
      Keeps-bind d (discover_at d c) (λ _. discover_each d cs) (discover_at-Keeps c)
        (λ _. discover_each-Keeps cs)

  discover-Keeps : Keeps d (discover d)
  unfolding discover
  discover-Keeps =
      let listing = Docker.list d no_id in
      Keeps-bind d (docker listing docker_failed) (discover_each d)
        (Keeps-docker d listing docker_failed) discover_each-Keeps

  stop-Keeps : Keeps d (stop d)
  unfolding stop
  stop-Keeps =
      Keeps-append d (worker_down d none) (client_down d none) (worker_down-Keeps d none)
        (client_down-Keeps d none)

  clean-Keeps : Keeps d (clean d)
  unfolding clean
  clean-Keeps =
      Keeps-append d (worker_clean d) (client_clean d) (worker_clean-Keeps d) (client_clean-Keeps d)

  start-Keeps : Keeps d (start d o)
  unfolding start
  start-Keeps =
      let clients : Exec (Manager d) Error (List Error) =
        λ w. start_clients d o w.config.clients w in
      let workers : Exec (Manager d) Error (List Error) =
        λ w. start_workers d o w.config.workers w in
      let answer : List Error → List Error → List Error → Exec (Manager d) Error (List Error) =
        λ a b c. sweep_workers d >>= (λ e. pure (a ++ b ++ c ++ e)) in
      let second : List Error → List Error → Exec (Manager d) Error (List Error) =
        λ a b. mark_workers d >> (workers >>= answer a b) in
      let swept : List Error → Exec (Manager d) Error (List Error) =
        λ a. sweep_clients d >>= second a in
      Keeps-bind d (mark_clients d) (λ _. clients >>= swept) (mark_clients-Keeps d)
        (λ _.
          Keeps-bind d clients swept (λ w. start_clients-Keeps w.config.clients w)
            (λ a. Keeps-bind d (sweep_clients d) (second a) (sweep_clients-Keeps d) (λ b.
              Keeps-bind d (mark_workers d) (λ _. workers >>= answer a b) (mark_workers-Keeps d)
                (λ _.
                  Keeps-bind d workers (answer a b) (λ w. start_workers-Keeps w.config.workers w)
                    (λ c.
                      Keeps-bind d (sweep_workers d) (λ e. pure (a ++ b ++ c ++ e))
                        (sweep_workers-Keeps d) (λ e w h. h))))))

  operate-Maps : (op : Operation) (w : Manager d) → Maps d w → Maps d (operate op w)
  unfolding operate
  operate-Maps (loads text) w h = load_config-Keeps text w h
  operate-Maps discovers w h = discover-Keeps w h
  operate-Maps starts w h = start-Keeps w h
  operate-Maps stops w h = stop-Keeps w h
  operate-Maps cleans w h = clean-Keeps w h

  history-Maps : (ops : List Operation) (w : Manager d) → Maps d w → Maps d (history ops w)
  unfolding history
  history-Maps [] w h = h
  history-Maps (op ∷ ops) w h = history-Maps ops (operate op w) (operate-Maps op w h)

  -- After any sequence of loads, discoveries, starts, stops and cleans on a manager
  -- without clients and workers, whatever the daemon and the decoder answer, a `Stop` and a `Clean` run to their end and leave no client and no worker.
  pub history_ends :
      (ops : List Operation) (w : Manager d)
      → w.clients ≡ []
      → w.workers ≡ []
      → (es : List Error) × (s : d.State) × ((stop d >> clean d) (history ops w)
          ≡ (done es, record (history ops w) { docker = s; clients = []; workers = [] }))
  unfolding IsMap
  history_ends ops w ec ew =
      let (hc, hw) = history-Maps ops w (subst IsMap (sym ec) tt, subst IsMap (sym ew) tt) in
      stop_clean_empties d (history ops w) hc hw
