-- ===== src/Control/Clients/Status.antt =====
-- control/clients.go: the statuses of clients, read through a cache of the containers' statuses. The
-- text of an error, which is only shown, is left out: `docker_status` is empty with an error.
use close.Prelude.{
  Any, Assoc, Bool, Exec, List, Option, Outcome, Result, String, [], attempt, caught, continue,
  done, err, failed, if◌then◌else◌, inl, inr, none, ok, panic, panicked, pure, refl, some, true,
  ◌>>=◌, ◌∷◌, ◌≡◌, ◌≢◌,
}
use close.Docker.Id.{id_string}
use close.Docker.Container.{ContainerStatus, is_error, is_up}
use close.Docker.Daemon.{Daemon}
use close.Docker.Manager.{DockerError}
use close.Docker.Cache.{Cache, new_cache, get_status as cached_status}
use close.Control.Types.{Client, ClientConfig, Manager}

pub data ClientState : Type 0 where
  client_down client_up client_error : ClientState

pub record ClientStatus : Type 0 where
  pub config : String
  pub instance_name : String
  pub container_name : String  -- Docker
  pub docker_status : String
  pub docker_node : String
  pub up : Bool
  pub state : ClientState

-- the three tests on a container's status
unfoldable pub state_of : ContainerStatus → ClientState
state_of s = if is_up s then client_up else if is_error s then client_error else client_down

-- the status of a client whose configuration is there, by the answer of the cache
unfoldable pub status_of :
    ClientConfig → Client → Result {0, 0} DockerError (Option ContainerStatus) → ClientStatus
unfolding state_of
status_of config c (err e) = record {
  config = config.name;
  instance_name = c.instance_name;
  container_name = id_string c.docker_id;
  docker_status = "";
  docker_node = "";
  up = c.up;
  state = client_error;
}
status_of config c (ok none) = record {
  config = config.name;
  instance_name = c.instance_name;
  container_name = "";
  docker_status = "";
  docker_node = "";
  up = c.up;
  state = client_down;
}
status_of config c (ok (some s)) = record {
  config = config.name;
  instance_name = c.instance_name;
  container_name = id_string s.id;
  docker_status = s.status;
  docker_node = s.node;
  up = c.up;
  state = state_of s;
}

module _ (d : Daemon) where
  -- the status with the configuration that the client has: `client.Config.name` panics without one
  unfoldable pub status_with :
      Option ClientConfig → Client → Exec (Cache d) DockerError ClientStatus
  unfolding status_of
  status_with none c = panic
  status_with (some config) c = do
    r ← attempt (cached_status d c.docker_id)
    pure (status_of config c r)

  -- `GetStatus`
  unfoldable pub client_status : Client → Exec (Cache d) DockerError ClientStatus
  client_status c = status_with c.config c

  -- the range of `ListClients`
  unfoldable pub list_over : Assoc Client → Exec (Cache d) DockerError (List ClientStatus)
  list_over [] = pure []
  list_over ((k, c) ∷ m) = do s ← client_status c; ss ← list_over m; pure (s ∷ ss)

  -- `ListClients`, the answer alone
  unfoldable pub list_clients : Manager d → Outcome DockerError (List ClientStatus)
  unfolding list_over new_cache
  list_clients w = (list_over w.clients (new_cache d true w.docker)).0

  bind_panicked :
      {A B : Type 0} (m : Exec (Cache d) DockerError A) (f : A → Exec (Cache d) DockerError B)
      (s : Cache d)
      → (m s).0 ≡ panicked
      → ((m >>= f) s).0 ≡ panicked
  bind_panicked m f s e = rw e

  caught_lem :
      (r : Outcome DockerError (Option ContainerStatus)) (config : ClientConfig) (c : Client)
      (t : Cache d) (e : DockerError)
      → (continue (caught r) (λ r. pure (status_of config c r)) t).0 ≢ failed e
  caught_lem (done a) config c t e h = cc
  caught_lem (failed x) config c t e h = cc
  caught_lem panicked config c t e h = cc

  no_failure :
      (x : Option ClientConfig) (c : Client) (cache : Cache d) (e : DockerError)
      → (status_with x c cache).0 ≢ failed e
  unfolding status_with
  no_failure none c cache e h = cc
  no_failure (some config) c cache e h =
      let (r, t) = cached_status d c.docker_id cache in caught_lem r config c t e h

  over_panics :
      (m : Assoc Client) (cache : Cache d)
      → Any (λ e. e.1.config ≡ none) m
      → (list_over m cache).0 ≡ panicked
  unfolding list_over client_status status_with
  over_panics [] cache h = absurd h
  over_panics ((k, c) ∷ m) cache (inl e) =
      bind_panicked (client_status c) (λ s. list_over m >>= (λ ss. pure (s ∷ ss))) cache (rw e)
  over_panics ((k, c) ∷ m) cache (inr h) =
      go (client_status c cache).0 refl (client_status c cache).1 (λ t. over_panics m t h)
    where
      go :
          (o : Outcome DockerError ClientStatus)
          → (client_status c cache).0 ≡ o
          → (t : Cache d) → ((t' : Cache d) → (list_over m t').0 ≡ panicked)
          → (continue o (λ s. list_over m >>= (λ ss. pure (s ∷ ss))) t).0 ≡ panicked
      go (done s) e t ih = bind_panicked (list_over m) (λ ss. pure (s ∷ ss)) t (ih t)
      go (failed x) e t ih = absurd (no_failure c.config c cache x e)
      go panicked e t ih = refl

  -- A client without a configuration among the others makes `ListClients` panic, whatever the daemon
  -- answers.
  pub list_clients_panics :
      (w : Manager d) → Any (λ e. e.1.config ≡ none) w.clients → list_clients w ≡ panicked
  unfolding list_clients
  list_clients_panics w h = over_panics w.clients (new_cache d true w.docker) h
