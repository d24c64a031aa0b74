-- ===== src/Docker/Cache.antt =====
-- docker/cache.go: the cache of container statuses that a listing uses. Its maps are lists of their
-- writes, the last one first.
pub mod Repeats
use close.Prelude.{
  Bool, Exec, List, Option, [], done, false, if◌then◌else◌, none, some, ◌>>=◌, ◌>>◌, ◌||◌, ◌∷◌,
}
use close.Docker.Id.{ContainerId, id_eq, id_string}
use close.Docker.Container.{Container, ContainerStatus, State}
use close.Docker.Daemon.{Daemon}
use close.Docker.Manager as Docker
use close.Docker.Manager.{DockerError, get, list}

-- `containerStatus[id]`
unfoldable pub status_at :
    ContainerId → List (ContainerId × ContainerStatus) → Option ContainerStatus
status_at id [] = none
status_at id ((i, s) ∷ entries) = if id_eq i id then some s else status_at id entries

-- `list[filter]`
unfoldable pub was_queried : ContainerId → List ContainerId → Bool
was_queried filter [] = false
was_queried filter (f ∷ fs) = id_eq f filter || was_queried filter fs

-- the range over the answer of `List`
unfoldable pub warm :
    List ContainerStatus
    → List (ContainerId × ContainerStatus)
    → List (ContainerId × ContainerStatus)
warm [] entries = entries
warm (s ∷ ss) entries = warm ss ((s.id, s) ∷ entries)

unfoldable pub query_filter : Bool → ContainerId → ContainerId
query_filter eager id =
    if eager then record { class = id.class; type = ""; instance_name = "" } else id

module _ (d : Daemon) where
  -- `Cache`, with the daemon's state
  pub record Cache : Type 0 where
    pub eager : Bool
    pub queries : List ContainerId  -- list
    pub statuses : List (ContainerId × ContainerStatus)
    pub docker : d.State

  -- `NewCache`
  unfoldable pub new_cache : Bool → d.State → Cache
  new_cache eager s = record { eager = eager; queries = []; statuses = []; docker = s }

  -- a method of the manager, under the cache
  unfoldable pub managed : {A : Type 0} → Exec d.State DockerError A → Exec Cache DockerError A
  managed m c = let (r, s) = m c.docker in (r, record c { docker = s })

  -- populate status cache aswell
  unfoldable pub keep_status : Option Container → Cache → Cache
  keep_status none c = c
  keep_status (some x) c = record c { statuses = (x.status.id, x.status) ∷ c.statuses }

  -- `GetContainer`: Get full container state.
  unfoldable pub get_container : ContainerId → Exec Cache DockerError (Option Container)
  unfolding managed keep_status
  get_container id = do
    found ← managed (Docker.get d (id_string id))
    (λ c. (done found, keep_status found c))

  -- the query, and the answer from the warm cache
  unfoldable pub fetch : ContainerId → Exec Cache DockerError (Option ContainerStatus)
  unfolding managed
  fetch id c =
      let filter = query_filter c.eager id in
      (managed (Docker.list d filter) >>= (λ found c'.
          let entries = warm found c'.statuses in
          (
            done (status_at id entries),
            record c' { queries = filter ∷ c'.queries; statuses = entries },
          )))
        c

  unfoldable pub unless_cached :
      ContainerId → Option ContainerStatus → Exec Cache DockerError (Option ContainerStatus)
  unfolding fetch
  unless_cached id (some s) c = (done (some s), c)
  unless_cached id none c =
      if was_queried (query_filter c.eager id) c.queries then (done none, c) else fetch id c

  -- `GetStatus`: Return docker container status, or nil if not exists.
  unfoldable pub get_status : ContainerId → Exec Cache DockerError (Option ContainerStatus)
  get_status id c = unless_cached id (status_at id c.statuses) c
