-- ===== src/Docker/Manager.antt =====
-- docker/manager.go: the manager of the containers. Each method is an action on the daemon's state;
-- logging is left out.
pub mod Contract
pub mod Examples
use close.Prelude.{
  Exec, List, Option, Outcome, Result, String, [], attempt, done, err, failed, false, if◌then◌else◌,
  lift, none, ok, panic, pure, raise, some, str_eq, true, ℕ, ◌++◌, ◌>>=◌, ◌>>◌, ◌∷◌, ◌⧺◌,
}
use close.Docker.Id.{ContainerId, IdError, id_string, labels, parse_id}
use close.Docker.Daemon.{
  ApiContainer, ClientError, Daemon, container_not_running, no_such_container, other_error,
}
use close.Docker.Config.{Config, DockerContainer, config_equals, config_from_docker, create_options}
use close.Docker.Container.{
  Container, ContainerStatus, State, empty_status, from_docker_name, is_up, parse_status, running,
  state_status,
}

-- DOCKER_STOP_TIMEOUT, in seconds
abbrev pub docker_stop_timeout : ℕ
docker_stop_timeout = 10

pub data DockerError : Type 0 where
  inspect_failed list_failed remove_failed create_failed start_failed stop_failed kill_failed :
      ClientError → DockerError
  bad_id : IdError → DockerError
  bad_name : DockerError

-- The client's calls as actions, with the error that a method makes of a failure.
unfoldable pub outcome :
    {A : Type 0} → Result ClientError A → (ClientError → DockerError) → Outcome DockerError A
outcome (ok a) wrap = done a
outcome (err e) wrap = failed (wrap e)

module _ {S A : Type 0} where
  unfoldable pub call :
      (S → Result ClientError A × S) → (ClientError → DockerError) → Exec S DockerError A
  unfolding outcome
  call f wrap s = let (r, s') = f s in (outcome r wrap, s')

-- the filters of `List`
unfoldable pub label_filter : ContainerId → List String
label_filter filter =
    ((if str_eq filter.class "" then "close" else "close=" ⧺ filter.class) ∷ [])
    ++ ((if str_eq filter.type "" then [] else ("close.type=" ⧺ filter.type) ∷ [])
        ++ (if str_eq filter.instance_name ""
            then []
            else ("close.instance=" ⧺ filter.instance_name) ∷ []))

unfoldable pub name_or_bad :
    Option (Option String × String) → Result DockerError (Option String × String)
name_or_bad none = err bad_name
name_or_bad (some n) = ok n

unfoldable pub id_or_bad : Result IdError ContainerId → Result DockerError ContainerId
id_or_bad (ok id) = ok id
id_or_bad (err e) = err (bad_id e)

-- the node of the inspection, over that of the name; the empty text if there is neither
unfoldable pub node_of : Option String → Option String → String
node_of (some n) named = n
node_of none (some n) = n
node_of none none = ""

-- what `Up` knows of a container that it has created
unfoldable pub new_container : ContainerId → Config → String → Container
new_container id config container_id = record {
  status = record empty_status { id = id; container_id = container_id };
  config = config;
  running = false;
}

module _ (d : Daemon) where
  -- `Names[0]` panics on an empty list
  unfoldable pub first_name : List String → Exec d.State DockerError String
  first_name [] = panic
  first_name (n ∷ ns) = pure n

  -- `parseID` and `fromDockerList`
  unfoldable pub from_docker_list : ApiContainer → Exec d.State DockerError ContainerStatus
  unfolding first_name name_or_bad id_or_bad node_of
  from_docker_list c = do
    first ← first_name c.names
    id ← lift (id_or_bad (parse_id first c.labels))
    (node, name) ← lift (name_or_bad (from_docker_name first))
    let parsed = parse_status (d.match_status c.status)
    pure (record {
      id = id;
      container_id = c.container_id;
      node = node_of none node;
      name = name;
      status = c.status;
      state = parsed.0;
      exit_code = parsed.1;
    })

  unfoldable pub from_all : List ApiContainer → Exec d.State DockerError (List ContainerStatus)
  unfolding from_docker_list
  from_all [] = pure []
  from_all (c ∷ cs) = do
    container ← from_docker_list c
    containers ← from_all cs
    pure (container ∷ containers)

  -- `List`: Get short container status for given class
  unfoldable pub list : ContainerId → Exec d.State DockerError (List ContainerStatus)
  unfolding call label_filter from_all
  list filter = do
    containers ← call (d.list true (label_filter filter)) list_failed
    from_all containers

  unfoldable pub config_or_panic : Option Config → Exec d.State DockerError Config
  config_or_panic none = panic
  config_or_panic (some c) = pure c

  -- `parseID` and `update` with `fromDockerInspect`
  unfoldable pub from_inspect : DockerContainer → Exec d.State DockerError (Option Container)
  unfolding name_or_bad id_or_bad config_or_panic node_of
  from_inspect c = do
    id ← lift (id_or_bad (parse_id c.name c.labels))
    (node, name) ← lift (name_or_bad (from_docker_name c.name))
    config ← config_or_panic (config_from_docker d.unmarshal c)
    let status : ContainerStatus = record {
      id = id;
      container_id = c.container_id;
      node = node_of c.node node;
      name = name;
      status = c.state_text;
      state = state_status c;
      exit_code = c.exit_code;
    }
    pure (some (record { status = status; config = config; running = c.running }))

  unfoldable pub inspected :
      Result ClientError DockerContainer → Exec d.State DockerError (Option Container)
  unfolding from_inspect
  inspected (ok c) = from_inspect c
  inspected (err no_such_container) = pure none
  inspected (err container_not_running) = raise (inspect_failed container_not_running)
  inspected (err (other_error text)) = raise (inspect_failed (other_error text))

  -- `Get`: Get complete container state for given container
  unfoldable pub get : String → Exec d.State DockerError (Option Container)
  unfolding inspected
  get name s = let (r, s') = d.inspect name s in inspected r s'

  -- the check of `Up`: the container to keep, or none after one with another configuration is removed
  unfoldable pub check : Config → Option Container → Exec d.State DockerError (Option Container)
  unfolding call
  check config none = pure none
  check config (some c) =
      if config_equals config c.config
      then pure (some c)
      else (do call (d.remove c.status.container_id) remove_failed; pure none)

  -- a kept container, or a new one
  unfoldable pub ensure :
      ContainerId → Config → Option Container → Exec d.State DockerError Container
  unfolding call new_container
  ensure id config (some c) = pure c
  ensure id config none = do
    container_id ← call (d.create (create_options config id)) create_failed
    pure (new_container id config container_id)

  -- the container is started, unless it is up
  unfoldable pub ensure_running : Container → Exec d.State DockerError Container
  unfolding call
  ensure_running c = if is_up c.status then pure c else (do
    call (d.start c.status.container_id) start_failed
    pure (record c { status = record (c.status) { state = running }; running = true }))

  -- `Up`
  unfoldable pub up : ContainerId → Config → Exec d.State DockerError Container
  up id config = do
    found ← get (id_string id)
    kept ← check config found
    container ← ensure id config kept
    ensure_running container

  unfoldable pub stopped : Result ClientError (Unit {0}) → Exec d.State DockerError (Unit {0})
  stopped (ok u) = pure tt
  stopped (err container_not_running) = pure tt
  stopped (err no_such_container) = raise (stop_failed no_such_container)
  stopped (err (other_error text)) = raise (stop_failed (other_error text))

  -- `Down`: Stop docker container, if running. Ignored if already stopped.
  unfoldable pub down : ContainerId → Exec d.State DockerError (Unit {0})
  unfolding stopped
  down id s = let (r, s') = d.stop (id_string id) docker_stop_timeout s in stopped r s'

  -- the loop of `Panic`, with the last error so far
  unfoldable pub kill_all :
      Option DockerError → List ApiContainer → Exec d.State DockerError (Option DockerError)
  unfolding call first_name
  kill_all last [] = pure last
  kill_all last (c ∷ cs) = do
    r ← attempt (call (d.kill c.container_id 9) kill_failed)
    next ← elim r [ ok u ↦ (do first_name c.names; pure last) | err e ↦ pure (some e) ]
    kill_all next cs

  unfoldable pub or_raise : Option DockerError → Exec d.State DockerError (Unit {0})
  or_raise none = pure tt
  or_raise (some e) = raise e

  -- `Panic`: Force-kill all running managed containers
  unfoldable pub panic_all : Exec d.State DockerError (Unit {0})
  unfolding call kill_all or_raise
  panic_all = do
    containers ← call (d.list false ("close" ∷ [])) list_failed
    last ← kill_all none containers
    or_raise last

  -- `Clean`: Clean up a docker container, removing it.
  unfoldable pub clean : ContainerId → Exec d.State DockerError (Unit {0})
  unfolding call
  clean id = call (d.remove (id_string id)) remove_failed
