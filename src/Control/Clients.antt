-- ===== src/Control/Clients.antt =====
-- control/clients.go: the clients, containers that give workers a network. A range over a map goes
-- over its entries in the order of the list, which stands for any order.
pub mod Lifecycle
pub mod Keeping
pub mod Status
use close.Prelude.{
  Assoc, Bool, Exec, List, Option, String, [], decimal, delete, done, failed, false, if◌then◌else◌,
  insert, lookup, none, not, pure, some, str_eq, suc, true, zero, ℕ, ◌&&◌, ◌++◌, ◌+◌, ◌==◌, ◌>>=◌,
  ◌>>◌, ◌||◌, ◌∷◌, ◌⧺◌,
}
use close.Docker.Id.{ContainerId}
use close.Docker.Config.{add_mount, empty_config, Config as DockerConfig}
use close.Docker.Daemon.{Daemon}
use close.Docker.Manager as Docker
use close.Util.StringSet.{add_env}
use close.Control.Types.{
  Client, ClientConfig, Error, Manager, Options, client_not_found, client_string, collect, docker,
  docker_clean, docker_down, docker_failed, docker_up,
}

-- the configuration of a client's container
unfoldable pub client_docker_config : Options → ClientConfig → Client → DockerConfig
client_docker_config o config client =
    let base : DockerConfig = record (empty_config) {
      image = config.image;
      privileged = config.privileged;
      env = add_env "CLOSE_INSTANCE" (client_string client) [];
    } in
    let bind : String =
      (if str_eq config.volume_fmt_id ""
        then config.volume_path
        else config.volume_path ⧺ o.sprintf config.volume_fmt_id client.instance_name) in
    if str_eq config.volume ""
    then base
    else add_mount config.volume bind config.volume_readonly base

-- the object that `clientUp` makes
unfoldable pub new_client : ClientConfig → String → Client
new_client config instance_name = record {
  config = some config;
  instance_name = instance_name;
  up = true;
  docker_id = record { class = "client"; type = config.name; instance_name = instance_name };
}

-- `docker.Down` on a client or worker that is not, or no longer, to be up
abbrev pub mark_client : Client → Client
mark_client c = record c { up = false }

unfoldable pub mark_all : Assoc Client → Assoc Client
mark_all [] = []
mark_all ((k, c) ∷ m) = (k, mark_client c) ∷ mark_all m

-- `config != nil && client.Config != config`, on pointers
unfoldable pub other_config : Option ClientConfig → Option ClientConfig → Bool
other_config none c = false
other_config (some wanted) none = true
other_config (some wanted) (some c) = not (wanted.pointer == c.pointer)

-- `configName != "" && (client.Config == nil || client.Config.name != configName)`
unfoldable pub other_name : String → Option ClientConfig → Bool
other_name name none = not (str_eq name "")
other_name name (some c) = not (str_eq name "") && not (str_eq c.name name)

-- `instance != "" && client.Instance != instance`
unfoldable pub other_instance : String → String → Bool
other_instance wanted instance_name = not (str_eq wanted "") && not (str_eq instance_name wanted)

module _ (d : Daemon) where
  unfoldable pub put_client : Client → Exec (Manager d) Error (Unit {0})
  put_client c w = (done tt, record w { clients = insert (client_string c) c w.clients })

  -- `discoverClient`
  unfoldable pub discover_client : ContainerId → Manager d → Client
  discover_client id w = record {
    config = lookup id.type w.config.clients;
    instance_name = id.instance_name;
    up = false;
    docker_id = id;
  }

  -- `markClients`: Mark all clients as down
  unfoldable pub mark_clients : Exec (Manager d) Error (Unit {0})
  unfolding mark_all
  mark_clients w = (done tt, record w { clients = mark_all w.clients })

  module _ (o : Options) where
    -- `clientUp`
    unfoldable pub client_up : ClientConfig → String → Exec (Manager d) Error Client
    unfolding new_client client_docker_config
    client_up config instance_name = do
      let client = new_client config instance_name
      docker (Docker.up d client.docker_id (client_docker_config o config client))
          (docker_up client.docker_id)
      pure client

    -- the turn of `ClientUp` for one index
    unfoldable pub client_up_at : ClientConfig → ℕ → Exec (Manager d) Error (List Error)
    unfolding put_client
    client_up_at config index =
        collect (do client ← client_up config (decimal index); put_client client)

    -- the loop of `ClientUp`: the indices from `index` on, `left` of them
    unfoldable pub client_up_from : ClientConfig → ℕ → ℕ → Exec (Manager d) Error (List Error)
    client_up_from config index zero = pure []
    client_up_from config index (suc left) = do
      es ← client_up_at config index
      more ← client_up_from config (index + 1) left
      pure (es ++ more)

    -- `ClientUp`: Start up all configured clients
    unfoldable pub client_up_all : ClientConfig → Exec (Manager d) Error (List Error)
    unfolding client_up_from
    client_up_all config = client_up_from config 1 config.count

  unfoldable pub down_client : Client → Exec (Manager d) Error (List Error)
  down_client c = collect (docker (Docker.down d c.docker_id) (docker_down c.docker_id))

  -- the range of `sweepClients`
  unfoldable pub sweep_over : Assoc Client → Exec (Manager d) Error (List Error)
  unfolding down_client
  sweep_over [] = pure []
  sweep_over ((k, c) ∷ m) = do
    es ← if c.up then pure [] else down_client c
    more ← sweep_over m
    pure (es ++ more)

  -- `sweepClients`: Stop any clients that are not configured to be up
  unfoldable pub sweep_clients : Exec (Manager d) Error (List Error)
  unfolding sweep_over
  sweep_clients w = sweep_over w.clients w

  unfoldable pub put_at : String → Client → Exec (Manager d) Error (Unit {0})
  put_at k c w = (done tt, record w { clients = insert k c w.clients })

  unfoldable pub delete_at : String → Exec (Manager d) Error (Unit {0})
  delete_at k w = (done tt, record w { clients = delete k w.clients })

  -- the turn of `ClientDown` for one entry that it does not skip
  unfoldable pub client_down_at : String → Client → Exec (Manager d) Error (List Error)
  unfolding down_client put_at
  client_down_at k c = do put_at k (mark_client c); down_client c

  -- the range of `ClientDown`
  unfoldable pub down_over :
      Option ClientConfig → Assoc Client → Exec (Manager d) Error (List Error)
  unfolding other_config
  down_over config [] = pure []
  down_over config ((k, c) ∷ m) = do
    es ← if other_config config c.config then pure [] else client_down_at k c
    more ← down_over config m
    pure (es ++ more)

  -- `ClientDown`: Stop running clients for given config
  unfoldable pub client_down : Option ClientConfig → Exec (Manager d) Error (List Error)
  unfolding down_over
  client_down config w = down_over config w.clients w

  -- the turn of `ClientClean` for one entry that is not up: the entry is deleted even if the container
  -- could not be removed
  unfoldable pub client_clean_at : String → Client → Exec (Manager d) Error (List Error)
  unfolding delete_at
  client_clean_at k c = do
    es ← collect (docker (Docker.clean d c.docker_id) (docker_clean c.docker_id))
    delete_at k
    pure es

  -- the range of `ClientClean`
  unfoldable pub clean_over : Assoc Client → Exec (Manager d) Error (List Error)
  clean_over [] = pure []
  clean_over ((k, c) ∷ m) = do
    es ← if c.up then pure [] else client_clean_at k c
    more ← clean_over m
    pure (es ++ more)

  -- `ClientClean`: Cleanup down'd clients
  unfoldable pub client_clean : Exec (Manager d) Error (List Error)
  unfolding clean_over
  client_clean w = clean_over w.clients w

  -- `GetClient`
  unfoldable pub get_client : String → String → Exec (Manager d) Error Client
  get_client config instance_name w =
      let name = config ⧺ (":" ⧺ instance_name) in
      elim (lookup name w.clients) [
        | none ↦ (failed (client_not_found name), w)
        | some c ↦ (done c, w)
      ]

  -- the turn of `ClientDelete` for one entry that it does not skip
  unfoldable pub client_delete_at : String → Client → Exec (Manager d) Error (Unit {0})
  unfolding delete_at
  client_delete_at k c = do docker (Docker.clean d c.docker_id) docker_failed; delete_at k

  -- the range of `ClientDelete`: the first failure ends it
  unfoldable pub delete_over : String → String → Assoc Client → Exec (Manager d) Error (Unit {0})
  unfolding other_name other_instance
  delete_over config instance_name [] = pure tt
  delete_over config instance_name ((k, c) ∷ m) = do
    (if other_name config c.config || other_instance instance_name c.instance_name
        then pure tt
        else client_delete_at k c)
    delete_over config instance_name m

  -- `ClientDelete`
  unfoldable pub client_delete : String → String → Exec (Manager d) Error (Unit {0})
  unfolding delete_over
  client_delete config instance_name w = delete_over config instance_name w.clients w
