-- ===== src/Docker/Manager/Examples.antt =====
-- A daemon that has no containers, counts the ones that are created, and starts each.
use close.Prelude.{[], err, none, ok, refl, true, ℕ, ◌+◌, ◌∷◌, ◌≡◌}
use close.Docker.Daemon.{Daemon, no_such_container}
use close.Docker.Cache.{Cache}
use close.Docker.Manager.{
  call, check, ensure, ensure_running, get, inspected, new_container, outcome, up,
}
use close.Docker.Manager.Contract.{up_done}
use close.Docker.Config.{Config, config_equals, empty_config}
use close.Docker.Container.{Container, empty_status, is_up, running}
use close.Docker.Id.{ContainerId}

abbrev pub empty_daemon : Daemon
empty_daemon = record {
  State = ℕ;
  inspect = λ name s. (err no_such_container, s);
  list = λ all filter s. (ok [], s);
  create = λ options s. (ok "c1", s + 1);
  start = λ id s. (ok tt, s);
  stop = λ id timeout s. (err no_such_container, s);
  remove = λ id s. (err no_such_container, s);
  kill = λ id signal s. (ok tt, s);
  match_status = λ text. none;
  unmarshal = λ text. none;
}

abbrev ping : ContainerId
ping = record { class = "worker"; type = "ping"; instance_name = "1" }

abbrev wanted : Config
wanted = record (empty_config) { image = "close" }

abbrev started : Container
started = record {
  status = record empty_status { id = ping; container_id = "c1"; state = running };
  config = wanted;
  running = true;
}

up_done_example :
    (config_equals wanted started.config ≡ true)
    × (is_up started.status ≡ true)
    × (started.running ≡ true)
unfolding up get check ensure ensure_running inspected call outcome new_container is_up
up_done_example = up_done empty_daemon ping wanted 0 started refl

abbrev asked : Cache empty_daemon
asked = record {
  eager = true;
  queries = record { class = "worker"; type = ""; instance_name = "" } ∷ [];
  statuses = [];
  docker = 0;
}
