-- ===== src/Control/Manager/Examples.antt =====
-- A manager with a client and a worker, on a daemon that knows neither of them.
use close.Prelude.{
  ◌≢◌, ◌⊎◌, List, Option, String, [], done, false, inl, lookup, none, panicked, refl, some, true, ℕ,
  ◌>>◌, ◌∷◌, ◌≡◌,
}
use close.Control.Types.{Client, ClientConfig, Config, Error, Manager, Options, Worker}
use close.Control.Entries.{IsMap}
use close.Control.Manager.{load_config, clean, stop}
use close.Control.Manager.Loading.{HasLoaded, load_config_lem}
use close.Control.Manager.History.{Operation, discovers, history, history_ends, loads, starts}
use close.Docker.Manager.Examples.{empty_daemon}
use close.Control.Clients.Status.{list_clients, list_clients_panics}

abbrev vpn : Client
vpn = record {
  config = none;
  instance_name = "1";
  up = true;
  docker_id = record { class = "client"; type = "vpn"; instance_name = "1" };
}

abbrev ping : Worker
ping = record {
  config = none;
  instance_name = "1";
  up = false;
  docker_id = record { class = "worker"; type = "ping"; instance_name = "1" };
  config_sub = none;
}

abbrev pub manager : Manager empty_daemon
manager = record {
  config_text = "";
  config = record { clients = []; workers = [] };
  clients = ("vpn:1", vpn) ∷ [];
  workers = ("ping:1", ping) ∷ [];
  docker = 0;
}

pub clients-IsMap : IsMap manager.clients
unfolding IsMap lookup
clients-IsMap = (refl, tt)

pub workers-IsMap : IsMap manager.workers
unfolding IsMap lookup
workers-IsMap = (refl, tt)

abbrev undecoded : String → Option (Config × List String)
undecoded text = some (record { clients = []; workers = [] }, "Typo" ∷ [])

list_clients_panics_example : list_clients empty_daemon manager ≡ panicked
list_clients_panics_example = list_clients_panics empty_daemon manager (inl refl)

abbrev options : Options
options = record {
  influx_url = "http://influx";
  redis_url = "redis://";
  sprintf = λ format text. text;
}

abbrev one_client : String → Option (Config × List String)
one_client text = some (record { clients = ("vpn", vpn_config) ∷ []; workers = [] }, [])
  where
    vpn_config : ClientConfig
    vpn_config = record {
      pointer = 1;
      name = "";
      count = 2;
      image = "vpn";
      privileged = true;
      volume = "";
      volume_path = "";
      volume_fmt_id = "";
      volume_readonly = false;
    }

abbrev new_manager : Manager empty_daemon
new_manager = record manager { clients = []; workers = [] }

abbrev morning : List (Operation empty_daemon options one_client)
morning = discovers ∷ loads "x" ∷ starts ∷ []

history_ends_example :
    (es : List Error) × (s : ℕ) × ((stop empty_daemon >> clean empty_daemon)
        (history empty_daemon options one_client morning new_manager)
      ≡ (
        done es,
        record (history empty_daemon options one_client morning new_manager) {
          docker = s;
          clients = [];
          workers = [];
        },
      ))
history_ends_example = history_ends empty_daemon options one_client morning new_manager refl refl

load_config_lem_example :
    let (x, w') = load_config empty_daemon one_client "x" manager in
    ((c : Config) × (one_client "x" ≡ some (c, []))
      × (x ≡ done tt)
      × HasLoaded empty_daemon "x" c manager w')
    ⊎ (((c : Config) → one_client "x" ≢ some (c, [])) × (x ≢ done tt) × (w' ≡ manager))
load_config_lem_example = load_config_lem empty_daemon one_client "x" manager
