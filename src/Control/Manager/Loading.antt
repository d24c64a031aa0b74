-- ===== src/Control/Manager/Loading.antt =====
-- What `loadConfig` makes of a decoded configuration.
use close.Prelude.{
  Assoc, List, Option, String, [], arith, done, eq_iff, inl, inr, lookup, none, refl, some, ◌∷◌,
  ◌≡◌, ◌≢◌, ◌⊎◌,
}
use close.Control.Types.{ClientConfig, Config, Manager, WorkerConfig}
use close.Control.Manager.{load_config, loaded, name_clients, name_workers, named, set_config}
use close.Docker.Daemon.{Daemon}

-- a configuration under its name
abbrev pub client_named : String → Option ClientConfig → Option ClientConfig
client_named k none = none
client_named k (some c) = some (record c { name = k })

abbrev pub worker_named : String → Option WorkerConfig → Option WorkerConfig
worker_named k none = none
worker_named k (some c) = some (record c { name = k })

lookup-name_clients :
    (k : String) (m : Assoc ClientConfig) → lookup k (name_clients m) ≡ client_named k (lookup k m)
unfolding lookup name_clients
lookup-name_clients k [] = refl
lookup-name_clients k ((i, c) ∷ m) = ground (arith, eq_iff i k, eq_iff k i, lookup-name_clients k m)

lookup-name_workers :
    (k : String) (m : Assoc WorkerConfig) → lookup k (name_workers m) ≡ worker_named k (lookup k m)
unfolding lookup name_workers
lookup-name_workers k [] = refl
lookup-name_workers k ((i, c) ∷ m) = ground (arith, eq_iff i k, eq_iff k i, lookup-name_workers k m)

module _ (d : Daemon) where
  -- A manager that has taken over a text and its configuration: each entry is named by its key, there are
  -- no others, and clients, workers and the daemon are as before.
  pub record HasLoaded (text : String) (c : Config) (w w' : Manager d) : Type 0 where
    pub same_text : w'.config_text ≡ text
    pub clients : (k : String) → lookup k w'.config.clients ≡ client_named k (lookup k c.clients)
    pub workers : (k : String) → lookup k w'.config.workers ≡ worker_named k (lookup k c.workers)
    pub same_clients : w'.clients ≡ w.clients
    pub same_workers : w'.workers ≡ w.workers
    pub same_docker : w'.docker ≡ w.docker

  -- `loadConfig` succeeds just on the texts that decode without a key left over, and then the manager has
  -- the text and the decoded configuration, each entry of which is named by its key, and its clients, its
  -- workers and the daemon are as before. On any other text it fails and leaves the manager as it was.
  pub load_config_lem :
      (decode : String → Option (Config × List String)) (text : String) (w : Manager d)
      → let (x, w') = load_config d decode text w in
        ((c : Config) × (decode text ≡ some (c, [])) × (x ≡ done tt) × HasLoaded text c w w')
        ⊎ (((c : Config) → decode text ≢ some (c, [])) × (x ≢ done tt) × (w' ≡ w))
  unfolding load_config loaded set_config named
  load_config_lem decode text w = go (decode text) refl
    where
      go :
          (o : Option (Config × List String))
          → decode text ≡ o
          → let (x, w') = loaded d text o w in
            ((c : Config) × (decode text ≡ some (c, [])) × (x ≡ done tt) × HasLoaded text c w w')
            ⊎ (((c : Config) → decode text ≢ some (c, [])) × (x ≢ done tt) × (w' ≡ w))
      go none e = inr (λ c q. cc, λ q. cc, refl)
      go (some (c, [])) e = inl (
        c,
        e,
        refl,
        record {
          same_text = refl;
          clients = λ k. lookup-name_clients k c.clients;
          workers = λ k. lookup-name_workers k c.workers;
          same_clients = refl;
          same_workers = refl;
          same_docker = refl;
        },
      )
      go (some (c, k ∷ ks)) e = inr (λ c' q. cc, λ q. cc, refl)
