-- ===== src/Control/Clients/Keeping.antt =====
-- The operations on clients keep one entry for each name.
use close.Prelude.{
  Assoc, Option, String, [], decimal, false, if◌then◌else◌, lookup, none, pure, refl, some, str_eq,
  suc, true, zero, ℕ, ◌+◌, ◌>>=◌, ◌>>◌, ◌∷◌, ◌≡◌,
}
use close.Control.Types.{
  Client, ClientConfig, Options, client_string, collect, docker, docker_clean, docker_down,
  docker_up,
}
use close.Control.Entries.{IsMap, delete-IsMap, insert-IsMap}
use close.Control.Keeps.{Keeps, Keeps-append, Keeps-bind, Keeps-collect, Keeps-docker, Keeps-if}
use close.Control.Clients.{
  clean_over, client_clean, client_clean_at, client_docker_config, client_down, client_down_at,
  client_up, client_up_all, client_up_at, client_up_from, delete_at, down_client, down_over,
  mark_all, mark_client, mark_clients, new_client, other_config, put_at, put_client, sweep_clients,
  sweep_over,
}
use close.Docker.Daemon.{Daemon}
use close.Docker.Manager as Docker

mark_all-IsMap : (m : Assoc Client) → IsMap m → IsMap (mark_all m)
unfolding mark_all IsMap lookup
mark_all-IsMap [] h = h
mark_all-IsMap ((k, c) ∷ m) (h, g) = (absent m h, mark_all-IsMap m g)
  where
    absent : (r : Assoc Client) → lookup k r ≡ none → lookup k (mark_all r) ≡ none
    absent [] e = refl
    absent ((i, x) ∷ r) e =
        elim (str_eq i k)
            as (λ t.
              (if t then some x else lookup k r) ≡ none
              → (if t then some (mark_client x) else lookup k (mark_all r)) ≡ none) [
                | true ↦ (λ f. absurd (cc))
                | false ↦ (λ f. absent r f)
              ]
          e

module _ (d : Daemon) where
  pub mark_clients-Keeps : Keeps d (mark_clients d)
  unfolding mark_clients
  mark_clients-Keeps w (hc, hw) = (mark_all-IsMap w.clients hc, hw)

  pub put_client-Keeps : (c : Client) → Keeps d (put_client d c)
  unfolding put_client
  put_client-Keeps c w (hc, hw) = (insert-IsMap (client_string c) c w.clients hc, hw)

  put_at-Keeps : (k : String) (c : Client) → Keeps d (put_at d k c)
  unfolding put_at
  put_at-Keeps k c w (hc, hw) = (insert-IsMap k c w.clients hc, hw)

  delete_at-Keeps : (k : String) → Keeps d (delete_at d k)
  unfolding delete_at
  delete_at-Keeps k w (hc, hw) = (delete-IsMap k w.clients hc, hw)

  down_client-Keeps : (c : Client) → Keeps d (down_client d c)
  unfolding down_client
  down_client-Keeps c =
      Keeps-collect d (docker (Docker.down d c.docker_id) (docker_down c.docker_id))
        (Keeps-docker d (Docker.down d c.docker_id) (docker_down c.docker_id))

  sweep_over-Keeps : (m : Assoc Client) → Keeps d (sweep_over d m)
  unfolding sweep_over
  sweep_over-Keeps [] = λ w h. h
  sweep_over-Keeps ((k, c) ∷ m) =
      Keeps-append d (if c.up then pure [] else down_client d c) (sweep_over d m)
        (Keeps-if d c.up (pure []) (down_client d c) (λ w h. h) (down_client-Keeps c))
        (sweep_over-Keeps m)

  pub sweep_clients-Keeps : Keeps d (sweep_clients d)
  unfolding sweep_clients
  sweep_clients-Keeps w h = sweep_over-Keeps w.clients w h

  client_down_at-Keeps : (k : String) (c : Client) → Keeps d (client_down_at d k c)
  unfolding client_down_at
  client_down_at-Keeps k c =
      Keeps-bind d (put_at d k (mark_client c)) (λ _. down_client d c)
        (put_at-Keeps k (mark_client c)) (λ _. down_client-Keeps c)

  down_over-Keeps :
      (config : Option ClientConfig) (m : Assoc Client) → Keeps d (down_over d config m)
  unfolding down_over
  down_over-Keeps config [] = λ w h. h
  down_over-Keeps config ((k, c) ∷ m) =
      Keeps-append d (if other_config config c.config then pure [] else client_down_at d k c)
        (down_over d config m)
        (Keeps-if d (other_config config c.config) (pure []) (client_down_at d k c) (λ w h. h)
          (client_down_at-Keeps k c))
        (down_over-Keeps config m)

  pub client_down-Keeps : (config : Option ClientConfig) → Keeps d (client_down d config)
  unfolding client_down
  client_down-Keeps config w h = down_over-Keeps config w.clients w h

  client_clean_at-Keeps : (k : String) (c : Client) → Keeps d (client_clean_at d k c)
  unfolding client_clean_at
  client_clean_at-Keeps k c =
      let cleaning = docker (Docker.clean d c.docker_id) (docker_clean c.docker_id) in
      Keeps-bind d (collect cleaning) (λ es. delete_at d k >> pure es)
        (Keeps-collect d cleaning
          (Keeps-docker d (Docker.clean d c.docker_id) (docker_clean c.docker_id)))
        (λ es. Keeps-bind d (delete_at d k) (λ _. pure es) (delete_at-Keeps k) (λ _ w h. h))

  clean_over-Keeps : (m : Assoc Client) → Keeps d (clean_over d m)
  unfolding clean_over
  clean_over-Keeps [] = λ w h. h
  clean_over-Keeps ((k, c) ∷ m) =
      Keeps-append d (if c.up then pure [] else client_clean_at d k c) (clean_over d m)
        (Keeps-if d c.up (pure []) (client_clean_at d k c) (λ w h. h) (client_clean_at-Keeps k c))
        (clean_over-Keeps m)

  pub client_clean-Keeps : Keeps d (client_clean d)
  unfolding client_clean
  client_clean-Keeps w h = clean_over-Keeps w.clients w h

  module _ (o : Options) where
    client_up_at-Keeps :
        (config : ClientConfig) (index : ℕ) → Keeps d (client_up_at d o config index)
    unfolding client_up_at client_up
    client_up_at-Keeps config index =
        let client = new_client config (decimal index) in
        let starting =
          docker (Docker.up d client.docker_id (client_docker_config o config client))
            (docker_up client.docker_id) in
        Keeps-collect d (client_up d o config (decimal index) >>= put_client d) (
          Keeps-bind d (client_up d o config (decimal index)) (put_client d)
            (Keeps-bind d starting (λ _. pure client)
              (Keeps-docker d (Docker.up d client.docker_id (client_docker_config o config client))
                (docker_up client.docker_id))
              (λ _ w h. h))
            put_client-Keeps)

    client_up_from-Keeps :
        (config : ClientConfig) (index left : ℕ) → Keeps d (client_up_from d o config index left)
    unfolding client_up_from
    client_up_from-Keeps config index zero = λ w h. h
    client_up_from-Keeps config index (suc left) =
        Keeps-append d (client_up_at d o config index) (client_up_from d o config (index + 1) left)
          (client_up_at-Keeps config index) (client_up_from-Keeps config (index + 1) left)

    pub client_up_all-Keeps : (config : ClientConfig) → Keeps d (client_up_all d o config)
    unfolding client_up_all
    client_up_all-Keeps config = client_up_from-Keeps config 1 config.count
