-- ===== src/Control/Clients/Lifecycle.antt =====
-- Stopping and cleaning clients.
use close.Prelude.{
  Assoc, Bool, List, String, [], bind_after, delete, done, false, if◌then◌else◌, insert, lookup,
  none, pure, refl, true, ◌++◌, ◌>>=◌, ◌>>◌, ◌∙◌, ◌∷◌, ◌≡◌,
}
use close.Control.Types.{Client, Error, Manager, collect, docker, docker_clean, docker_down}
use close.Control.Clients.{
  clean_over, client_clean, client_clean_at, client_down, client_down_at, delete_at, down_client,
  down_over, mark_client, other_config, put_at,
}
use close.Control.Entries.{
  IsMap, changed, overwrite, overwrite-IsMap, overwrite-lookup, passing, without, without-lookup,
}
use close.Control.Calls.{cleans, collect-docker, stops}
use close.Docker.Daemon.{Daemon}
use close.Docker.Manager as Docker

-- `up` of a client
abbrev pub is_kept : Client → Bool
is_kept c = c.up

module _ (d : Daemon) where
  clean_over_lem :
      (m : Assoc Client) (w : Manager d)
      → (es : List Error) × (s : d.State) × (clean_over d m w
          ≡ (done es, record w { docker = s; clients = without is_kept m w.clients }))
  unfolding clean_over client_clean_at without
  clean_over_lem [] w = ([], w.docker, refl)
  clean_over_lem ((k, c) ∷ m) w =
      elim c.up
        as (λ t.
          (es : List Error) × (s : d.State) × (((if t then pure [] else client_clean_at d k c)
                >>= (λ es. clean_over d m >>= (λ more. pure (es ++ more))))
              w
            ≡ (
              done es,
              record w {
                docker = s;
                clients = without is_kept m (if t then w.clients else delete k w.clients);
              },
            ))) [
              | true ↦
                  (let (es, s, e) = clean_over_lem m w in
                    (es, s, bind_after (clean_over d m) (λ more. pure more) w e))
              | false ↦
                  (let (es, e) =
                      collect-docker d (Docker.clean d c.docker_id) (docker_clean c.docker_id) w
                        (cleans d c.docker_id w.docker) in
                    let t = record w {
                      docker = (Docker.clean d c.docker_id w.docker).1;
                      clients = delete k w.clients;
                    } in
                    let first : client_clean_at d k c w ≡ (done es, t) =
                      bind_after
                        (collect (docker (Docker.clean d c.docker_id) (docker_clean c.docker_id)))
                        (λ es. delete_at d k >> pure es) w e in
                    let (more, s, e') = clean_over_lem m t in
                    (
                      es ++ more,
                      s,
                      bind_after (client_clean_at d k c)
                            (λ es. clean_over d m >>= (λ more. pure (es ++ more))) w first
                          ∙ bind_after (clean_over d m) (λ more. pure (es ++ more)) t e',
                    ))
            ]

  -- If no two entries of the map have the same key: `ClientClean` never fails as a whole, keeps
  -- the clients that are up and drops the others, also
  -- those whose container could not be removed.
  pub client_clean_drops :
      (w : Manager d)
      → IsMap w.clients
      → (es : List Error) × (s : d.State) × (m : Assoc Client) × (client_clean d w
          ≡ (done es, record w { docker = s; clients = m }))
        × ((k : String) → lookup k m ≡ passing is_kept (lookup k w.clients))
  unfolding client_clean
  client_clean_drops w h =
      let (es, s, e) = clean_over_lem w.clients w in
      (
        es,
        s,
        without is_kept w.clients w.clients,
        e,
        λ k. without-lookup is_kept w.clients w.clients k h refl,
      )

  down_over_lem :
      (m : Assoc Client) (w : Manager d)
      → (es : List Error) × (s : d.State) × (down_over d none m w
          ≡ (done es, record w { docker = s; clients = overwrite mark_client m w.clients }))
  unfolding down_over client_down_at put_at down_client overwrite other_config
  down_over_lem [] w = ([], w.docker, refl)
  down_over_lem ((k, c) ∷ m) w =
      let marked = record w { clients = insert k (mark_client c) w.clients } in
      let (es, e) =
        collect-docker d (Docker.down d c.docker_id) (docker_down c.docker_id) marked
          (stops d c.docker_id w.docker) in
      let t = record marked { docker = (Docker.down d c.docker_id w.docker).1 } in
      let (more, s, e') = down_over_lem m t in
      (
        es ++ more,
        s,
        bind_after (client_down_at d k c) (λ es. down_over d none m >>= (λ more. pure (es ++ more)))
              w e
            ∙ bind_after (down_over d none m) (λ more. pure (es ++ more)) t e',
      )

  -- If no two entries of the map have the same key: `ClientDown` of no configuration in
  -- particular marks every client as down, whether its container
  -- could be stopped or not, and fails or panics on no daemon.
  pub client_down_marks :
      (w : Manager d)
      → IsMap w.clients
      → (es : List Error) × (s : d.State) × (m : Assoc Client) × (client_down d none w
          ≡ (done es, record w { docker = s; clients = m }))
        × IsMap m
        × ((k : String) → lookup k m ≡ changed mark_client (lookup k w.clients))
  unfolding client_down
  client_down_marks w h =
      let (es, s, e) = down_over_lem w.clients w in
      (
        es,
        s,
        overwrite mark_client w.clients w.clients,
        e,
        overwrite-IsMap mark_client w.clients w.clients h,
        λ k. overwrite-lookup mark_client w.clients w.clients k h refl,
      )
