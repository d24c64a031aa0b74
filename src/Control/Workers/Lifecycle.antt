-- ===== src/Control/Workers/Lifecycle.antt =====
-- Stopping and cleaning workers.
use close.Prelude.{
  Assoc, Bool, List, String, [], bind_after, delete, done, false, if◌then◌else◌, insert, lookup,
  none, pure, refl, true, ◌++◌, ◌>>=◌, ◌>>◌, ◌∙◌, ◌∷◌, ◌≡◌,
}
use close.Control.Types.{Error, Manager, Worker, collect, docker, docker_clean, docker_down}
use close.Control.Workers.{
  clean_over, delete_at, down_over, down_worker, mark_worker, other_config, put_at, worker_clean,
  worker_clean_at, worker_down, worker_down_at,
}
use close.Control.Entries.{
  IsMap, changed, overwrite, overwrite-IsMap, overwrite-lookup, passing, without, without-lookup,
}
use close.Control.Calls.{cleans, collect-docker, stops}
use close.Docker.Daemon.{Daemon}
use close.Docker.Manager as Docker

-- `up` of a worker
abbrev pub is_kept : Worker → Bool
is_kept c = c.up

module _ (d : Daemon) where
  clean_over_lem :
      (m : Assoc Worker) (w : Manager d)
      → (es : List Error) × (s : d.State) × (clean_over d m w
          ≡ (done es, record w { docker = s; workers = without is_kept m w.workers }))
  unfolding clean_over worker_clean_at without
  clean_over_lem [] w = ([], w.docker, refl)
  clean_over_lem ((k, c) ∷ m) w =
      elim c.up
        as (λ t.
          (es : List Error) × (s : d.State) × (((if t then pure [] else worker_clean_at d k c)
                >>= (λ es. clean_over d m >>= (λ more. pure (es ++ more))))
              w
            ≡ (
              done es,
              record w {
                docker = s;
                workers = without is_kept m (if t then w.workers else delete k w.workers);
              },
            ))) [
              | true ↦
                  (let (es, s, e) = clean_over_lem m w in
                    (es, s, bind_after (clean_over d m) (λ more. pure more) w e))
              | false ↦
                  (let (es, e) =
                      collect-docker d (Docker.clean d c.docker_id) (docker_clean c.docker_id) w
                        (cleans d c.docker_id w.docker) in
                    let t = record w {
                      docker = (Docker.clean d c.docker_id w.docker).1;
                      workers = delete k w.workers;
                    } in
                    let first : worker_clean_at d k c w ≡ (done es, t) =
                      bind_after
                        (collect (docker (Docker.clean d c.docker_id) (docker_clean c.docker_id)))
                        (λ es. delete_at d k >> pure es) w e in
                    let (more, s, e') = clean_over_lem m t in
                    (
                      es ++ more,
                      s,
                      bind_after (worker_clean_at d k c)
                            (λ es. clean_over d m >>= (λ more. pure (es ++ more))) w first
                          ∙ bind_after (clean_over d m) (λ more. pure (es ++ more)) t e',
                    ))
            ]

  -- If no two entries of the map have the same key: `WorkerClean` never fails as a whole, keeps
  -- the workers that are up and drops the others, also
  -- those whose container could not be removed.
  pub worker_clean_drops :
      (w : Manager d)
      → IsMap w.workers
      → (es : List Error) × (s : d.State) × (m : Assoc Worker) × (worker_clean d w
          ≡ (done es, record w { docker = s; workers = m }))
        × ((k : String) → lookup k m ≡ passing is_kept (lookup k w.workers))
  unfolding worker_clean
  worker_clean_drops w h =
      let (es, s, e) = clean_over_lem w.workers w in
      (
        es,
        s,
        without is_kept w.workers w.workers,
        e,
        λ k. without-lookup is_kept w.workers w.workers k h refl,
      )

  down_over_lem :
      (m : Assoc Worker) (w : Manager d)
      → (es : List Error) × (s : d.State) × (down_over d none m w
          ≡ (done es, record w { docker = s; workers = overwrite mark_worker m w.workers }))
  unfolding down_over worker_down_at put_at down_worker overwrite other_config
  down_over_lem [] w = ([], w.docker, refl)
  down_over_lem ((k, c) ∷ m) w =
      let marked = record w { workers = insert k (mark_worker c) w.workers } in
      let (es, e) =
        collect-docker d (Docker.down d c.docker_id) (docker_down c.docker_id) marked
          (stops d c.docker_id w.docker) in
      let t = record marked { docker = (Docker.down d c.docker_id w.docker).1 } in
      let (more, s, e') = down_over_lem m t in
      (
        es ++ more,
        s,
        bind_after (worker_down_at d k c) (λ es. down_over d none m >>= (λ more. pure (es ++ more)))
              w e
            ∙ bind_after (down_over d none m) (λ more. pure (es ++ more)) t e',
      )

  -- If no two entries of the map have the same key: `WorkerDown` of no configuration in
  -- particular marks every worker as down, whether its container
  -- could be stopped or not, and fails or panics on no daemon.
  pub worker_down_marks :
      (w : Manager d)
      → IsMap w.workers
      → (es : List Error) × (s : d.State) × (m : Assoc Worker) × (worker_down d none w
          ≡ (done es, record w { docker = s; workers = m }))
        × IsMap m
        × ((k : String) → lookup k m ≡ changed mark_worker (lookup k w.workers))
  unfolding worker_down
  worker_down_marks w h =
      let (es, s, e) = down_over_lem w.workers w in
      (
        es,
        s,
        overwrite mark_worker w.workers w.workers,
        e,
        overwrite-IsMap mark_worker w.workers w.workers h,
        λ k. overwrite-lookup mark_worker w.workers w.workers k h refl,
      )
