-- ===== src/Control/Calls.antt =====
-- The calls of package docker that the loops of control/clients.go and control/worker.go make.
use close.Prelude.{
  Exec, List, Outcome, Result, [], caught, continue, done, err, failed, ok, panicked, pure, refl,
  ◌∷◌, ◌≡◌, ◌≢◌,
}
use close.Control.Types.{Error, Manager, collect, docker, docker_outcome}
use close.Docker.Id.{ContainerId, id_string}
use close.Docker.Daemon.{ClientError, Daemon, container_not_running, no_such_container, other_error}
use close.Docker.Manager as Docker
use close.Docker.Manager.{
  DockerError, call, clean, docker_stop_timeout, down, outcome, remove_failed, stopped,
}

module _ (d : Daemon) where
  answered :
      (o : Outcome DockerError (Unit {0})) (wrap : DockerError → Error) (w : Manager d)
      → o ≢ panicked
      → (es : List Error) × (continue
            (caught (docker_outcome o wrap))
            (λ r. pure (elim r [ ok u ↦ [] | err e ↦ e ∷ [] ]))
            w
          ≡ (done es, w))
  unfolding docker_outcome
  answered (done u) wrap w h = ([], refl)
  answered (failed e) wrap w h = (wrap e ∷ [], refl)
  answered panicked wrap w h = absurd (h refl)

  -- A call that cannot panic, with its error in a list, changes the daemon's state only.
  pub collect-docker :
      (m : Exec d.State DockerError (Unit {0})) (wrap : DockerError → Error) (w : Manager d)
      → (m w.docker).0 ≢ panicked
      → (es : List Error) × (collect (docker m wrap) w
          ≡ (done es, record w { docker = (m w.docker).1 }))
  unfolding collect docker
  collect-docker m wrap w h = answered (m w.docker).0 wrap (record w { docker = (m w.docker).1 }) h

  pub stops : (id : ContainerId) (s : d.State) → (Docker.down d id s).0 ≢ panicked
  unfolding Docker.down stopped
  stops id s h = let (r, s') = d.stop (id_string id) docker_stop_timeout s in go r s' h
    where
      go : (r : Result ClientError (Unit {0})) (t : d.State) → (stopped d r t).0 ≢ panicked
      go (ok u) t e = cc
      go (err container_not_running) t e = cc
      go (err no_such_container) t e = cc
      go (err (other_error x)) t e = cc

  pub cleans : (id : ContainerId) (s : d.State) → (Docker.clean d id s).0 ≢ panicked
  unfolding Docker.clean call outcome
  cleans id s h = let (r, s') = d.remove (id_string id) s in go r h
    where
      go : (r : Result ClientError (Unit {0})) → outcome r remove_failed ≢ panicked
      go (ok u) e = cc
      go (err x) e = cc
