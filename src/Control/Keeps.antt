-- ===== src/Control/Keeps.antt =====
-- The maps of the manager keep one entry for each key: the closure of the invariant under the ways in
-- which actions are put together.
use close.Prelude.{
  Bool, Exec, List, Outcome, [], attempt, continue, done, err, failed, false, if◌then◌else◌, ok,
  panicked, pure, true, ◌++◌, ◌>>=◌, ◌∷◌,
}
use close.Control.Types.{Error, Manager, collect, docker}
use close.Control.Entries.{IsMap}
use close.Docker.Daemon.{Daemon}
use close.Docker.Manager.{DockerError}

module _ (d : Daemon) where
  abbrev pub Maps : Manager d → Type 0
  Maps w = IsMap w.clients × IsMap w.workers

  abbrev pub Keeps : {A : Type 0} → Exec (Manager d) Error A → Type 0
  Keeps m = (w : Manager d) → Maps w → Maps (m w).1

  pub Keeps-bind :
      {A B : Type 0} (m : Exec (Manager d) Error A) (f : A → Exec (Manager d) Error B)
      → Keeps m
      → ((a : A) → Keeps (f a))
      → Keeps (m >>= f)
  Keeps-bind {A} {B} m f km kf w h = go (m w).0 (m w).1 (km w h)
    where
      go : (o : Outcome Error A) (t : Manager d) → Maps t → Maps (continue o f t).1
      go (done a) t k = kf a t k
      go (failed e) t k = k
      go panicked t k = k

  pub Keeps-docker :
      {A : Type 0} (m : Exec d.State DockerError A) (wrap : DockerError → Error)
      → Keeps (docker m wrap)
  unfolding docker
  Keeps-docker m wrap w h = h

  pub Keeps-collect : (m : Exec (Manager d) Error (Unit {0})) → Keeps m → Keeps (collect m)
  unfolding collect
  Keeps-collect m k =
      Keeps-bind (attempt m) (λ r. pure (elim r [ ok u ↦ [] | err e ↦ e ∷ [] ])) k (λ r w h. h)

  pub Keeps-if :
      {A : Type 0} (b : Bool) (m k : Exec (Manager d) Error A)
      → Keeps m
      → Keeps k
      → Keeps (if b then m else k)
  Keeps-if true m k km kk = km
  Keeps-if false m k km kk = kk

  -- the turn of a range, and what is left of it
  pub Keeps-append :
      (m k : Exec (Manager d) Error (List Error))
      → Keeps m
      → Keeps k
      → Keeps (m >>= (λ es. k >>= (λ more. pure (es ++ more))))
  Keeps-append m k km kk =
      Keeps-bind m (λ es. k >>= (λ more. pure (es ++ more))) km
        (λ es. Keeps-bind k (λ more. pure (es ++ more)) kk (λ more w h. h))
