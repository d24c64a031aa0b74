-- ===== src/Docker/Manager/Contract.antt =====
-- What a successful `Up` promises, on any daemon.
use close.Prelude.{
  Exec, Option, Outcome, Result, String, ap, arith, continue, done, err, failed, none, ok, panicked,
  pure, refl, some, true, ◌>>=◌, ◌∙◌, ◌≡◌,
}
use close.Docker.Id.{ContainerId, id_string}
use close.Docker.Config.{Config, DockerContainer, config_equals, create_options}
use close.Docker.Container.{Container, is_up, state_status}
use close.Docker.Daemon.{ClientError, Daemon, container_not_running, no_such_container, other_error}
use close.Docker.Manager.{
  check, create_failed, ensure, ensure_running, get, inspected, new_container, outcome, up,
}
use close.Docker.Config.Compatible.{config_equals_refl}

-- Inversion of a successful bind.
bind-done :
    {S E A B : Type 0} (m : Exec S E A) (f : A → Exec S E B) (s : S) {b : B}
    → ((m >>= f) s).0 ≡ done b
    → (a : A) × ((m s).0 ≡ done a) × ((f a (m s).1).0 ≡ done b)
bind-done {S} {E} {A} {B} m f s {b} h = go (m s).0 refl (m s).1 h
  where
    go :
        (o : Outcome E A)
        → (m s).0 ≡ o
        → (t : S) → (continue o f t).0 ≡ done b
        → (a : A) × ((m s).0 ≡ done a) × ((f a t).0 ≡ done b)
    go (done a) e t k = (a, e, k)
    go (failed x) e t k = absurd (cc)
    go panicked e t k = absurd (cc)

module _ (d : Daemon) where
  -- a container that `Get` or `Up` returns is up only when its state says that it runs
  abbrev pub Runs : Container → Type 0
  Runs c = is_up c.status ≡ true → c.running ≡ true

  abbrev pub Compatible : Config → Container → Type 0
  Compatible config c = config_equals config c.config ≡ true

  check-Compatible :
      (config : Config) (found : Option Container) (s : d.State) (c : Container)
      → (check d config found s).0 ≡ done (some c)
      → (found ≡ some c) × Compatible config c
  unfolding check
  check-Compatible config none s c h = absurd (cc)
  check-Compatible config (some x) s c h = ground arith

  created-Compatible :
      (id : ContainerId) (config : Config) (r : Result ClientError String) (s : d.State)
      (c : Container)
      → (continue (outcome r create_failed) (λ (x : String). pure (new_container id config x)) s).0
        ≡ done c
      → Compatible config c × Runs c
  unfolding outcome new_container is_up
  created-Compatible id config (ok x) s c h = ground (arith, config_equals_refl config)
  created-Compatible id config (err e) s c h = absurd (cc)

  ensure-Compatible :
      (id : ContainerId) (config : Config) (kept : Option Container) (s : d.State) (c : Container)
      → ((x : Container) → kept ≡ some x → Compatible config x × Runs x)
      → (ensure d id config kept s).0 ≡ done c
      → Compatible config c × Runs c
  unfolding ensure
  ensure-Compatible id config (some x) s c k h = let e = k x refl in ground arith
  ensure-Compatible id config none s c k h =
      let (r, s') = d.create (create_options config id) s in created-Compatible id config r s' c h

  ensure_running-up :
      (config : Config) (x : Container) (s : d.State) (c : Container)
      → Compatible config x × Runs x
      → (ensure_running d x s).0 ≡ done c
      → Compatible config c × (is_up c.status ≡ true) × (c.running ≡ true)
  unfolding ensure_running is_up
  ensure_running-up config x s c k h = ground arith

  inspected-Runs :
      (r : Result ClientError DockerContainer) (s : d.State) (c : Container)
      → (inspected d r s).0 ≡ done (some c)
      → Runs c
  unfolding inspected is_up state_status
  inspected-Runs (ok x) s c h = ground arith
  inspected-Runs (err no_such_container) s c h = cc
  inspected-Runs (err container_not_running) s c h = cc
  inspected-Runs (err (other_error text)) s c h = cc

  get-Runs :
      (name : String) (s : d.State) (c : Container) → (get d name s).0 ≡ done (some c) → Runs c
  unfolding get
  get-Runs name s c h = let (r, s') = d.inspect name s in inspected-Runs r s' c h

  -- A container that `Up` returns without an error is up, and its configuration is compatible with the
  -- wanted one, whether it was kept, replaced or created.
  pub up_done :
      (id : ContainerId) (config : Config) (s : d.State) (c : Container)
      → (up d id config s).0 ≡ done c
      → (config_equals config c.config ≡ true) × (is_up c.status ≡ true) × (c.running ≡ true)
  unfolding up
  up_done id config s c h =
      let start = λ (x : Container). ensure_running d x in
      let make = λ (kept : Option Container). ensure d id config kept >>= start in
      let (found, e1, h1) = bind-done (get d name) (λ o. check d config o >>= make) s h in
      let s1 = (get d name s).1 in
      let (kept, e2, h2) = bind-done (check d config found) make s1 h1 in
      let s2 = (check d config found s1).1 in
      let (x, e3, h3) = bind-done (ensure d id config kept) start s2 h2 in
      ensure_running-up config x (ensure d id config kept s2).1 c
        (ensure-Compatible id config kept s2 x (λ y e. kept_lem found kept e1 e2 y e) e3) h3
    where
      name : String
      name = id_string id

      kept_lem :
          (found kept : Option Container)
          → (get d name s).0 ≡ done found
          → (check d config found (get d name s).1).0 ≡ done kept
          → (y : Container) → kept ≡ some y
          → Compatible config y × Runs y
      kept_lem found kept e1 e2 y e =
          let (f, k) = check-Compatible config found (get d name s).1 y (e2 ∙ ap done e) in
          (k, get-Runs name s y (e1 ∙ ap done f))
