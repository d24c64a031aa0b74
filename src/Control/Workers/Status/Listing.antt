-- ===== src/Control/Workers/Status/Listing.antt =====
-- A listing of the workers shows each of them.
use close.Config.Redis.{sub_path, check as check_redis}
use close.Docker.Cache.{get_status as cached_status}
use close.Prelude.{
  Assoc, Bool, Exec, List, Option, Outcome, Result, String, Value, [], ap, attempt, caught,
  continue, done, err, failed, false, if◌then◌else◌, map, none, not, ok, panicked, pure, refl, some,
  str_eq, true, ℕ, ◌>>=◌, ◌∙◌, ◌∷◌, ◌≡◌,
}
use close.Control.Workers.Cache.{
  CacheError, Parsed, Texts, WorkerCache, config_get, config_get_rate, has_field, in_docker,
  in_redis, make_cache, parse_stats, stats_meta,
}
use close.Control.Workers.Cache.Fetch.{stats_get}
use close.Control.Workers.Cache.Parsing.{ParsesAgain, parse_stats-Again}
use close.Control.Workers.Status.{
  WorkerStatus, check_sub, config_status, current_status, first_status, get_status, list_over,
  list_workers, running_status, with_container, with_latency_stats, with_rate, with_rate_stats,
  with_series, with_ttl,
}
use close.Config.Sub.{Redis}
use close.Control.Types.{Manager, Worker, WorkerConfig}
use close.Docker.Container.{ContainerStatus}
use close.Docker.Daemon.{Daemon}
use close.Stats.Influx.{Influx, InfluxUrl}
use close.Stats.Series.{SeriesKey, SeriesStats, no_key}
use close.Config.Id.{ConfigId}

module _ (d : Daemon) (r : Redis) (i : Influx) (prefix : String) (t : Texts) (u : InfluxUrl) where
  -- The status shows the worker, and an error is not the answer.
  abbrev Shows : Worker → Outcome CacheError (WorkerStatus i) × WorkerCache d r i → Type 0
  Shows worker (done s, c) = (s.instance_name ≡ worker.instance_name) × (s.up ≡ worker.up)
  Shows worker (failed e, c) = ⊥
  Shows worker (panicked, c) = Unit {0}

  abbrev Same : Worker → WorkerStatus i → Type 0
  Same worker w = (w.instance_name ≡ worker.instance_name) × (w.up ≡ worker.up)

  attempt-Shows :
      {A : Type 0} (worker : Worker) (m : Exec (WorkerCache d r i) CacheError A)
      (f : Result CacheError A → Exec (WorkerCache d r i) CacheError (WorkerStatus i))
      (c : WorkerCache d r i)
      → ((x : Result CacheError A) (s : WorkerCache d r i) → Shows worker (f x s))
      → Shows worker ((attempt m >>= f) c)
  attempt-Shows {A} worker m f c h = let (o, s) = m c in go o s
    where
      go :
          (o : Outcome CacheError A) (s : WorkerCache d r i)
          → Shows worker (continue (caught o) f s)
      go (done a) s = h (ok a) s
      go (failed e) s = h (err e) s
      go panicked s = tt

  with_series-Same :
      (x : SeriesKey × Option CacheError) (worker : Worker) (w : WorkerStatus i)
      → Same worker w
      → Same worker (with_series i x w)
  unfolding with_series
  with_series-Same (k, none) worker w h = h
  with_series-Same (k, some e) worker w h = h

  with_rate-Same :
      (x : Result {0, 0} CacheError ℕ) (worker : Worker) (w : WorkerStatus i)
      → Same worker w
      → Same worker (with_rate i x w)
  unfolding with_rate
  with_rate-Same (err e) worker w h = h
  with_rate-Same (ok n) worker w h = h

  with_rate_stats-Same :
      (x : Result {0, 0} CacheError (Option (SeriesStats i))) (worker : Worker) (w : WorkerStatus i)
      → Same worker w
      → Same worker (with_rate_stats i x w)
  unfolding with_rate_stats
  with_rate_stats-Same (err e) worker w h = h
  with_rate_stats-Same (ok n) worker w h = h

  with_latency_stats-Same :
      (x : Result {0, 0} CacheError (Option (SeriesStats i))) (worker : Worker) (w : WorkerStatus i)
      → Same worker w
      → Same worker (with_latency_stats i x w)
  unfolding with_latency_stats
  with_latency_stats-Same (err e) worker w h = h
  with_latency_stats-Same (ok n) worker w h = h

  with_container-Same :
      (v : Worker) (x : Result {0, 0} CacheError (Option ContainerStatus)) (worker : Worker)
      (w : WorkerStatus i)
      → Same worker w
      → Same worker (with_container i v x w)
  unfolding with_container
  with_container-Same v (err e) worker w h = h
  with_container-Same v (ok none) worker w h = h
  with_container-Same v (ok (some s)) worker w h = h

  with_ttl-Same :
      (v : Worker) (x : Result {0, 0} CacheError ℕ) (worker : Worker) (w : WorkerStatus i)
      → Same worker w
      → Same worker (with_ttl i v x w)
  unfolding with_ttl
  with_ttl-Same v (err e) worker w h = h
  with_ttl-Same v (ok n) worker w h = h

  Same-if :
      (b : Bool) (worker : Worker) (w v : WorkerStatus i)
      → Same worker w
      → Same worker v
      → Same worker (if b then w else v)
  Same-if true worker w v h k = h
  Same-if false worker w v h k = k

  series-Shows :
      (key : String) (worker : Worker) (config : WorkerConfig)
      (f : SeriesKey × Option CacheError → Exec (WorkerCache d r i) CacheError (WorkerStatus i))
      (c : WorkerCache d r i)
      → ((x : SeriesKey × Option CacheError) (s : WorkerCache d r i) → Shows worker (f x s))
      → Shows worker ((stats_meta d r i prefix t key worker config >>= f) c)
  unfolding stats_meta
  series-Shows key worker config f c h =
      elim (str_eq config.stats "")
        as (λ b.
          Shows worker
            (((if b then pure (no_key, none) else parse >>= (λ p. pure (answer p))) >>= f) c)) [
              | true ↦ h (no_key, none) c
              | false ↦
                  (let again = parse_stats-Again d r i prefix t key worker config config.stats c in
                    let (o, s) = parse c in go o s again)
            ]
    where
      parse : Exec (WorkerCache d r i) CacheError Parsed
      parse = parse_stats d r i prefix t key worker config config.stats

      answer : Parsed → SeriesKey × Option CacheError
      answer p = elim (p.error) [
        | some e ↦ (p.series, some e)
        | none ↦ if str_eq p.field "" then (p.series, none) else (p.series, some has_field)
      ]

      go :
          (o : Outcome CacheError Parsed) (s : WorkerCache d r i)
          → ParsesAgain d r i prefix t parse (o, s)
          → Shows worker (let (x, s2) = continue o (λ p. pure (answer p)) s in continue x f s2)
      go (done p) s k = h (answer p) s
      go (failed e) s k = absurd k
      go panicked s k = tt

  running_status-Shows :
      (detail : Bool) (key : String) (worker : Worker) (config : WorkerConfig) (m : Assoc Value)
      (w : WorkerStatus i) (c : WorkerCache d r i)
      → Same worker w
      → Shows worker (running_status d r i prefix t u detail key worker config m w c)
  unfolding running_status
  running_status-Shows detail key worker config m w c h =
      let rates = config_get_rate d r i prefix t key worker config in
      let stats = λ (url : String). stats_get d r i prefix t u key worker config url in
      let v : WorkerStatus i = (if detail then record w { config_map = some m } else w) in
      let v_same : Same worker v = Same-if detail worker (record w { config_map = some m }) w h h in
      attempt-Shows worker rates _ c (λ rate s1. series-Shows key worker config _ s1 (λ series s2.
        attempt-Shows worker (stats config.rate_stats) _ s2 (λ rate_stats s3.
          attempt-Shows worker (stats config.latency_stats) _ s3 (λ latency_stats s4.
            let a = with_rate i rate v in
            let b = with_series i series a in
            let e = with_rate_stats i rate_stats b in
            with_latency_stats-Same latency_stats worker e (
              with_rate_stats-Same rate_stats worker b
                (with_series-Same series worker a (with_rate-Same rate worker v v_same)))))))

  current_status-Shows :
      (detail : Bool) (key : String) (worker : Worker) (config : WorkerConfig) (w : WorkerStatus i)
      (c : WorkerCache d r i)
      → Same worker w
      → Shows worker (current_status d r i prefix t u detail key worker config w c)
  unfolding current_status
  current_status-Shows detail key worker config w c h =
      elim (worker.up)
        as (λ b.
          Shows worker
            ((if not b then pure w else attempt (config_get d r i prefix t key worker) >>= go) c)) [
              | false ↦ h
              | true ↦ attempt-Shows worker (config_get d r i prefix t key worker) go c go-Shows
            ]
    where
      go : Result CacheError (Assoc Value) → Exec (WorkerCache d r i) CacheError (WorkerStatus i)
      go m = elim m [
        | err e ↦ pure w
        | ok m ↦ running_status d r i prefix t u detail key worker config m w
      ]

      go-Shows :
          (x : Result CacheError (Assoc Value)) (s : WorkerCache d r i) → Shows worker (go x s)
      go-Shows (err e) s = h
      go-Shows (ok m) s = running_status-Shows detail key worker config m w s h

  check_sub-Shows :
      (worker : Worker) (sub : Option ConfigId) (w : WorkerStatus i)
      (f : WorkerStatus i → Exec (WorkerCache d r i) CacheError (WorkerStatus i))
      (c : WorkerCache d r i)
      → Same worker w
      → ((x : WorkerStatus i) (s : WorkerCache d r i) → Same worker x → Shows worker (f x s))
      → Shows worker ((check_sub d r i prefix t u worker sub w >>= f) c)
  unfolding check_sub
  check_sub-Shows worker none w f c h k = k w c h
  check_sub-Shows worker (some sub) w f c h k =
      let (o, s) = in_redis d r i (check_redis r (sub_path prefix sub)) c in go o s
    where
      go :
          (o : Outcome CacheError ℕ) (s : WorkerCache d r i)
          → Shows worker (
              let (x, s2) = continue (caught o) (λ ttl. pure (with_ttl i worker ttl w)) s in
              continue x f s2)
      go (done n) s = k (with_ttl i worker (ok n) w) s (with_ttl-Same worker (ok n) worker w h)
      go (failed e) s = k (with_ttl i worker (err e) w) s (with_ttl-Same worker (err e) worker w h)
      go panicked s = tt

  config_status-Shows :
      (detail : Bool) (key : String) (worker : Worker) (config : Option WorkerConfig)
      (w : WorkerStatus i) (c : WorkerCache d r i)
      → Same worker w
      → Shows worker (config_status d r i prefix t u detail key worker config w c)
  unfolding config_status
  config_status-Shows detail key worker none w c h = h
  config_status-Shows detail key worker (some config) w c h =
      check_sub-Shows worker worker.config_sub
        (record w { config = config.name; worker_config = if detail then some config else none })
        (current_status d r i prefix t u detail key worker config) c h
        (λ x s k. current_status-Shows detail key worker config x s k)

  get_status-Shows :
      (key : String) (worker : Worker) (c : WorkerCache d r i)
      → Shows worker (get_status d r i prefix t u false key worker c)
  unfolding get_status first_status
  get_status-Shows key worker c =
      let w : WorkerStatus i = record (first_status i worker) { docker_container = none } in
      attempt-Shows worker (in_docker d r i (cached_status d worker.docker_id)) _ c (λ found s.
        config_status-Shows false key worker worker.config (with_container i worker found w) s
          (with_container-Same worker found worker w (refl, refl)))

  -- what identifies an entry
  abbrev pub shown : WorkerStatus i → String × Bool
  shown s = (s.instance_name, s.up)

  abbrev pub entry_of : String × Worker → String × Bool
  entry_of e = (e.1.instance_name, e.1.up)

  -- the entries of an answer, in the order of the map
  abbrev pub Lists : Assoc Worker → Outcome CacheError (List (WorkerStatus i)) → Type 0
  Lists m (done ss) = map shown ss ≡ map entry_of m
  Lists m (failed e) = ⊥
  Lists m panicked = Unit {0}

  list_over-Lists :
      (m : Assoc Worker) (c : WorkerCache d r i) → Lists m (list_over d r i prefix t u m c).0
  unfolding list_over
  list_over-Lists [] c = refl
  list_over-Lists ((k, worker) ∷ m) c =
      let one = get_status-Shows k worker c in
      let (o, s) = get_status d r i prefix t u false k worker c in
      go o s one (λ s. list_over-Lists m s)
    where
      more :
          WorkerStatus i
          → Outcome CacheError (List (WorkerStatus i))
          → WorkerCache d r i
          → Outcome CacheError (List (WorkerStatus i))
      more x o s = (continue o (λ ss. pure (x ∷ ss)) s).0

      then_more :
          (x : WorkerStatus i) (o : Outcome CacheError (List (WorkerStatus i)))
          (s : WorkerCache d r i)
          → Same worker x
          → Lists m o
          → Lists ((k, worker) ∷ m) (more x o s)
      then_more x (done ss) s (p, q) h =
          ap (λ n. (n, x.up) ∷ map shown ss) p
          ∙ ap (λ b. (worker.instance_name, b) ∷ map shown ss) q
          ∙ ap (λ ns. (worker.instance_name, worker.up) ∷ ns) h
      then_more x (failed e) s k h = h
      then_more x panicked s k h = tt

      go :
          (o : Outcome CacheError (WorkerStatus i)) (s : WorkerCache d r i)
          → Shows worker (o, s)
          → ((s : WorkerCache d r i) → Lists m (list_over d r i prefix t u m s).0)
          → Lists
              ((k, worker) ∷ m)
              (continue o (λ x. list_over d r i prefix t u m >>= (λ ss. pure (x ∷ ss))) s).0
      go (done x) s h ih =
          (let (o, s2) = list_over d r i prefix t u m s in then_more x o s2 h (ih s))
      go (failed e) s h ih = h
      go panicked s h ih = tt

  -- `ListWorkers` never ends with an error: unless it panics, its answer has one status for each worker,
  -- in the order of the map, with the worker's instance and whether it is configured to be up, whatever
  -- the daemon, Redis and InfluxDB answer.
  pub list_workers_complete :
      (w : Manager d) (redis : r.State) (influx : i.State)
      → Lists w.workers (list_workers d r i prefix t u w redis influx).0
  unfolding list_workers
  list_workers_complete w redis influx =
      list_over-Lists w.workers (make_cache d r i true w.docker redis influx)
