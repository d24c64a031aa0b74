-- ===== src/Control/Workers/Cache/Parsing.antt =====
-- Parsing the URL of statistics again.
use close.Config.Redis.{RedisError, sub_path, get as get_redis}
use close.Prelude.{
  Assoc, Bool, Exec, List, Option, Outcome, String, Value, [], ap, caught, continue, done, eq_refl,
  err, failed, false, if◌then◌else◌, json_number, json_other, json_text, lookup, lookup-insert,
  none, ok, panicked, pure, refl, some, str_eq, true, ◌∙◌, ◌∷◌, ◌≡◌, ◌≢◌,
}
use close.Control.Workers.Cache.{
  CacheError, Parsed, StatsUrl, Texts, WorkerCache, config_get, config_instance, fetch_config,
  in_redis, invalid_url, not_found, parse_stats, path_series, put_config, query_instance,
  query_series, redis_error, value_instance, with_instance, wrapped,
}
use close.Docker.Container.{split_path}
use close.Config.Id.{ConfigId}
use close.Config.Sub.{Redis}
use close.Control.Types.{Worker, WorkerConfig, worker_string}
use close.Docker.Daemon.{Daemon}
use close.Stats.Influx.{Influx}
use close.Stats.Series.{no_key}

-- Whatever a value of the configuration says, no statistics are missing.
value_instance-missing :
    (v : Option Value) (p : Parsed) (k : String)
    → p.error ≡ none
    → (value_instance v p).error ≢ some (not_found k)
unfolding value_instance with_instance
value_instance-missing (some (json_text s)) p k n e = cc
value_instance-missing (some (json_number s)) p k n e = cc
value_instance-missing (some json_other) p k n e = cc
value_instance-missing none p k n e = cc

path_series-missing :
    (config : WorkerConfig) (parts : List String) (k : String)
    → (path_series config parts).error ≢ some (not_found k)
unfolding path_series
path_series-missing config [] k e = cc
path_series-missing config (a ∷ []) k e = cc
path_series-missing config (a ∷ b ∷ []) k e = cc
path_series-missing config (a ∷ b ∷ c ∷ rest) k e = cc

module _ (d : Daemon) (r : Redis) (i : Influx) (prefix : String) (t : Texts) where
  -- a configuration that was read is kept, and its errors are not that of missing statistics
  abbrev Kept : String → Outcome CacheError (Assoc Value) × WorkerCache d r i → Type 0
  Kept key (done m, s) = lookup key s.configs ≡ some m
  Kept key (failed e, s) = (k : String) → e ≢ not_found k
  Kept key (panicked, s) = Unit {0}

  fetch_config-Kept :
      (key : String) (sub : Option ConfigId) (c : WorkerCache d r i)
      → Kept key (fetch_config d r i prefix t key sub c)
  unfolding fetch_config in_redis put_config wrapped
  fetch_config-Kept key none c = λ k e. cc
  fetch_config-Kept key (some sub) c =
      let (o, s) = get_redis r (sub_path prefix sub) c.redis in go o s
    where
      go :
          (o : Outcome RedisError (Assoc Value)) (s : r.State)
          → Kept key
              (continue (wrapped redis_error o) (put_config d r i key) (record c { redis = s }))
      go (done m) s =
          lookup-insert key key m c.configs
          ∙ ap (λ b. if b then some m else lookup key c.configs) (eq_refl key)
      go (failed e) s = λ k h. cc
      go panicked s = tt

  config_get-Kept :
      (key : String) (worker : Worker) (c : WorkerCache d r i)
      → Kept key (config_get d r i prefix t key worker c)
  unfolding config_get
  config_get-Kept key worker c = go (lookup key c.configs) refl
    where
      go :
          (x : Option (Assoc Value))
          → lookup key c.configs ≡ x
          → Kept key (elim x as (λ _. Outcome CacheError (Assoc Value) × WorkerCache d r i) [
            | some m ↦ (done m, c)
            | none ↦ fetch_config d r i prefix t key worker.config_sub c
          ])
      go (some m) e = e
      go none e = fetch_config-Kept key worker.config_sub c

  -- A valid statistics URL is parsed in the same way again with the same configurations, and no error
  -- of parsing is that of missing statistics.
  abbrev pub ParsesAgain :
      Exec (WorkerCache d r i) CacheError Parsed
      → Outcome CacheError Parsed × WorkerCache d r i
      → Type 0
  ParsesAgain f (done p, s) =
      ((k : String) → p.error ≢ some (not_found k))
      × (p.error ≡ none → (c : WorkerCache d r i) → c.configs ≡ s.configs → f c ≡ (done p, c))
  ParsesAgain f (failed e, s) = ⊥
  ParsesAgain f (panicked, s) = Unit {0}

  again-if :
      (b : Bool) (m k : Exec (WorkerCache d r i) CacheError Parsed) (c : WorkerCache d r i)
      → ParsesAgain m (m c)
      → ParsesAgain k (k c)
      → ParsesAgain (if b then m else k) ((if b then m else k) c)
  again-if true m k c hm hk = hm
  again-if false m k c hm hk = hk

  not_missing : (p : Parsed) (k : String) → p.error ≡ none → p.error ≢ some (not_found k)
  not_missing p k n e = cc

  again-pure :
      (p : Parsed) (c : WorkerCache d r i)
      → ((k : String) → p.error ≢ some (not_found k))
      → ParsesAgain (pure p) (pure p c)
  again-pure p c h = (h, λ n c2 e. refl)

  config_instance-Again :
      (key : String) (worker : Worker) (name : String) (p : Parsed) (c : WorkerCache d r i)
      → p.error ≡ none
      → ParsesAgain
          (config_instance d r i prefix t key worker name p)
          (config_instance d r i prefix t key worker name p c)
  unfolding config_instance
  config_instance-Again key worker name p c n =
      let kept = config_get-Kept key worker c in
      let (o, s) = config_get d r i prefix t key worker c in go o s kept
    where
      f : Exec (WorkerCache d r i) CacheError Parsed
      f = config_instance d r i prefix t key worker name p

      go :
          (o : Outcome CacheError (Assoc Value)) (s : WorkerCache d r i)
          → Kept key (o, s)
          → ParsesAgain f (
              continue
                (caught o)
                (λ m. pure (elim m [
                  | err e ↦ record p { error = some e }
                  | ok m ↦ value_instance (lookup name m) p
                ]))
                s)
      go (done m) s k = (
        λ x. value_instance-missing (lookup name m) p x n,
        λ _ c2 e.
            let found : lookup key c2.configs ≡ some m = ap (lookup key) e ∙ k in
            let asked : config_get d r i prefix t key worker c2 ≡ (done m, c2) =
              rw (found, config_get) refl in
            rw asked refl,
      )
      go (failed e) s k = (λ x h. k x (cc), λ h. absurd (cc))
      go panicked s k = tt

  query_instance-Again :
      (key : String) (worker : Worker) (text : String) (p : Parsed) (c : WorkerCache d r i)
      → p.error ≡ none
      → ParsesAgain
          (query_instance d r i prefix t key worker text p)
          (query_instance d r i prefix t key worker text p c)
  unfolding query_instance with_instance
  query_instance-Again key worker text p c n =
      again-if (str_eq text "") (pure p) _ c (again-pure p c (λ k. not_missing p k n)) (
        again-if (str_eq text "$") (pure (with_instance (worker_string worker) p)) _ c
          (again-pure (with_instance (worker_string worker) p) c (λ k. not_missing p k n))
          (go (t.trim_dollar text)))
    where
      go :
          (x : Option String)
          → ParsesAgain
              (elim x [
                | none ↦ pure (with_instance text p)
                | some name ↦ config_instance d r i prefix t key worker name p
              ])
              (elim x as (λ _. Exec (WorkerCache d r i) CacheError Parsed) [
                | none ↦ pure (with_instance text p)
                | some name ↦ config_instance d r i prefix t key worker name p
              ]
                c)
      go none = again-pure (with_instance text p) c (λ k. not_missing p k n)
      go (some name) = config_instance-Again key worker name p c n

  query_series-Again :
      (key : String) (worker : Worker) (url : StatsUrl) (p : Parsed) (c : WorkerCache d r i)
      → ((k : String) → p.error ≢ some (not_found k))
      → ParsesAgain
          (query_series d r i prefix t key worker url p)
          (query_series d r i prefix t key worker url p c)
  unfolding query_series
  query_series-Again key worker url p c h = go p.error refl
    where
      rest : Exec (WorkerCache d r i) CacheError Parsed
      rest =
          query_instance d r i prefix t key worker (url.query "instance")
            (record p { series = record (p.series) { hostname = url.query "hostname" } })

      go :
          (x : Option CacheError)
          → p.error ≡ x
          → ParsesAgain
              (elim x [ some e ↦ pure p | none ↦ rest ])
              (elim x as (λ _. Exec (WorkerCache d r i) CacheError Parsed) [
                | some e ↦ pure p
                | none ↦ rest
              ]
                c)
      go none e =
          query_instance-Again key worker (url.query "instance")
            (record p { series = record (p.series) { hostname = url.query "hostname" } }) c e
      go (some x) e = again-pure p c h

  pub parse_stats-Again :
      (key : String) (worker : Worker) (config : WorkerConfig) (url : String)
      (c : WorkerCache d r i)
      → ParsesAgain
          (parse_stats d r i prefix t key worker config url)
          (parse_stats d r i prefix t key worker config url c)
  unfolding parse_stats
  parse_stats-Again key worker config url c = go (t.parse_url url)
    where
      invalid : Parsed
      invalid = record { series = no_key; field = ""; error = some invalid_url }

      valid : StatsUrl → Exec (WorkerCache d r i) CacheError Parsed
      valid u =
          let (part, rest) = split_path u.path in
          query_series d r i prefix t key worker u (path_series config (part ∷ rest))

      go :
          (x : Option StatsUrl)
          → ParsesAgain
              (elim x [ none ↦ pure invalid | some u ↦ valid u ])
              (elim x as (λ _. Exec (WorkerCache d r i) CacheError Parsed) [
                | none ↦ pure invalid
                | some u ↦ valid u
              ]
                c)
      go none = again-pure invalid c (λ k h. cc)
      go (some u) =
          (let (part, rest) = split_path u.path in
            query_series-Again key worker u (path_series config (part ∷ rest)) c
              (path_series-missing config (part ∷ rest)))
