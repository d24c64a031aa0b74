-- ===== src/Control/Workers/Cache/Repeats.antt =====
-- Asking the cache of a listing for statistics again.
use close.Prelude.{
  Bool, Exec, List, Option, Outcome, String, ap, bind_after, continue, done, eq_refl, failed, false,
  if◌then◌else◌, lookup, lookup-insert, none, panicked, pure, raise, refl, some, str_eq, subst,
  true, ◌>>=◌, ◌>>◌, ◌∙◌, ◌≡◌, ◌≢◌,
}
use close.Control.Workers.Cache.{
  CacheError, Parsed, Texts, WorkerCache, in_influx, index_of, key_of, not_found, parse_stats,
  reader_error, wrapped,
}
use close.Control.Workers.Cache.Fetch.{
  fetch_stats, hot, parsed_stats, put_stats, stats_get, warm_stats,
}
use close.Stats.Reader.{get_stats}
use close.Config.Sub.{Redis}
use close.Docker.Daemon.{Daemon}
use close.Stats.Influx.{Influx, InfluxUrl}
use close.Stats.Series.{ReaderError, SeriesKey, SeriesStats}
use close.Control.Types.{Worker, WorkerConfig}
use close.Control.Workers.Cache.Parsing.{ParsesAgain, parse_stats-Again}

module _ (d : Daemon) (r : Redis) (i : Influx) (prefix : String) (t : Texts) (u : InfluxUrl) where
  -- What an answer says of the same question, asked of the cache that it leaves: an answer is given
  -- again, and what is missing in an eager cache is answered with none.
  abbrev Settles :
      Exec (WorkerCache d r i) CacheError (Option (SeriesStats i))
      → Outcome CacheError (Option (SeriesStats i)) × WorkerCache d r i
      → Type 0
  Settles f (done o, s) = f s ≡ (done o, s)
  Settles f (failed e, s) = (k : String) → e ≡ not_found k → s.eager ≡ true → f s ≡ (done none, s)
  Settles f (panicked, s) = Unit {0}

  hot-Settles :
      (f : Exec (WorkerCache d r i) CacheError (Option (SeriesStats i))) (series : SeriesKey)
      (field cache_index cache_key : String) (s : WorkerCache d r i)
      → (f s ≡ warm_stats d r i prefix t u series field cache_index cache_key s)
      → (s.eager ≡ true → lookup cache_index s.index ≡ some true)
      → Settles f (hot d r i prefix t cache_key s)
  unfolding hot warm_stats
  hot-Settles f series field cache_index cache_key s e h = go (lookup cache_key s.stats) refl
    where
      go :
          (x : Option (SeriesStats i))
          → lookup cache_key s.stats ≡ x
          → Settles f (
            elim x as (λ _. Outcome CacheError (Option (SeriesStats i))) [
              | none ↦ failed (not_found cache_key)
              | some s ↦ done (some s)
            ],
            s,
          )
      go (some st) q = e ∙ rw (q, warm_stats) refl
      go none q = λ k _ eager. e ∙ rw (q, h eager, warm_stats) refl

  fetch_stats-Settles :
      (f : Exec (WorkerCache d r i) CacheError (Option (SeriesStats i))) (series : SeriesKey)
      (field cache_index cache_key : String) (c : WorkerCache d r i)
      → ((s : WorkerCache d r i)
          → s.configs ≡ c.configs
          → f s ≡ warm_stats d r i prefix t u series field cache_index cache_key s)
      → Settles f (fetch_stats d r i prefix t u series field cache_index cache_key c)
  unfolding fetch_stats in_influx put_stats wrapped
  fetch_stats-Settles f series field cache_index cache_key c e =
      let (o, s) =
        get_stats i u (if c.eager then record series { instance_name = "" } else series) field
          10_000_000_000 c.influx in
      go o s
    where
      go :
          (o : Outcome ReaderError (List (SeriesStats i))) (s : i.State)
          → Settles f (
              continue
                (wrapped reader_error o)
                (λ found.
                  put_stats d r i prefix t cache_index found >> hot d r i prefix t cache_key)
                (record c { influx = s }))
      go (done found) s =
          hot-Settles f series field cache_index cache_key
            (put_stats d r i prefix t cache_index found (record c { influx = s })).1 (e _ refl)
            (λ eager.
              rw eager (
                lookup-insert cache_index cache_index true c.index ∙ rw (eq_refl cache_index) refl))
      go (failed x) s = λ k h. absurd (cc)
      go panicked s = tt

  warm_stats-Settles :
      (f : Exec (WorkerCache d r i) CacheError (Option (SeriesStats i))) (series : SeriesKey)
      (field cache_index cache_key : String) (c : WorkerCache d r i)
      → ((s : WorkerCache d r i)
          → s.configs ≡ c.configs
          → f s ≡ warm_stats d r i prefix t u series field cache_index cache_key s)
      → Settles f (warm_stats d r i prefix t u series field cache_index cache_key c)
  unfolding warm_stats
  warm_stats-Settles f series field cache_index cache_key c e = go (lookup cache_key c.stats) refl
    where
      fetched : Outcome CacheError (Option (SeriesStats i)) × WorkerCache d r i
      fetched = fetch_stats d r i prefix t u series field cache_index cache_key c

      absent :
          (b : Option Bool)
          → lookup cache_key c.stats ≡ none
          → lookup cache_index c.index ≡ b
          → Settles f
              (elim b as (λ _. Outcome CacheError (Option (SeriesStats i)) × WorkerCache d r i) [
                | some x ↦ (done none, c)
                | none ↦ fetched
              ])
      absent (some x) p q = e c refl ∙ rw (p, q, warm_stats) refl
      absent none p q = fetch_stats-Settles f series field cache_index cache_key c e

      go :
          (x : Option (SeriesStats i))
          → lookup cache_key c.stats ≡ x
          → Settles f
              (elim x as (λ _. Outcome CacheError (Option (SeriesStats i)) × WorkerCache d r i) [
                | some s ↦ (done (some s), c)
                | none ↦ elim (lookup cache_index c.index) [
                  | some b ↦ (done none, c)
                  | none ↦ fetched
                ]
              ])
      go (some s) p = e c refl ∙ rw (p, warm_stats) refl
      go none p = absent (lookup cache_index c.index) p refl

  parsed_stats-Settles :
      (f : Exec (WorkerCache d r i) CacheError (Option (SeriesStats i))) (p : Parsed)
      (c : WorkerCache d r i)
      → ((k : String) → p.error ≢ some (not_found k))
      → (p.error ≡ none
          → (s : WorkerCache d r i) → s.configs ≡ c.configs
          → f s ≡ parsed_stats d r i prefix t u p s)
      → Settles f (parsed_stats d r i prefix t u p c)
  unfolding parsed_stats
  parsed_stats-Settles f p c m e = go p.error refl
    where
      warm : Exec (WorkerCache d r i) CacheError (Option (SeriesStats i))
      warm =
          warm_stats d r i prefix t u p.series p.field (index_of p.series.type p.field)
            (key_of p.series.type p.field p.series.instance_name)

      go :
          (x : Option CacheError)
          → p.error ≡ x
          → Settles f (
              elim x as (λ _. Exec (WorkerCache d r i) CacheError (Option (SeriesStats i))) [
                | some e ↦ raise e
                | none ↦ warm
              ]
                c)
      go (some x) q = λ k h. absurd (m k (q ∙ ap some h))
      go none q =
          warm_stats-Settles f p.series p.field (index_of p.series.type p.field)
            (key_of p.series.type p.field p.series.instance_name) c (λ s h. e q s h ∙ rw q refl)

  stats_get-Settles :
      (key : String) (worker : Worker) (config : WorkerConfig) (url : String)
      (c : WorkerCache d r i)
      → Settles
          (stats_get d r i prefix t u key worker config url)
          (stats_get d r i prefix t u key worker config url c)
  unfolding stats_get
  stats_get-Settles key worker config url c = elim (str_eq url "") as (λ b. Settles (f b) (f b c)) [
    | true ↦ refl
    | false ↦
        (let again = parse_stats-Again d r i prefix t key worker config url c in
          let (o, s) = parse c in go o s again)
  ]
    where
      parse : Exec (WorkerCache d r i) CacheError Parsed
      parse = parse_stats d r i prefix t key worker config url

      f : Bool → Exec (WorkerCache d r i) CacheError (Option (SeriesStats i))
      f b = if b then pure none else parse >>= parsed_stats d r i prefix t u

      go :
          (o : Outcome CacheError Parsed) (s : WorkerCache d r i)
          → ParsesAgain d r i prefix t parse (o, s)
          → Settles (f false) (continue o (parsed_stats d r i prefix t u) s)
      go (done p) s (m, again) =
          parsed_stats-Settles (f false) p s m
            (λ n s2 h. bind_after parse (parsed_stats d r i prefix t u) s2 (again n s2 h))
      go (failed e) s h = absurd h
      go panicked s h = tt

  -- An answer about a worker's statistics is given again by the cache that it leaves, without another
  -- query and without a change of the cache.
  pub stats_get_repeats :
      (key : String) (worker : Worker) (config : WorkerConfig) (url : String)
      (c c' : WorkerCache d r i) (o : Option (SeriesStats i))
      → stats_get d r i prefix t u key worker config url c ≡ (done o, c')
      → stats_get d r i prefix t u key worker config url c' ≡ (done o, c')
  stats_get_repeats key worker config url c c' o h =
      subst (Settles (stats_get d r i prefix t u key worker config url)) h
        (stats_get-Settles key worker config url c)

  -- Statistics that an eager cache does not find are an error only once: the cache that this leaves
  -- answers the same question with none, and no error.
  pub missing_once :
      (key : String) (worker : Worker) (config : WorkerConfig) (url k : String)
      (c c' : WorkerCache d r i)
      → stats_get d r i prefix t u key worker config url c ≡ (failed (not_found k), c')
      → c'.eager ≡ true
      → stats_get d r i prefix t u key worker config url c' ≡ (done none, c')
  missing_once key worker config url k c c' h =
      subst (Settles (stats_get d r i prefix t u key worker config url)) h
        (stats_get-Settles key worker config url c) k refl
