-- ===== src/Control/Workers/Cache/Fetch.antt =====
-- control/worker.go: the statistics of workers behind the cache of a listing.
use close.Prelude.{
  Assoc, Exec, List, Option, String, [], done, failed, if◌then◌else◌, insert, lookup, none, pure,
  raise, some, str_eq, true, ◌>>=◌, ◌>>◌, ◌∷◌,
}
use close.Control.Workers.Cache.{
  CacheError, Parsed, Texts, WorkerCache, in_influx, index_of, key_of, not_found, parse_stats,
}
use close.Stats.Reader.{get_stats}
use close.Config.Sub.{Redis}
use close.Control.Types.{Worker, WorkerConfig}
use close.Docker.Daemon.{Daemon}
use close.Stats.Influx.{Influx, InfluxUrl}
use close.Stats.Series.{SeriesKey, SeriesStats}

module _ (d : Daemon) (r : Redis) (i : Influx) (prefix : String) (t : Texts) where
  -- the loop over the statistics that were read
  unfoldable pub keep_stats : List (SeriesStats i) → Assoc (SeriesStats i) → Assoc (SeriesStats i)
  unfolding key_of
  keep_stats [] m = m
  keep_stats (s ∷ ss) m = keep_stats ss (insert (key_of s.key.type s.field s.key.instance_name) s m)

  unfoldable pub put_stats :
      String → List (SeriesStats i) → Exec (WorkerCache d r i) CacheError (Unit {0})
  unfolding keep_stats
  put_stats cache_index found c = (
    done tt,
    record c {
      stats = keep_stats found c.stats;
      index = if c.eager then insert cache_index true c.index else c.index;
    },
  )

  -- `found` in the hot cache
  unfoldable pub hot : String → Exec (WorkerCache d r i) CacheError (Option (SeriesStats i))
  hot cache_key c = (
    elim (lookup cache_key c.stats) [
      | none ↦ failed (not_found cache_key)
      | some s ↦ done (some s)
    ],
    c,
  )

  -- the query, of all instances if the cache is eager
  unfoldable pub fetch_stats :
      InfluxUrl
      → SeriesKey
      → String
      → String
      → String
      → Exec (WorkerCache d r i) CacheError (Option (SeriesStats i))
  unfolding in_influx put_stats hot
  fetch_stats u series field cache_index cache_key = do
    found ← (λ c.
        in_influx d r i
          (get_stats i u (if c.eager then record series { instance_name = "" } else series) field
            10_000_000_000)
          c)
    put_stats cache_index found
    hot cache_key

  -- the warm cache and the negative cache
  unfoldable pub warm_stats :
      InfluxUrl
      → SeriesKey
      → String
      → String
      → String
      → Exec (WorkerCache d r i) CacheError (Option (SeriesStats i))
  unfolding fetch_stats
  warm_stats u series field cache_index cache_key c = elim (lookup cache_key c.stats) [
    | some s ↦ (done (some s), c)
    | none ↦ elim (lookup cache_index c.index) [
      | some b ↦ (done none, c)
      | none ↦ fetch_stats u series field cache_index cache_key c
    ]
  ]

  -- `StatsGet` behind `parseStats`
  unfoldable pub parsed_stats :
      InfluxUrl → Parsed → Exec (WorkerCache d r i) CacheError (Option (SeriesStats i))
  unfolding warm_stats key_of index_of
  parsed_stats u p = elim (p.error) [
    | some e ↦ raise e
    | none ↦
        warm_stats u p.series p.field (index_of p.series.type p.field)
          (key_of p.series.type p.field p.series.instance_name)
  ]

  -- `StatsGet`
  unfoldable pub stats_get :
      InfluxUrl
      → String
      → Worker
      → WorkerConfig
      → String
      → Exec (WorkerCache d r i) CacheError (Option (SeriesStats i))
  unfolding parse_stats parsed_stats
  stats_get u key worker config stats_url =
      if str_eq stats_url ""
      then pure none
      else (do p ← parse_stats d r i prefix t key worker config stats_url; parsed_stats u p)
