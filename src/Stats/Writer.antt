-- ===== src/Stats/Writer.antt =====
-- stats/writer.go: the identity under which statistics are written, and the loop that writes them. The
-- client's making of a point, which may fail, is a parameter.
pub mod Pacing
use Prim.Native.Char.{code}
use close.Prelude.{
  Assoc, Bool, List, Option, String, [], if◌then◌else◌, none, not, some, str_eq, ℕ, ◌++◌, ◌==◌, ◌∷◌,
}
use close.Stats.Influx.{InfluxUrl, is_empty}
use close.Stats.Series.{StatsId}

pub record WriterOptions : Type 0 where
  pub influx_url : InfluxUrl
  pub hostname : String
  pub instance_name : String
  pub interval : ℕ  -- time.Duration
  pub print : Bool

-- `WriterOptions.Empty`
unfoldable pub options_empty : WriterOptions → Bool
unfolding is_empty
options_empty o = is_empty o.influx_url

-- `strings.Split(hostname, ".")[0]`, which is the text itself if it has no dot
unfoldable pub until_dot : String → String
until_dot String.[] = String.[]
until_dot (String.◌∷◌ c s) =
    let rest = until_dot s in if code c == b'.' then String.[] else String.◌∷◌ c rest

-- `NewWriter`, before it connects: none for an error of `os.Hostname`
unfoldable pub writer_options : Option String → WriterOptions → Option WriterOptions
unfolding until_dot
writer_options os_hostname o =
    if not (str_eq o.hostname "")
    then some (record o { hostname = until_dot o.hostname })
    else elim os_hostname [
      | none ↦ none
      | some name ↦ some (record o { hostname = until_dot name })
    ]

-- the defaults of `write`
unfoldable pub write_id : WriterOptions → StatsId → StatsId
write_id o id = record id {
  hostname = if str_eq id.hostname "" then o.hostname else id.hostname;
  instance_name = if str_eq id.instance_name "" then o.instance_name else id.instance_name;
}

-- `Stats`
pub record Stats (Fields : Type 0) : Type 0 where
  pub stats_id : StatsId
  pub stats_time : ℕ
  pub stats_fields : Fields

module _ {Fields Point : Type 0} where
  -- `write`: what goes to `writeChan`
  unfoldable pub write :
      (String → Assoc String → Fields → ℕ → Option Point)
      → WriterOptions
      → Stats Fields
      → List Point
  unfolding write_id
  write new_point o s =
      let id = write_id o s.stats_id in
      elim (new_point id.type (("hostname", id.hostname) ∷ ("instance", id.instance_name) ∷ [])
        s.stats_fields s.stats_time) [ none ↦ [] | some p ↦ p ∷ [] ]

  -- the range of `statsWriter`
  unfoldable pub write_all :
      (String → Assoc String → Fields → ℕ → Option Point)
      → WriterOptions
      → List (Stats Fields)
      → List Point
  unfolding write
  write_all new_point o [] = []
  write_all new_point o (s ∷ ss) = write new_point o s ++ write_all new_point o ss
