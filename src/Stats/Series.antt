-- ===== src/Stats/Series.antt =====
-- stats/stats.go and stats/reader.go: the identities of series and the data that is read.
use close.Prelude.{List, String, ℕ}
use close.Stats.Influx.{Influx}

-- `stats.ID`
pub record StatsId : Type 0 where
  pub type : String
  pub hostname : String
  pub instance_name : String

pub record SeriesMeta : Type 0 where
  pub type : String
  pub fields : List String

pub record SeriesKey : Type 0 where
  pub type : String
  pub hostname : String
  pub instance_name : String

abbrev pub no_key : SeriesKey
no_key = record { type = ""; hostname = ""; instance_name = "" }

pub data ReaderError : Type 0 where
  query_failed response_error : ReaderError
  invalid_time invalid_value : ReaderError

module _ (i : Influx) where
  pub record SeriesPoint : Type 0 where
    pub time : ℕ
    pub value : i.Float

  pub record SeriesData : Type 0 where
    pub key : SeriesKey
    pub field : String
    pub points : List SeriesPoint

  -- `SeriesTab`
  pub record SeriesTab : Type 0 where
    pub time : ℕ
    pub mean : i.Float
    pub min : i.Float
    pub max : i.Float
    pub last : i.Float

  pub record SeriesStats : Type 0 where
    pub key : SeriesKey
    pub field : String
    pub tab : SeriesTab
