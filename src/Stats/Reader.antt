-- ===== src/Stats/Reader.antt =====
-- stats/reader.go: queries and the decoding of their answers. A row that is shorter than the list of
-- its columns panics.
pub mod Decoding
use close.Prelude.{
  Exec, List, Option, String, Value, [], if◌then◌else◌, json_number, json_other, json_text, lookup,
  max, min, none, not, panic, pure, raise, some, str_eq, suc, zero, ℕ, ◌&&◌, ◌++◌, ◌+◌, ◌>>=◌, ◌>>◌,
  ◌∷◌, ◌⧺◌,
}
use close.Stats.Influx.{Influx, InfluxUrl, Query, Response, Row, make_query}
use close.Stats.Series.{
  ReaderError, SeriesData, SeriesKey, SeriesMeta, SeriesPoint, SeriesStats, SeriesTab, invalid_time,
  invalid_value, no_key, query_failed, response_error,
}
use close.Docker.Container.{State}

abbrev pub quoted : String → String → String
quoted before name = before ⧺ ("\"" ⧺ (name ⧺ "\""))

abbrev pub equal_to : String → String → String
equal_to before value = before ⧺ ("='" ⧺ (value ⧺ "'"))

-- the command of `ListSeries`
unfoldable pub series_command : SeriesKey → String
series_command filter =
    if str_eq filter.type ""
    then "SHOW SERIES"
    else "SHOW SERIES"
      ⧺ (quoted " FROM " filter.type
          ⧺ (if str_eq filter.hostname "" && str_eq filter.instance_name ""
              then ""
              else " WHERE"
                ⧺ ((if str_eq filter.hostname "" then "" else equal_to " hostname" filter.hostname)
                    ⧺ ((if not (str_eq filter.hostname "") && not (str_eq filter.instance_name "")
                          then " AND"
                          else "")
                        ⧺ (if str_eq filter.instance_name ""
                            then ""
                            else equal_to " instance" filter.instance_name)))))

-- the conditions and groups at the end of the commands of `GetSeries` and `GetStats`
unfoldable pub filter_command : SeriesKey → String
filter_command series =
    (if str_eq series.hostname "" then "" else equal_to " AND hostname" series.hostname)
    ⧺ ((if str_eq series.instance_name ""
          then ""
          else equal_to " AND instance" series.instance_name)
        ⧺ " GROUP BY hostname, instance")

-- `strings.Join(fields, ", ")`
unfoldable pub join_fields : List String → String
join_fields [] = ""
join_fields (f ∷ []) = f
join_fields (f ∷ g ∷ fs) = f ⧺ (", " ⧺ join_fields (g ∷ fs))

-- `stringValue, _ := fieldValue.(string)`
unfoldable pub text_of : Value → String
text_of (json_text s) = s
text_of (json_number s) = ""
text_of json_other = ""

-- `series.Tags[name]`
unfoldable pub tag : String → Row → String
tag name row = elim (lookup name row.tags) [ none ↦ "" | some v ↦ v ]

unfoldable pub key_of : Row → SeriesKey
unfolding tag
key_of row = record {
  type = row.name;
  hostname = tag "hostname" row;
  instance_name = tag "instance" row;
}

module _ {S : Type 0} where
  -- the range over the columns of one row, in `ListTypes`
  unfoldable pub field_keys : List String → List Value → Exec S ReaderError (List String)
  unfolding text_of
  field_keys [] vs = pure []
  field_keys (c ∷ cs) [] = panic
  field_keys (c ∷ cs) (v ∷ vs) = do
    more ← field_keys cs vs
    pure (if str_eq c "fieldKey" then text_of v ∷ more else more)

  unfoldable pub all_field_keys : List String → List (List Value) → Exec S ReaderError (List String)
  unfolding field_keys
  all_field_keys cs [] = pure []
  all_field_keys cs (vs ∷ vss) = do
    fields ← field_keys cs vs
    more ← all_field_keys cs vss
    pure (fields ++ more)

  unfoldable pub metas_of : List Row → Exec S ReaderError (List SeriesMeta)
  unfolding all_field_keys
  metas_of [] = pure []
  metas_of (row ∷ rows) = do
    fields ← all_field_keys row.columns row.values
    more ← metas_of rows
    pure (record { type = row.name; fields = fields } ∷ more)

  -- the range over the columns of one row, in `ListSeries`
  unfoldable pub read_key : SeriesKey → List String → List Value → Exec S ReaderError SeriesKey
  unfolding text_of
  read_key key [] vs = pure key
  read_key key (c ∷ cs) [] = panic
  read_key key (c ∷ cs) (v ∷ vs) =
      read_key
        (if str_eq c "hostname"
          then record key { hostname = text_of v }
          else if str_eq c "instance"
          then record key { instance_name = text_of v }
          else key)
        cs vs

  unfoldable pub keys_of :
      String → List String → List (List Value) → Exec S ReaderError (List SeriesKey)
  unfolding read_key
  keys_of name cs [] = pure []
  keys_of name cs (vs ∷ vss) = do
    key ← read_key (record (no_key) { type = name }) cs vs
    more ← keys_of name cs vss
    pure (key ∷ more)

  unfoldable pub series_of : List Row → Exec S ReaderError (List SeriesKey)
  unfolding keys_of
  series_of [] = pure []
  series_of (row ∷ rows) = do
    keys ← keys_of row.name row.columns row.values
    more ← series_of rows
    pure (keys ++ more)

  -- the range over the results of a response
  unfoldable pub over_results :
      {A : Type 0}
      → (List Row → Exec S ReaderError (List A))
      → List (List Row)
      → Exec S ReaderError (List A)
  over_results f [] = pure []
  over_results f (rows ∷ more) = do here ← f rows; rest ← over_results f more; pure (here ++ rest)

-- `rowValues[i]`
unfoldable pub value_at : {S : Type 0} → ℕ → List Value → Exec S ReaderError Value
value_at i [] = panic
value_at zero (v ∷ vs) = pure v
value_at (suc i) (v ∷ vs) = value_at i vs

module _ (i : Influx) where
  -- a time, or a number, of a row
  unfoldable pub time_of : {S : Type 0} → Value → Exec S ReaderError ℕ
  time_of (json_text s) = elim (i.parse_time s) [ none ↦ raise invalid_time | some t ↦ pure t ]
  time_of (json_number s) = raise invalid_time
  time_of json_other = raise invalid_time

  unfoldable pub float_of : {S : Type 0} → Value → Exec S ReaderError i.Float
  float_of (json_text s) = raise invalid_value
  float_of (json_number s) = elim (i.to_float s) [ none ↦ raise invalid_value | some x ↦ pure x ]
  float_of json_other = raise invalid_value

  -- the points of one column, in `GetSeries`
  unfoldable pub points_of :
      {S : Type 0} → ℕ → List (List Value) → Exec S ReaderError (List (SeriesPoint i))
  unfolding value_at time_of float_of
  points_of column [] = pure []
  points_of column (vs ∷ vss) = do
    field_value ← value_at (suc column) vs
    first ← value_at 0 vs
    time ← time_of first
    value ← float_of field_value
    more ← points_of column vss
    pure (record { time = time; value = value } ∷ more)

  unfoldable pub columns_of :
      {S : Type 0} → Row → ℕ → List String → Exec S ReaderError (List (SeriesData i))
  unfolding points_of key_of
  columns_of row column [] = pure []
  columns_of row column (c ∷ cs) = do
    points ← points_of column row.values
    more ← columns_of row (column + 1) cs
    pure (record { key = key_of row; field = c; points = points } ∷ more)

  -- `series.Columns[1:]` panics without columns
  unfoldable pub data_of : {S : Type 0} → List Row → Exec S ReaderError (List (SeriesData i))
  unfolding columns_of
  data_of [] = pure []
  data_of (row ∷ rows) = do
    here ← elim row.columns [ [] ↦ panic | c ∷ cs ↦ columns_of row 0 cs ]
    more ← data_of rows
    pure (here ++ more)

  -- the switch on a column's name, in `GetStats`
  unfoldable pub set_column : String → i.Float → SeriesTab i → SeriesTab i
  set_column name x t =
      if str_eq name "mean"
      then record t { mean = x }
      else if str_eq name "min"
      then record t { min = x }
      else if str_eq name "max"
      then record t { max = x }
      else if str_eq name "last"
      then record t { last = x }
      else t

  -- one column of a row
  unfoldable pub read_column :
      {S : Type 0} → String → Value → SeriesTab i → Exec S ReaderError (SeriesTab i)
  unfolding time_of float_of set_column
  read_column name v t =
      if str_eq name "time"
      then (do time ← time_of v; pure (record t { time = time }))
      else (do x ← float_of v; pure (set_column name x t))

  -- the range over the columns of a row
  unfoldable pub read_tab :
      {S : Type 0} → SeriesTab i → List String → List Value → Exec S ReaderError (SeriesTab i)
  unfolding read_column
  read_tab t [] vs = pure t
  read_tab t (c ∷ cs) [] = panic
  read_tab t (c ∷ cs) (v ∷ vs) = do t' ← read_column c v t; read_tab t' cs vs

  abbrev pub no_tab : SeriesTab i
  no_tab = record {
    time = 0;
    mean = i.zero_float;
    min = i.zero_float;
    max = i.zero_float;
    last = i.zero_float;
  }

  unfoldable pub tabs_of :
      {S : Type 0} → String → Row → List (List Value) → Exec S ReaderError (List (SeriesStats i))
  unfolding read_tab key_of
  tabs_of field row [] = pure []
  tabs_of field row (vs ∷ vss) = do
    t ← read_tab no_tab row.columns vs
    more ← tabs_of field row vss
    pure (record { key = key_of row; field = field; tab = t } ∷ more)

  unfoldable pub stats_of :
      {S : Type 0} → String → List Row → Exec S ReaderError (List (SeriesStats i))
  unfolding tabs_of
  stats_of field [] = pure []
  stats_of field (row ∷ rows) = do
    here ← tabs_of field row row.values
    more ← stats_of field rows
    pure (here ++ more)

  -- `influxdbClient.Query`, and the error that a response holds
  unfoldable pub answered : Option Response → Exec i.State ReaderError (List (List Row))
  answered none = raise query_failed
  answered (some r) = if r.has_error then raise response_error else pure r.results

  unfoldable pub ask : Query → Exec i.State ReaderError (List (List Row))
  unfolding answered
  ask q s = let (r, s') = i.query q s in answered r s'

  module _ (u : InfluxUrl) where
    -- `ListTypes`
    unfoldable pub list_types : Exec i.State ReaderError (List SeriesMeta)
    unfolding make_query ask over_results metas_of
    list_types = do
      query ← make_query u "SHOW FIELD KEYS"
      results ← ask query
      over_results metas_of results

    -- `ListSeries`
    unfoldable pub list_series : SeriesKey → Exec i.State ReaderError (List SeriesKey)
    unfolding make_query ask over_results series_of series_command
    list_series filter = do
      query ← make_query u (series_command filter)
      results ← ask query
      over_results series_of results

    -- `GetSeries`: Get full time-series data for given series's fields over given duration
    unfoldable pub get_series :
        SeriesKey → List String → ℕ → Exec i.State ReaderError (List (SeriesData i))
    unfolding make_query ask over_results data_of join_fields filter_command
    get_series series fields duration = do
      let query_fields = elim fields as (λ _. String) [ [] ↦ "*" | f ∷ fs ↦ join_fields fields ]
      query ← make_query u (
          "SELECT "
          ⧺ (query_fields
              ⧺ (quoted " FROM " series.type
                  ⧺ (" WHERE time > now() - "
                      ⧺ (i.seconds_text duration ⧺ ("s" ⧺ filter_command series))))))
      results ← ask query
      over_results data_of results

    -- the command of `GetStats`
    unfoldable pub stats_command : SeriesKey → String → ℕ → String
    unfolding filter_command
    stats_command series field duration =
        "SELECT MEAN(\""
        ⧺ (field
            ⧺ ("\") AS mean, MIN(\""
                ⧺ (field
                    ⧺ ("\") AS min, MAX(\""
                        ⧺ (field
                            ⧺ ("\") AS max, LAST(\""
                                ⧺ (field
                                    ⧺ (quoted "\") AS last FROM " series.type
                                        ⧺ (" WHERE time > now() - "
                                            ⧺ (i.seconds_text duration
                                                ⧺ ("s" ⧺ filter_command series)))))))))))

    -- `GetStats`
    unfoldable pub get_stats :
        SeriesKey → String → ℕ → Exec i.State ReaderError (List (SeriesStats i))
    unfolding make_query ask over_results stats_of stats_command
    get_stats series field duration = do
      query ← make_query u (stats_command series field duration)
      results ← ask query
      over_results (stats_of field) results
