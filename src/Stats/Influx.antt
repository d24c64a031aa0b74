-- ===== src/Stats/Influx.antt =====
-- stats/influxdb.go, and the client of InfluxDB, which is not part of the repository: a state of the
-- database and its answers. Numbers stay opaque: the type of floating point numbers, their decoding and
-- that of times are parameters as well.
use Prim.Native.Char.{code}
use close.Prelude.{
  Assoc, Bool, Exec, List, Option, String, Value, if◌then◌else◌, none, panic, pure, some, str_eq, ℕ,
  ◌==◌, ◌>>=◌,
}

-- `InfluxURL`, the fields of a URL that are read
pub record InfluxUrl : Type 0 where
  pub scheme : String
  pub host : String
  pub path : String

pub record Query : Type 0 where
  pub command : String
  pub database : String

-- `models.Row`
pub record Row : Type 0 where
  pub name : String
  pub tags : Assoc String
  pub columns : List String
  pub values : List (List Value)

pub record Response : Type 0 where
  pub has_error : Bool
  pub results : List (List Row)

pub record Influx : Type 1 where
  pub State : Type 0
  pub query : Query → State → Option Response × State  -- none for an error
  pub Float : Type 0
  pub zero_float : Float
  pub to_float : String → Option Float  -- json.Number's Float64
  pub parse_time : String → Option ℕ  -- time.Parse with time.RFC3339
  pub seconds_text : ℕ → String  -- "%v" of a duration's Seconds()

-- the text between the first slash and the next; none without a slash: `strings.Split(path, "/")[1]`
unfoldable pub until_slash : String → String
until_slash String.[] = String.[]
until_slash (String.◌∷◌ c s) =
    let rest = until_slash s in if code c == b'/' then String.[] else String.◌∷◌ c rest

unfoldable pub second_part : String → Option String
unfolding until_slash
second_part String.[] = none
second_part (String.◌∷◌ c s) =
    let rest = second_part s in if code c == b'/' then some (until_slash s) else rest

-- `Empty`
unfoldable pub is_empty : InfluxUrl → Bool
is_empty u = str_eq u.scheme ""

-- `Database`; a path without a slash panics
unfoldable pub database : {S E : Type 0} → InfluxUrl → Exec S E String
unfolding second_part
database u =
    if str_eq u.path ""
    then pure "close"
    else elim (second_part u.path) [ none ↦ panic | some name ↦ pure name ]

-- `Query`
unfoldable pub make_query : {S E : Type 0} → InfluxUrl → String → Exec S E Query
unfolding database
make_query u command = do name ← database u; pure (record { command = command; database = name })
