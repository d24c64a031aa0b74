-- ===== src/Config/Url.antt =====
-- config/url.go and stats/influxdb.go: the URLs of Redis and InfluxDB, and what the clients connect to.
-- Parsing of URLs, package net and the cleaning of paths are parameters.
use close.Prelude.{
  Bool, Bool-cases, Option, Option-cases, Result, String, err, false, if◌then◌else◌, inl, inr, none,
  not, ok, refl, some, str_eq, subst, sym, ◌||◌, ◌≡◌, ◌⊎◌, ◌⧺◌,
}

-- `url.URL`, the parts that are used
pub record Url : Type 0 where
  pub scheme : String
  pub user : Option (String × Option String)  -- the name, and the password if there is one
  pub host : String
  pub path : String

pub record Net : Type 0 where
  pub parse : String → Option Url
  pub split_host_port : String → Option (String × String)
  pub join_host_port : String → String → String
  pub clean : String → String  -- path.Clean

pub data UrlError : Type 0 where
  bad_url unsupported_url : UrlError

-- `REDIS_PORT` and `INFLUXDB_PORT`
abbrev pub redis_port : String
redis_port = "6379"

abbrev pub influxdb_port : String
influxdb_port = "8086"

-- `INFLUXDB_USER_AGENT`
abbrev pub influxdb_user_agent : String
influxdb_user_agent = "close-stats"

-- `redis.Options`, the fields that are set
pub record RedisOptions : Type 0 where
  pub network : String
  pub addr : String
  pub password : String

-- `influxdb.HTTPConfig`, the fields that are set
pub record HttpConfig : Type 0 where
  pub addr : String
  pub username : String
  pub password : String
  pub user_agent : String

-- `Password`, "" without one
password_of : Option (String × Option String) → String
password_of none = ""
password_of (some (name, none)) = ""
password_of (some (name, some password)) = password

name_of : Option (String × Option String) → String
name_of none = ""
name_of (some (name, password)) = name

-- `RedisURL.Empty`
unfoldable pub redis_empty : Url → Bool
redis_empty u = str_eq u.host ""

module _ (net : Net) where
  supported : Bool → Url → Result UrlError Url
  supported b u = if b then ok u else err unsupported_url

  -- `RedisURL.UnmarshalFlag`
  unfoldable pub unmarshal_redis : String → Result UrlError Url
  unfolding supported
  unmarshal_redis value = elim (net.parse value) [
    | none ↦ err bad_url
    | some u ↦ supported (str_eq u.scheme "tcp") u
  ]

  -- `InfluxURL.UnmarshalFlag`
  unfoldable pub unmarshal_influx : String → Result UrlError Url
  unfolding supported
  unmarshal_influx value = elim (net.parse value) [
    | none ↦ err bad_url
    | some u ↦ supported (str_eq u.scheme "http") u
  ]

  -- the host with its port, or with a default one
  with_port : String → String → String
  with_port host port = elim (net.split_host_port host) [
    | none ↦ net.join_host_port host port
    | some (h, p) ↦ if not (str_eq p "") then host else net.join_host_port host port
  ]

  -- `RedisOptions`
  unfoldable pub redis_options : Url → RedisOptions
  unfolding with_port password_of
  redis_options u = record {
    network = u.scheme;
    addr = with_port u.host redis_port;
    password = password_of u.user;
  }

  -- `Prefix`
  unfoldable pub redis_prefix : Url → String
  redis_prefix u = net.clean u.path

  -- `httpConfig`
  unfoldable pub http_config : Url → HttpConfig
  unfolding with_port password_of name_of
  http_config u = record {
    addr = u.scheme ⧺ ("://" ⧺ with_port u.host influxdb_port);
    username = name_of u.user;
    password = password_of u.user;
    user_agent = influxdb_user_agent;
  }

  -- `Connect`, as far as the client
  unfoldable pub connect : Url → Result UrlError HttpConfig
  unfolding http_config
  connect u =
      if str_eq u.scheme "http" || str_eq u.scheme "https"
      then ok (http_config u)
      else err unsupported_url

  -- a port that is not empty
  abbrev pub HasPort : String → Type 0
  HasPort addr =
      (host : String) × (port : String) × (net.split_host_port addr ≡ some (host, port))
      × (str_eq port "" ≡ false)

  with_port_cases :
      (host port : String)
      → (with_port host port ≡ net.join_host_port host port)
        ⊎ ((h : String) × (p : String) × (net.split_host_port host ≡ some (h, p))
            × (str_eq p "" ≡ false)
            × (with_port host port ≡ host))
  unfolding with_port
  with_port_cases host port = elim (Option-cases (net.split_host_port host)) [
    | inl n ↦ inl (rw (with_port, n) refl)
    | inr ((h, p), e) ↦ elim (Bool-cases (str_eq p "")) [
      | inl q ↦ inl (rw (with_port, e, q) refl)
      | inr q ↦ inr (h, p, e, q, rw (with_port, e, q) refl)
    ]
  ]

  -- If the default port can be added to the host, the address of Redis always has a port: the one of the
  -- URL, or the default one.
  pub redis_options-HasPort :
      (u : Url)
      → net.split_host_port (net.join_host_port u.host redis_port) ≡ some (u.host, redis_port)
      → HasPort (redis_options u).addr
  unfolding redis_options
  redis_options-HasPort u law = elim (with_port_cases u.host redis_port) [
    | inl e ↦ subst HasPort (sym e) (u.host, redis_port, law, refl)
    | inr (h, p, e, q, same) ↦ subst HasPort (sym same) (h, p, e, q)
  ]
