-- ===== src/Config/Redis.antt =====
-- config/redis.go, and the queries of config/sub.go: the keys in Redis and what is read from them.
use Prim.Native.Char.{code}
pub mod Listing
pub mod Examples
use close.Prelude.{
  Assoc, Exec, List, Option, Outcome, Result, String, Value, [], done, err, failed, if◌then◌else◌,
  is_natural, none, ok, pure, raise, some, str_eq, ℕ, ◌&&◌, ◌-◌, ◌/◌, ◌==◌, ◌>>=◌, ◌>>◌, ◌||◌, ◌∷◌,
  ◌⧺◌,
}
use close.Config.Id.{ConfigId, InvalidId, invalid_id, parse_id, valid}
use close.Config.Sub.{Redis, sub_ttl}
use close.Docker.Id.{base_name}
use close.Docker.Container.{State}

pub data RedisError : Type 0 where
  redis_failed decode_failed no_ttl : RedisError
  invalid_sub : InvalidId → RedisError

-- `path.Join` of a path that is clean or empty with one more part that holds neither a slash nor only
-- dots
unfoldable pub join_path : String → String → String
join_path prefix part =
    if str_eq part ""
    then prefix
    else if str_eq prefix "" || str_eq prefix "."
    then part
    else if str_eq prefix "/"
    then "/" ⧺ part
    else prefix ⧺ ("/" ⧺ part)

-- `Redis.path`, of the ID's parts
unfoldable pub sub_path : String → ConfigId → String
unfolding join_path
sub_path prefix id = join_path (join_path prefix id.type) id.instance_name

-- `path.Base`
unfoldable pub trim_slashes : String → String
trim_slashes String.[] = String.[]
trim_slashes (String.◌∷◌ c s) =
    let rest = trim_slashes s in
    if code c == b'/' && str_eq rest "" then String.[] else String.◌∷◌ c rest

unfoldable pub path_base : String → String
unfolding trim_slashes
path_base path =
    if str_eq path ""
    then "."
    else if str_eq (trim_slashes path) ""
    then "/"
    else base_name (trim_slashes path)

unfoldable pub or_failed : {S E A : Type 0} → E → Option A × S → Outcome E A × S
or_failed e (none, s) = (failed e, s)
or_failed e (some a, s) = (done a, s)

module _ (r : Redis) where
  -- `Sub.Check`: the remaining TTL
  unfoldable pub check : String → Exec r.State RedisError ℕ
  unfolding or_failed
  check path = do
    ttl ← (λ s. or_failed redis_failed (r.pttl path s))
    if is_natural ttl then pure ttl else raise no_ttl

  -- `Sub.Get`
  unfoldable pub get : String → Exec r.State RedisError (Assoc Value)
  unfolding or_failed
  get path = do
    json ← (λ s. or_failed redis_failed (r.get_key path s))
    elim (r.decode json) [ none ↦ raise decode_failed | some m ↦ pure m ]

  unfoldable pub id_or_failed : Result InvalidId ConfigId → Exec r.State RedisError ConfigId
  id_or_failed (err e) = raise (invalid_sub e)
  id_or_failed (ok id) = pure id

  -- `GetSub`
  unfoldable pub get_sub : ConfigId → Exec r.State RedisError ConfigId
  get_sub id = if valid id then pure id else raise (invalid_sub (InvalidId.invalid_id id))

  -- `ListTypes`; `prefix` is the path of the set
  unfoldable pub list_types : String → Exec r.State RedisError (List String)
  unfolding or_failed
  list_types prefix s = or_failed redis_failed (r.smembers prefix s)

  -- the range of `List`
  unfoldable pub subs_of : String → List String → Exec r.State RedisError (List ConfigId)
  unfolding path_base id_or_failed
  subs_of sub_type [] = pure []
  subs_of sub_type (path ∷ paths) = do
    id ← id_or_failed (parse_id sub_type (path_base path))
    more ← subs_of sub_type paths
    pure (id ∷ more)

  -- `List`, at the time `now`
  unfoldable pub list_subs : String → ℕ → String → Exec r.State RedisError (List ConfigId)
  unfolding join_path or_failed subs_of
  list_subs prefix now sub_type = do
    members ← (λ s.
        or_failed redis_failed
          (r.zrange (join_path prefix sub_type) ((now - sub_ttl) / 1_000_000_000) s))
    subs_of sub_type members
