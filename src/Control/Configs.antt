-- ===== src/Control/Configs.antt =====
-- control/config.go: the configurations of workers, as the web interface lists and changes them. The
-- path of the manager's keys and the time are arguments.
use close.Prelude.{
  Assoc, Exec, List, Option, Result, String, Value, [], attempt, done, err, failed, if◌then◌else◌,
  ok, pure, str_eq, ℕ, ◌++◌, ◌>>=◌, ◌∷◌,
}
use close.Config.Redis.{
  RedisError, invalid_sub, list_subs, sub_path, get as get_config, check as check_config,
  list_types as types_of, get_sub as sub_of,
}
use close.Config.Sub.{Redis, push}
use close.Config.Id.{ConfigId, InvalidId, valid}

pub record ConfigItem : Type 0 where
  pub id : ConfigId
  pub ttl : ℕ  -- in nanoseconds

-- `ConfigPush` also fails if a worker cannot be told
pub data ConfigError : Type 0 where
  config_redis : RedisError → ConfigError
  push_failed : ConfigError

module _ (r : Redis) (prefix : String) where
  unfoldable pub item_of : ConfigId → Result {0, 0} RedisError ℕ → List ConfigItem
  item_of id (err e) = []
  item_of id (ok ttl) = record { id = id; ttl = ttl } ∷ []

  -- the range over the subs of a type: one whose TTL cannot be read is left out
  unfoldable pub items_of : List ConfigId → Exec r.State RedisError (List ConfigItem)
  unfolding item_of
  items_of [] = pure []
  items_of (id ∷ ids) = do
    ttl ← attempt (check_config r (sub_path prefix id))
    more ← items_of ids
    pure (item_of id ttl ++ more)

  -- the range over the types
  unfoldable pub items_of_types : ℕ → List String → Exec r.State RedisError (List ConfigItem)
  unfolding items_of
  items_of_types now [] = pure []
  items_of_types now (sub_type ∷ types) = do
    subs ← list_subs r prefix now sub_type
    here ← items_of subs
    more ← items_of_types now types
    pure (here ++ more)

  -- `ConfigList`, by the type of the filter
  unfoldable pub config_list : ℕ → String → Exec r.State RedisError (List ConfigItem)
  unfolding items_of_types
  config_list now filter_type = do
    types ← if str_eq filter_type "" then types_of r prefix else pure (filter_type ∷ [])
    items_of_types now types

  -- `ConfigGet`
  unfoldable pub config_get : ConfigId → Exec r.State RedisError (Assoc Value)
  config_get id = do sub ← sub_of r id; get_config r (sub_path prefix sub)

  -- `ConfigPush`, with the encoded configuration
  unfoldable pub config_push : ConfigId → Option String → Exec r.State ConfigError (Unit {0})
  config_push id json s =
      if valid id
      then (let (heard, s') = push r (sub_path prefix id) json s in
          (if heard then done tt else failed push_failed, s'))
      else (failed (config_redis (invalid_sub (InvalidId.invalid_id id))), s)
