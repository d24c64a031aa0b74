-- ===== src/Config/Sub/Examples.antt =====
-- A store of keys, and a registration with one push and one refresh.
use close.Prelude.{
  Assoc, String, [], delete, insert, lookup, lookup-delete, if◌then◌else◌, none, refl, some, suc, ℕ,
  ◌==◌, ◌∷◌, ◌≡◌,
}
use close.Config.Sub.{
  Redis, clear, closes, handle_push, loop, pushed, refresh, refreshes, register, registered, set,
  then_zadd,
}
use close.Config.Sub.Alone.{close_nil, register_alone, register_alone_panics}
use close.Config.Sub.Cleared.{register_clears}

-- a store of keys in which nothing else is kept
abbrev pub store : Redis
store = record {
  State = Assoc String;
  sadd = λ key member s. (some tt, s);
  set_key = λ key json expiry s. (some tt, insert key json s);
  expire_at = λ key time s. (some tt, s);
  zadd = λ key score member s. (some tt, s);
  zrem = λ key member s. (some tt, s);
  del = λ key s. (some tt, delete key s);
  publish = λ key json s. (some 1, s);
  get_key = λ key s. (lookup key s, s);
  pttl = λ key s. (some 5, s);
  smembers = λ key s. (some [], s);
  zrange = λ key score s. (some [], s);
  decode = λ json. some [];
}

deleted : (s : Assoc String) → lookup "close/ping/1" (delete "close/ping/1" s) ≡ none
deleted s = lookup-delete "close/ping/1" "close/ping/1" s

register_clears_example :
    lookup "close/ping/1"
      (register store "close" "ping" "close/ping/1" "close/ping"
        (some "{}")
        0
        1
        (pushed (some "{1}") 2 ∷ refreshes 5 ∷ closes ∷ [])
        []).1
    ≡ none
unfolding register registered set loop handle_push refresh then_zadd clear
register_clears_example =
    register_clears store "close/ping/1" "close/ping" (λ s. lookup "close/ping/1" s ≡ none) "close"
      "ping" (some "{}") 0 1 (pushed (some "{1}") 2 ∷ refreshes 5 ∷ closes ∷ []) [] deleted refl

-- a store that counts the times of expiry it is given, and refuses the third
abbrev refuses : Redis
refuses = record {
  State = ℕ;
  sadd = λ key member s. (some tt, s);
  set_key = λ key json expiry s. (some tt, s);
  expire_at = λ key time s. (if s == 2 then none else some tt, suc s);
  zadd = λ key score member s. (some tt, s);
  zrem = λ key member s. (some tt, s);
  del = λ key s. (some tt, s);
  publish = λ key json s. (some 1, s);
  get_key = λ key s. (none, s);
  pttl = λ key s. (some 5, s);
  smembers = λ key s. (some [], s);
  zrange = λ key score s. (some [], s);
  decode = λ json. some [];
}

register_alone_panics_example :
    (register_alone refuses "close" "dns" "close/dns/1" "close/dns"
      (some "{}")
      0
      1
      (5 ∷ 10 ∷ [])
      0).0
    ≡ none
unfolding register_alone register registered set loop refresh then_zadd close_nil
register_alone_panics_example =
    register_alone_panics refuses "close" "dns" "close/dns/1" "close/dns" (some "{}") 0 1 (5 ∷ [])
      [] 10 0 2 refl refl
