-- ===== src/Config/Sub.antt =====
-- config/sub.go and config/config.go: the registration of a worker's configuration in Redis. The Redis
-- client and the encoding of configurations are parameters; logging is left out. `none` is an error.
pub mod Cleared
pub mod Alone
pub mod Examples
use close.Prelude.{
  Assoc, Bool, List, Option, String, Value, [], false, none, not, some, sub64, u64, ℕ, ◌+◌, ◌/◌,
  ◌==◌, ◌∷◌,
}

-- The calls of the client that a `Sub` makes. An answer may come with any change of the state.
pub record Redis : Type 1 where
  pub State : Type 0
  pub sadd : String → String → State → Option (Unit {0}) × State  -- registerType
  pub set_key : String → String → ℕ → State → Option (Unit {0}) × State  -- with the expiry
  pub expire_at : String → ℕ → State → Option (Unit {0}) × State
  pub zadd : String → ℕ → String → State → Option (Unit {0}) × State
  pub zrem : String → String → State → Option (Unit {0}) × State
  pub del : String → State → Option (Unit {0}) × State
  pub publish : String → String → State → Option ℕ × State  -- the number of receivers
  pub get_key : String → State → Option String × State
  pub pttl : String → State → Option ℕ × State  -- time.Duration
  pub smembers : String → State → Option (List String) × State
  pub zrange : String → ℕ → State → Option (List String) × State  -- from a score, in seconds
  pub decode : String → Option (Assoc Value)  -- of JSON, with json.Number

-- `SUB_TTL`, in nanoseconds
abbrev pub sub_ttl : ℕ
sub_ttl = 10_000_000_000

-- What the loop of `register` receives: a push, with what the worker's main loop returned for it (none
-- for an error) and the time, the refresh timer with its time, or the end of the subscription.
pub data Turn : Type 0 where
  pushed : Option String → ℕ → Turn
  refreshes : ℕ → Turn
  closes : Turn

-- how a registration ended: before its loop, or by the end of the subscription or a failed refresh; or
-- the loop waits for more
pub data Ending : Type 0 where
  not_registered ended waiting : Ending

module _ (r : Redis) where
  -- `set`, on the encoded configuration
  unfoldable pub set : String → Option String → ℕ → r.State → Option (Unit {0}) × r.State
  set path none expire s = (none, s)
  set path (some json) expire s = r.set_key path json expire s

  unfoldable pub then_zadd :
      String → String → ℕ → Option (Unit {0}) → r.State → Option (Unit {0}) × r.State
  then_zadd path zpath expire none s = (none, s)
  then_zadd path zpath expire (some u) s = r.zadd zpath expire path s

  -- `refresh`
  unfoldable pub refresh : String → String → ℕ → r.State → Option (Unit {0}) × r.State
  unfolding then_zadd
  refresh path zpath expire s =
      let (a, s') = r.expire_at path expire s in then_zadd path zpath (expire / 1_000_000_000) a s'

  -- `clear`: errors are only logged
  unfoldable pub clear : String → String → r.State → r.State
  clear path zpath s = (r.del path (r.zrem zpath path s).1).1

  -- the push case, whose errors are only logged: the key is kept until `expire`
  unfoldable pub handle_push : String → ℕ → Option String → ℕ → r.State → r.State
  unfolding set
  handle_push path expire none now s = s
  handle_push path expire (some json) now s = (set path (some json) (sub64 expire now) s).1

  -- The loop of `register`, with the deferred `clear` where it returns.
  unfoldable pub loop : String → String → ℕ → List Turn → r.State → Ending × r.State
  unfolding refresh clear handle_push
  loop path zpath expire [] s = (waiting, s)
  loop path zpath expire (pushed returned now ∷ turns) s =
      loop path zpath expire turns (handle_push path expire returned now s)
  loop path zpath expire (refreshes now ∷ turns) s =
      let next = u64 (now + sub_ttl) in
      let (answer, s') = refresh path zpath next s in
      let rest = loop path zpath next turns s' in
      elim answer [ none ↦ (ended, clear path zpath s') | some u ↦ rest ]
  loop path zpath expire (closes ∷ turns) s = (ended, clear path zpath s)

  -- `register` behind the first `set`
  unfoldable pub registered :
      String → String → ℕ → List Turn → Option (Unit {0}) → r.State → Ending × r.State
  unfolding loop refresh
  registered path zpath expire turns none s = (not_registered, s)
  registered path zpath expire turns (some u) s =
      let (answer, s') = refresh path zpath expire s in
      elim answer [ none ↦ (not_registered, s') | some u ↦ loop path zpath expire turns s' ]

  -- `register`, which reads the clock at `now` and at `later`; `types` is the key of the set of types
  unfoldable pub register :
      String
      → String
      → String
      → String
      → Option String
      → ℕ
      → ℕ
      → List Turn
      → r.State
      → Ending × r.State
  unfolding registered set
  register types sub_type path zpath config now later turns s =
      let expire = u64 (now + sub_ttl) in
      let (answer, s1) = r.sadd types sub_type s in
      elim answer [
        | none ↦ (not_registered, s1)
        | some u ↦
            (let (stored, s2) = set path config (sub64 expire later) s1 in
              registered path zpath expire turns stored s2)
      ]

  -- `Push`, on the encoded configuration: an error if nothing is subscribed to the path
  unfoldable pub push : String → Option String → r.State → Bool × r.State
  push path none s = (false, s)
  push path (some json) s =
      let (count, s') = r.publish path json s in
      (elim count [ none ↦ false | some n ↦ not (n == 0) ], s')
