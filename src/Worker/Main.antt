-- ===== src/Worker/Main.antt =====
-- worker/main.go, worker/worker.go and worker/stop.go: the start of a worker by its command. What the
-- worker and the clients of Redis and InfluxDB do is a parameter; logging is left out.
pub mod Order
use close.Prelude.{
  Assoc, Bool, Exec, List, Option, String, [], done, failed, if◌then◌else◌, insert, lookup, none,
  panic, pure, some, ◌>>=◌, ◌>>◌, ◌∷◌,
}
use close.Config.Redis.{or_failed}

-- how the program ends with an error
pub data Fatal : Type 0 where
  parse_failed extra_arguments no_command invalid_command : Fatal
  worker_failed redis_failed new_sub_failed config_sub_failed : Fatal
  new_writer_failed stats_writer_failed run_failed : Fatal

-- The calls of `Main`, on whatever they change; none is an error. The three flags are what the assertions
-- of the interfaces say of the worker.
pub record Program (S : Type 0) : Type 0 where
  pub worker : S → Option (Unit {0}) × S
  pub is_config_worker : Bool
  pub new_redis : S → Option (Unit {0}) × S
  pub new_sub : S → Option (Unit {0}) × S
  pub config_sub : S → Option (Unit {0}) × S
  pub is_stats_worker : Bool
  pub new_writer : S → Option (Unit {0}) × S
  pub stats_writer : S → Option (Unit {0}) × S
  pub is_stop_worker : Bool
  pub stopping : S → Option (Unit {0}) × S  -- starts the goroutine
  pub run : S → Option (Unit {0}) × S

-- `Empty` of the options for configurations and for statistics
pub record Options : Type 0 where
  pub no_config : Bool
  pub no_stats : Bool

module _ {S : Type 0} where
  abbrev pub call : Fatal → (S → Option (Unit {0}) × S) → Exec S Fatal (Unit {0})
  call e f s = or_failed e (f s)

  unfoldable pub configure : Options → Program S → Exec S Fatal (Unit {0})
  unfolding or_failed
  configure o p =
      if o.no_config
      then pure tt
      else if p.is_config_worker
      then (do
        call redis_failed p.new_redis
        call new_sub_failed p.new_sub
        call config_sub_failed p.config_sub)
      else pure tt

  unfoldable pub write_stats : Options → Program S → Exec S Fatal (Unit {0})
  unfolding or_failed
  write_stats o p =
      if o.no_stats
      then pure tt
      else if p.is_stats_worker
      then (do call new_writer_failed p.new_writer; call stats_writer_failed p.stats_writer)
      else pure tt

  -- a goroutine that is started is no error
  unfoldable pub stop_on_signal : Program S → Exec S Fatal (Unit {0})
  stop_on_signal p s = if p.is_stop_worker then (done tt, (p.stopping s).1) else (done tt, s)

  -- `Main`
  unfoldable pub main : Options → Program S → Exec S Fatal (Unit {0})
  unfolding or_failed configure write_stats stop_on_signal
  main o p = do
    call worker_failed p.worker
    configure o p
    write_stats o p
    stop_on_signal p
    call run_failed p.run

-- what the parser of flags makes of the arguments
pub data Parsed : Type 0 where
  duplicate usage : Parsed
  parsed : List String → Option String → Parsed

-- `Options` with the worker that is chosen; `C` is the type of the configurations
pub record Workers (C : Type 0) : Type 0 where
  pub workers : Assoc C
  pub worker_type : String
  pub worker_config : Option C

module _ {C : Type 0} where
  -- `Register`
  unfoldable pub register : String → C → Workers C → Workers C
  unfolding insert
  register name config w = record w { workers = insert name config w.workers }

  choose : Option C → String → Exec (Workers C) Fatal (Unit {0})
  choose none name w = (failed invalid_command, w)
  choose (some c) name w = (done tt, record w { worker_type = name; worker_config = some c })

  -- `Parse`
  unfoldable pub parse : Parsed → Exec (Workers C) Fatal (Unit {0})
  unfolding choose lookup
  parse duplicate w = panic w
  parse usage w = (failed parse_failed, w)
  parse (parsed (arg ∷ args) active) w = (failed extra_arguments, w)
  parse (parsed [] none) w = (failed no_command, w)
  parse (parsed [] (some name)) w = choose (lookup name w.workers) name w
