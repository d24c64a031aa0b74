-- ===== src/Worker/Dummy.antt =====
-- cmd/close-worker/dummy.go: the worker that does nothing but answer pushes of its configuration. Random
-- bits with their hash, and decoding of JSON, are parameters; logging is left out.
pub mod Registration
use close.Prelude.{
  Exec, List, Option, Outcome, Result, String, [], done, err, failed, if◌then◌else◌, lift, none,
  not, ok, panicked, pure, raise, some, str_eq, ℕ, ◌==◌, ◌>>=◌, ◌∷◌,
}
use close.Config.Push.{ConfigPush, PushError, rejected, unmarshal}
use close.Udp.Payload.Hex.{IdError, id_string, parse_id}

pub record DummyConfig : Type 0 where
  pub cmd_line_param : String
  pub id : String
  pub config_param : ℕ  -- uint

-- a Go channel as `Stop` finds it
pub data Channel : Type 0 where
  nil_channel open_channel closed_channel : Channel

pub record DummyWorker : Type 0 where
  pub config : DummyConfig
  pub id : List ℕ  -- [8]byte
  pub config_chan : Channel

pub data DummyError : Type 0 where
  gen_failed cannot_change_id start_failed : DummyError
  bad_id : IdError → DummyError

with_id : DummyConfig → Result DummyError (List ℕ) → Result DummyError DummyWorker
with_id config (err e) = err e
with_id config (ok id) = ok (record { config = config; id = id; config_chan = nil_channel })

parsed : Result IdError (List ℕ) → Result DummyError (List ℕ)
parsed (err e) = err (bad_id e)
parsed (ok id) = ok id

with_gen : DummyConfig → Result DummyError (List ℕ) → Result DummyError DummyWorker
unfolding with_id
with_gen config (err e) = err e
with_gen config (ok id) = with_id (record config { id = id_string id }) (ok id)

-- `NewDummy` and `apply`, with what `genID` returns
unfoldable pub new_dummy : Result DummyError (List ℕ) → DummyConfig → Result DummyError DummyWorker
unfolding with_id with_gen parsed
new_dummy gen config =
    if str_eq config.id ""
    then with_gen config gen
    else with_id config (parsed (parse_id config.id))

-- `ConfigSub`, with what the start of the subscription returns
unfoldable pub config_sub : Result DummyError (Unit {0}) → Exec DummyWorker DummyError (Unit {0})
config_sub (err e) d = (failed e, d)
config_sub (ok u) d = (done tt, record d { config_chan = open_channel })

-- `configPush` behind the decoding
unfoldable pub accept : DummyConfig → Exec DummyWorker (PushError DummyError) DummyConfig
accept config d =
    if not (str_eq config.id d.config.id)
    then (failed (rejected cannot_change_id), d)
    else (let d' : DummyWorker =
          if not (config.config_param == d.config.config_param)
          then record d { config = record (d.config) { config_param = config.config_param } }
          else d in
        (done d'.config, d'))

-- `configPush`, with the decoding over a copy of the current configuration
unfoldable pub config_push :
    (DummyConfig → String → Option DummyConfig)
    → ConfigPush
    → Exec DummyWorker (PushError DummyError) DummyConfig
unfolding accept
config_push decode p d = (do config ← unmarshal (decode d.config) p; accept config) d

-- `Stop`: close(d.configChan)
unfoldable pub stop : Channel → Exec DummyWorker DummyError (Unit {0})
stop nil_channel d = (panicked, d)
stop closed_channel d = (panicked, d)
stop open_channel d = (done tt, record d { config_chan = closed_channel })

-- what the loop of `Run` receives
pub data Event : Type 0 where
  pushes : ConfigPush → Event
  closes : Event

-- `Run`: it returns when the channel is closed, and panics where a push does; none while it waits
unfoldable pub run :
    (DummyConfig → String → Option DummyConfig)
    → List Event
    → DummyWorker
    → Option (Outcome DummyError (Unit {0})) × DummyWorker
unfolding config_push
run decode [] d = (none, d)
run decode (closes ∷ es) d = (some (done tt), d)
run decode (pushes p ∷ es) d =
    let (o, d') = config_push decode p d in
    let rest = run decode es d' in
    elim o [ done c ↦ rest | failed e ↦ rest | panicked ↦ (some panicked, d') ]
