-- ===== src/Config/Push.antt =====
-- config/config.go and `subscribe` of config/sub.go: pushes of configurations to a worker. The worker's
-- main loop answers a push with its function; decoding is a parameter.
pub mod Answers
pub mod Agreement
pub mod Examples
use close.Prelude.{
  Exec, List, Option, Outcome, String, [], done, failed, none, panic, panicked, pure, raise, some,
  ℕ, ◌∷◌,
}
use close.Config.Sub.{Redis, handle_push}
use close.Docker.Container.{State}

-- `ConfigPush`, the configuration as a text in JSON, none for a nil pointer
pub record ConfigPush : Type 0 where
  pub config : Option String

-- what a subscription reads: a message, or an error
pub data Message : Type 0 where
  message : String → Message
  read_failed : Message

-- `subscribe`: what goes to the channel, before it is closed by an error
unfoldable pub subscribe : (String → Option ConfigPush) → List Message → List ConfigPush
subscribe decode [] = []
subscribe decode (read_failed ∷ ms) = []
subscribe decode (message text ∷ ms) =
    let rest = subscribe decode ms in elim (decode text) [ none ↦ rest | some p ↦ p ∷ rest ]

pub data PushError (E : Type 0) : Type 0 where
  unmarshal_failed no_push_support : PushError E
  rejected : E → PushError E

-- `Unmarshal`, which reads through the pointer
unfoldable pub unmarshal :
    {S E C : Type 0} → (String → Option C) → ConfigPush → Exec S (PushError E) C
unmarshal decode p = elim (p.config) [
  | none ↦ panic
  | some json ↦ elim (decode json) [ none ↦ raise unmarshal_failed | some c ↦ pure c ]
]

-- `ConfigPush.apply` with the other end, `ApplyFunc` with the worker's function: none for a nil channel
unfoldable pub apply :
    {S E C : Type 0}
    → Option (ConfigPush → Exec S (PushError E) C)
    → ConfigPush
    → Exec S (PushError E) C
apply none p = raise no_push_support
apply (some f) p = f p

-- a text that a push is answered with is stored; an error is only logged
module _ (r : Redis) (path : String) (expire : ℕ) {W E C : Type 0}
    (f : Option (ConfigPush → Exec W (PushError E) C)) (encode : C → Option String) where
  unfoldable pub answered : ℕ → Outcome (PushError E) C → W → r.State → Option (W × r.State)
  answered now (done c) w s = some (w, handle_push r path expire (encode c) now s)
  answered now (failed e) w s = some (w, handle_push r path expire none now s)
  answered now panicked w s = none

  -- the pushes of the loop of `register`, each with its time, and the worker's main loop; none for a panic
  unfoldable pub serve : List (ConfigPush × ℕ) → W → r.State → Option (W × r.State)
  unfolding apply answered
  serve [] w s = some (w, s)
  serve ((p, now) ∷ ps) w s =
      let (o, w') = apply f p w in
      elim (answered now o w' s) [ none ↦ none | some x ↦ serve ps x.0 x.1 ]
