-- ===== src/Udp/Send/Registration.antt =====
-- udp/send.go and config/sub.go: the configuration of a running sender and the one under which it is
-- registered, when pushes are answered.
use close.Prelude.{
  All, Bool-cases, Exec, List, Option, Option-cases, Outcome, Result, String, done, err, failed,
  inl, inr, ok, refl, some, str_eq, ℕ, ◌≡◌, ◌>>=◌,
}
use close.Config.Sub.{Redis}
use close.Config.Push.{ConfigPush, PushError, rejected, serve, unmarshal}
use close.Config.Push.Agreement.{Answers, serve-Agrees, unmarshal-some}
use close.Udp.Send.{ConfigError, Send, SendConfig, config_push}
use close.Udp.Send.Reconfigure.{config_push_accepted, config_push_refused}

-- JSON decoded over a configuration, the encoding, and the time at which a push is applied
module _ (decode : SendConfig → String → Option SendConfig) (at : ConfigPush → ℕ) where
  -- an answer of `configPush` as one of the main loop
  as_outcome : Result ConfigError SendConfig → Outcome (PushError ConfigError) SendConfig
  as_outcome (ok c) = done c
  as_outcome (err e) = failed (rejected e)

  -- `configPush`, with the decoding over a copy of the current configuration
  unfoldable pub push_config : ConfigPush → Exec Send (PushError ConfigError) SendConfig
  unfolding as_outcome
  push_config p s =
      (do
        c ← unmarshal (decode s.config) p
        λ t. let (s', r) = config_push (at p) (ok c) t in (as_outcome r, s'))
        s

  abbrev config_of : Send → SendConfig
  config_of s = s.config

  config_push-Answers :
      (now : ℕ) (c : SendConfig) (s : Send)
      → let (s', a) = config_push now (ok c) s in Answers config_of push_config s (as_outcome a, s')
  unfolding as_outcome
  config_push-Answers now c s = elim (Bool-cases (str_eq c.id s.config.id)) [
    | inl i ↦ rw ((config_push_accepted now c s i).1) refl
    | inr i ↦ rw (config_push_refused now c s i) refl
  ]

  push_config-Answers :
      (p : ConfigPush) (s : Send) (json : String)
      → p.config ≡ some json
      → Answers config_of push_config s (push_config p s)
  unfolding push_config
  push_config-Answers p s json e = elim (Option-cases (decode s.config json)) [
    | inl d ↦ rw (unmarshal-some (decode s.config) p s json e, d) refl
    | inr (c, d) ↦
        rw (unmarshal-some (decode s.config) p s json e, d) (config_push-Answers (at p) c s)
  ]

  module _ (encode : SendConfig → String) (r : Redis) (path : String) (expire : ℕ)
      (view : r.State → Option String) where
    -- If what is set in Redis is read back, and the key has the sender's own configuration, it has
    -- it after any pushes that have a text, whichever the sender accepts, refuses or cannot read;
    -- and none of them makes the sender panic.
    pub serve_agrees :
        (ps : List (ConfigPush × ℕ)) (s : Send) (t : r.State)
        → ((json : String) (expiry : ℕ) (t : r.State)
            → view ((r.set_key path json expiry t).1) ≡ some json)
        → All (λ p. (json : String) × (p.0.config ≡ some json)) ps
        → view t ≡ some (encode s.config)
        → (s' : Send) × (t' : r.State) × (serve r path expire
              (some push_config)
              (λ c. some (encode c))
              ps
              s
              t
            ≡ some (s', t'))
          × (view t' ≡ some (encode s'.config))
    serve_agrees ps s t law h e =
        serve-Agrees config_of push_config encode r path expire view ps s t push_config-Answers law
          h e
