-- ===== src/Worker/Dummy/Registration.antt =====
-- The configuration of a dummy worker and its registration.
use close.Prelude.{
  All, Bool-cases, List, Option, Option-cases, String, inl, inr, refl, some, str_eq, ℕ, ◌≡◌,
}
use close.Config.Sub.{Redis}
use close.Config.Push.{ConfigPush, serve}
use close.Config.Push.Agreement.{Answers, serve-Agrees, unmarshal-some}
use close.Worker.Dummy.{DummyConfig, DummyWorker, accept, config_push}

abbrev config_of : DummyWorker → DummyConfig
config_of d = d.config

module _ (decode : DummyConfig → String → Option DummyConfig) where
  accept-Answers :
      (c : DummyConfig) (d : DummyWorker) → Answers config_of (config_push decode) d (accept c d)
  unfolding accept
  accept-Answers c d = elim (Bool-cases (str_eq c.id d.config.id)) [
    | inl i ↦ rw i refl
    | inr i ↦ rw i refl
  ]

  config_push-Answers :
      (p : ConfigPush) (d : DummyWorker) (json : String)
      → p.config ≡ some json
      → Answers config_of (config_push decode) d (config_push decode p d)
  unfolding config_push
  config_push-Answers p d json e = elim (Option-cases (decode d.config json)) [
    | inl n ↦ rw (unmarshal-some (decode d.config) p d json e, n) refl
    | inr (c, n) ↦ rw (unmarshal-some (decode d.config) p d json e, n) (accept-Answers c d)
  ]

  -- If what is set in Redis is read back, a dummy worker keeps its registration in agreement with
  -- its configuration, over any pushes that have a text.
  pub dummy_agrees :
      (encode : DummyConfig → String) (r : Redis) (path : String) (expire : ℕ)
      (view : r.State → Option String) (ps : List (ConfigPush × ℕ)) (d : DummyWorker) (t : r.State)
      → ((json : String) (expiry : ℕ) (t : r.State)
          → view ((r.set_key path json expiry t).1) ≡ some json)
      → All (λ p. (json : String) × (p.0.config ≡ some json)) ps
      → view t ≡ some (encode d.config)
      → (d' : DummyWorker) × (t' : r.State) × (serve r path expire
            (some (config_push decode))
            (λ c. some (encode c))
            ps
            d
            t
          ≡ some (d', t'))
        × (view t' ≡ some (encode d'.config))
  dummy_agrees encode r path expire view ps d t law h e =
      serve-Agrees config_of (config_push decode) encode r path expire view ps d t
        config_push-Answers law h e
