-- ===== src/Config/Push/Agreement.antt =====
-- A worker and its registration agree: what the key holds is the configuration that the worker has.
use close.Prelude.{
  All, Exec, List, Option, Option-cases, Outcome, String, [], ap, done, failed, inl, inr, none,
  panicked, refl, some, sub64, sym, ℕ, ◌∙◌, ◌∷◌, ◌≡◌,
}
use close.Config.Sub.{Redis, handle_push, set}
use close.Config.Push.{ConfigPush, PushError, answered, apply, serve, unmarshal, unmarshal_failed}

-- `Unmarshal` of a push that has a text
pub unmarshal-some :
    {S E C : Type 0} (decode : String → Option C) (p : ConfigPush) (s : S) (json : String)
    → p.config ≡ some json
    → unmarshal {E = E} decode p s ≡ elim (decode json) as (λ _. Outcome (PushError E) C × S) [
      | none ↦ (failed unmarshal_failed, s)
      | some c ↦ (done c, s)
    ]
unfolding unmarshal
unmarshal-some decode p s json e = elim (Option-cases (decode json)) [
  | inl d ↦ rw (e, unmarshal, d) refl
  | inr (c, d) ↦ rw (e, unmarshal, d) refl
]

-- a worker of which each state has a configuration, and its function for pushes
module _ {W E C : Type 0} (config_of : W → C) (f : ConfigPush → Exec W (PushError E) C) where
  -- An answer without an error is the worker's new configuration, and any other changes nothing.
  abbrev pub Answers : W → Outcome (PushError E) C × W → Type 0
  Answers w (done c, w') = c ≡ config_of w'
  Answers w (failed e, w') = w' ≡ w
  Answers w (panicked, w') = ⊥

  abbrev pub AnswersAll : Type 0
  AnswersAll = (p : ConfigPush) (w : W) (json : String) → p.config ≡ some json → Answers w (f p w)

  module _ (encode : C → String) (r : Redis) (path : String) (expire : ℕ)
      (view : r.State → Option String) where
    abbrev pub serves : List (ConfigPush × ℕ) → W → r.State → Option (W × r.State)
    serves = serve r path expire (some f) (λ c. some (encode c))

    -- The pushes are answered to the end, and the key has the worker's configuration then.
    abbrev pub Agrees : Option (W × r.State) → Type 0
    Agrees o = (w : W) × (s : r.State) × (o ≡ some (w, s)) × (view s ≡ some (encode (config_of w)))

    -- A worker whose answers are its configurations keeps its registration in agreement with
    -- itself, over any pushes that have a text, whichever it accepts or rejects, if what is set in
    -- Redis is read back.
    pub serve-Agrees :
        (ps : List (ConfigPush × ℕ)) (w : W) (s : r.State)
        → AnswersAll
        → ((json : String) (expiry : ℕ) (s : r.State)
            → view ((r.set_key path json expiry s).1) ≡ some json)
        → All (λ p. (json : String) × (p.0.config ≡ some json)) ps
        → view s ≡ some (encode (config_of w))
        → Agrees (serve r path expire (some f) (λ c. some (encode c)) ps w s)
    unfolding serve apply answered handle_push set
    serve-Agrees [] w s answers law h e = (w, s, refl, e)
    serve-Agrees ((p, now) ∷ ps) w s answers law ((json, q), h) e =
        let (o, w') = f p w in
        go o w' (answers p w json q) (λ w s e. serve-Agrees ps w s answers law h e)
      where
        go :
            (o : Outcome (PushError E) C) (w' : W)
            → Answers w (o, w')
            → ((w : W) (s : r.State)
                → view s ≡ some (encode (config_of w))
                → Agrees (serves ps w s))
            → Agrees
                (elim (answered r path expire (some f) (λ c. some (encode c)) now o w' s)
                  as (λ b. Option (W × r.State)) [ none ↦ none | some x ↦ serves ps x.0 x.1 ])
        go (done c) w' a ih =
            ih w' (handle_push r path expire (some (encode c)) now s)
              (law (encode c) (sub64 expire now) s ∙ ap (λ c. some (encode c)) a)
        go (failed x) w' a ih = ih w' s (e ∙ ap (λ x. some (encode (config_of x))) (sym a))
        go panicked w' a ih = absurd a
