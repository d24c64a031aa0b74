-- ===== src/Config/Push/Answers.antt =====
-- What is stored of the pushes that a worker accepts.
use close.Prelude.{
  Exec, List, Option, Outcome, String, [], ap, done, failed, none, panicked, refl, some, sub64,
  subst, ℕ, ◌∙◌, ◌∷◌, ◌≡◌,
}
use close.Config.Sub.{Redis, handle_push, set}
use close.Config.Push.{ConfigPush, PushError, answered, apply, serve}

module _ {W E C : Type 0} (f : Option (ConfigPush → Exec W (PushError E) C))
    (encode : C → Option String) where
  abbrev pub text_after : Outcome (PushError E) C → Option String → Option String
  text_after (done c) old = elim (encode c) [ none ↦ old | some json ↦ some json ]
  text_after (failed e) old = old
  text_after panicked old = old

  -- The text that a key has after a worker has answered pushes, by the worker alone: that of the last
  -- configuration which it accepted and which can be encoded.
  abbrev pub last_text : List (ConfigPush × ℕ) → W → Option String → Option String
  last_text [] w old = old
  last_text ((p, now) ∷ ps) w old = let (o, w') = apply f p w in last_text ps w' (text_after o old)

  module _ (r : Redis) (path : String) (expire : ℕ) (view : r.State → Option String) where
    pub answered-view :
        (now : ℕ) (o : Outcome (PushError E) C) (w : W) (s : r.State) (x : W × r.State)
        → ((json : String) (expiry : ℕ) (s : r.State)
            → view ((r.set_key path json expiry s).1) ≡ some json)
        → answered r path expire f encode now o w s ≡ some x
        → (x.0 ≡ w) × (view x.1 ≡ text_after o (view s))
    unfolding answered handle_push set
    answered-view now (done c) w s x law e = go (encode c) (cc)
      where
        go :
            (t : Option String)
            → (w, handle_push r path expire t now s) ≡ x
            → (x.0 ≡ w)
              × (view x.1
                  ≡ elim t as (λ _. Option String) [ none ↦ view s | some json ↦ some json ])
        go none q = subst (λ y. (y.0 ≡ w) × (view y.1 ≡ view s)) q (refl, refl)
        go (some json) q =
            subst (λ y. (y.0 ≡ w) × (view y.1 ≡ some json)) q (refl, law json (sub64 expire now) s)
    answered-view now (failed e) w s x law q =
        let q' : (w, s) ≡ x = cc in subst (λ y. (y.0 ≡ w) × (view y.1 ≡ view s)) q' (refl, refl)
    answered-view now panicked w s x law q = absurd (cc)

    -- If a stored text is read back, and the worker's function does not panic: after any pushes the key
    -- has the text of the last configuration that the worker accepted, or the text that it had before;
    -- pushes that the worker rejects change nothing.
    pub serve_stores :
        (ps : List (ConfigPush × ℕ)) (w : W) (s : r.State) (x : W × r.State)
        → ((json : String) (expiry : ℕ) (s : r.State)
            → view ((r.set_key path json expiry s).1) ≡ some json)
        → serve r path expire f encode ps w s ≡ some x
        → view x.1 ≡ last_text ps w (view s)
    unfolding serve
    serve_stores [] w s x law e = let q : (w, s) ≡ x = cc in subst (λ y. view y.1 ≡ view s) q refl
    serve_stores ((p, now) ∷ ps) w s x law e =
        let (o, w') = apply f p w in
        go o w' (answered r path expire f encode now o w' s) refl e
          (λ w s e. serve_stores ps w s x law e)
      where
        go :
            (o : Outcome (PushError E) C) (w' : W) (a : Option (W × r.State))
            → answered r path expire f encode now o w' s ≡ a
            → elim a as (λ _. Option (W × r.State)) [
              | none ↦ none
              | some x ↦ serve r path expire f encode ps x.0 x.1
            ]
              ≡ some x
            → ((w : W) (s : r.State)
                → serve r path expire f encode ps w s ≡ some x
                → view x.1 ≡ last_text ps w (view s))
            → view x.1 ≡ last_text ps w' (text_after o (view s))
        go o w' none q e ih = absurd (cc)
        go o w' (some (v, s')) q e ih =
            let (same, kept) = answered-view now o w' s (v, s') law q in
            ih v s' e ∙ ap (λ v. last_text ps v (view s')) same ∙ ap (last_text ps w') kept
