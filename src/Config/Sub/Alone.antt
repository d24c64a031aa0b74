-- ===== src/Config/Sub/Alone.antt =====
-- config/sub.go: `Register`, the registration of a worker that takes no pushes. The channel from the
-- subscription is nil, so the loop receives refreshes only; the channel to the worker is nil, too, and
-- the goroutine closes it where it ends.
use mathlib.Core.Path.{ap₂}
use close.Prelude.{
  List, Option, String, [], ap, map, none, refl, some, sub64, subst, sym, u64, ℕ, ◌++◌, ◌+◌, ◌∷◌,
  ◌≡◌,
}
use close.Config.Sub.{
  Ending, Redis, clear, ended, loop, not_registered, refresh, refreshes, register, registered, set,
  sub_ttl, waiting,
}

-- the deferred `close(self.configChan)` of a nil channel: none is a panic
unfoldable pub close_nil : Ending → Option Ending
close_nil not_registered = none
close_nil ended = none
close_nil waiting = some waiting

module _ (r : Redis) (types sub_type path zpath : String) (config : Option String)
    (now later : ℕ) where
  -- `Register`, with the times of the refreshes
  unfoldable pub register_alone : List ℕ → r.State → Option Ending × r.State
  unfolding close_nil register
  register_alone times s =
      let (e, s') = register r types sub_type path zpath config now later (map refreshes times) s in
      (close_nil e, s')

  loop-fails :
      (front back : List ℕ) (expire at : ℕ) (s s1 : r.State)
      → loop r path zpath expire (map refreshes front) s ≡ (waiting, s1)
      → (refresh r path zpath (u64 (at + sub_ttl)) s1).0 ≡ none
      → (loop r path zpath expire (map refreshes (front ++ at ∷ back)) s).0 ≡ ended
  unfolding loop
  loop-fails [] back expire at s s1 e f =
      let same : s ≡ s1 = ap (λ x. x.1) e in
      let fails =
        subst (λ x. (refresh r path zpath (u64 (at + sub_ttl)) x).0 ≡ none) (sym same) f in
      rw (loop, fails) refl
  loop-fails (t ∷ front) back expire at s s1 e f =
      let next = u64 (t + sub_ttl) in
      let (answer, s') = refresh r path zpath next s in
      go answer s' e (λ q. loop-fails front back next at s' s1 q f)
    where
      go :
          (o : Option (Unit {0})) (s' : r.State)
          → elim o as (λ _. Ending × r.State) [
            | none ↦ (ended, clear r path zpath s')
            | some u ↦ loop r path zpath (u64 (t + sub_ttl)) (map refreshes front) s'
          ]
            ≡ (waiting, s1)
          → (loop r path zpath (u64 (t + sub_ttl)) (map refreshes front) s' ≡ (waiting, s1)
              → (loop r path zpath (u64 (t + sub_ttl)) (map refreshes (front ++ at ∷ back)) s').0
                ≡ ended)
          → (elim o as (λ _. Ending × r.State) [
            | none ↦ (ended, clear r path zpath s')
            | some u ↦ loop r path zpath (u64 (t + sub_ttl)) (map refreshes (front ++ at ∷ back)) s'
          ]).0
            ≡ ended
      go none s' q ih = refl
      go (some u) s' q ih = ih q

  -- `registered`, and `register` likewise
  registered-fails :
      (front back : List ℕ) (expire at : ℕ) (o : Option (Unit {0})) (s s1 : r.State)
      → registered r path zpath expire (map refreshes front) o s ≡ (waiting, s1)
      → (refresh r path zpath (u64 (at + sub_ttl)) s1).0 ≡ none
      → (registered r path zpath expire (map refreshes (front ++ at ∷ back)) o s).0 ≡ ended
  unfolding registered
  registered-fails front back expire at none s s1 e f = absurd (cc)
  registered-fails front back expire at (some u) s s1 e f =
      let (answer, s') = refresh r path zpath expire s in
      go answer s' e (λ q. loop-fails front back expire at s' s1 q f)
    where
      go :
          (o : Option (Unit {0})) (s' : r.State)
          → elim o as (λ _. Ending × r.State) [
            | none ↦ (not_registered, s')
            | some u ↦ loop r path zpath expire (map refreshes front) s'
          ]
            ≡ (waiting, s1)
          → (loop r path zpath expire (map refreshes front) s' ≡ (waiting, s1)
              → (loop r path zpath expire (map refreshes (front ++ at ∷ back)) s').0 ≡ ended)
          → (elim o as (λ _. Ending × r.State) [
            | none ↦ (not_registered, s')
            | some u ↦ loop r path zpath expire (map refreshes (front ++ at ∷ back)) s'
          ]).0
            ≡ ended
      go none s' q ih = absurd (cc)
      go (some u) s' q ih = ih q

  register-fails :
      (front back : List ℕ) (at : ℕ) (s s1 : r.State)
      → register r types sub_type path zpath config now later (map refreshes front) s
        ≡ (waiting, s1)
      → (refresh r path zpath (u64 (at + sub_ttl)) s1).0 ≡ none
      → (register r types sub_type path zpath config now later
          (map refreshes (front ++ at ∷ back))
          s).0
        ≡ ended
  unfolding register
  register-fails front back at s s1 e f = let (answer, t) = r.sadd types sub_type s in go answer t e
    where
      go :
          (o : Option (Unit {0})) (t : r.State)
          → elim o as (λ _. Ending × r.State) [
            | none ↦ (not_registered, t)
            | some u ↦
                (let (stored, s2) = set r path config (sub64 (u64 (now + sub_ttl)) later) t in
                  registered r path zpath (u64 (now + sub_ttl)) (map refreshes front) stored s2)
          ]
            ≡ (waiting, s1)
          → (elim o as (λ _. Ending × r.State) [
            | none ↦ (not_registered, t)
            | some u ↦
                (let (stored, s2) = set r path config (sub64 (u64 (now + sub_ttl)) later) t in
                  registered r path zpath
                    (u64 (now + sub_ttl))
                    (map refreshes (front ++ at ∷ back))
                    stored
                    s2)
          ]).0
            ≡ ended
      go none t q = absurd (cc)
      go (some u) t q =
          let (stored, s2) = set r path config (sub64 (u64 (now + sub_ttl)) later) t in
          registered-fails front back (u64 (now + sub_ttl)) at stored s2 s1 q f

  -- A worker that is registered without pushes panics at the first refresh that Redis refuses, whatever
  -- refreshes came before it: its goroutine returns, and closes a channel that it does not have.
  pub register_alone_panics :
      (front back : List ℕ) (at : ℕ) (s s1 : r.State)
      → register_alone front s ≡ (some waiting, s1)
      → (refresh r path zpath (u64 (at + sub_ttl)) s1).0 ≡ none
      → (register_alone (front ++ at ∷ back) s).0 ≡ none
  unfolding register_alone close_nil
  register_alone_panics front back at s s1 e f =
      let (o, t) = register r types sub_type path zpath config now later (map refreshes front) s in
      let same : t ≡ s1 = ap (λ x. x.1) e in
      let waits : o ≡ waiting = still o (ap (λ x. x.0) e) in
      ap close_nil (register-fails front back at s s1 (ap₂ (λ x y. (x, y)) waits same) f)
    where
      still : (o : Ending) → close_nil o ≡ some waiting → o ≡ waiting
      still not_registered q = absurd (cc)
      still ended q = absurd (cc)
      still waiting q = refl
