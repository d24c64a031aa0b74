-- ===== src/Config/Sub/Cleared.antt =====
-- The end of a registration.
use close.Prelude.{List, Option, String, [], none, some, sub64, u64, ℕ, ◌+◌, ◌∷◌, ◌≡◌}
use close.Config.Sub.{
  Ending, Redis, Turn, clear, closes, ended, handle_push, loop, not_registered, pushed, refresh,
  refreshes, register, registered, set, sub_ttl,
}

module _ (r : Redis) (path zpath : String) (Gone : r.State → Type 0) where
  -- at the end of a registration
  abbrev Settles : Ending × r.State → Type 0
  Settles x = x.0 ≡ ended → Gone x.1

  loop_clears :
      (expire : ℕ) (turns : List Turn) (s : r.State)
      → ((t : r.State) → Gone (r.del path t).1)
      → (loop r path zpath expire turns s).0 ≡ ended
      → Gone (loop r path zpath expire turns s).1
  unfolding loop clear
  loop_clears expire [] s h e = absurd (cc)
  loop_clears expire (pushed returned now ∷ turns) s h e =
      loop_clears expire turns (handle_push r path expire returned now s) h e
  loop_clears expire (refreshes now ∷ turns) s h e =
      go (refresh r path zpath (u64 (now + sub_ttl)) s).0
        (refresh r path zpath (u64 (now + sub_ttl)) s).1
        (λ t k. loop_clears (u64 (now + sub_ttl)) turns t h k) e
    where
      go :
          (answer : Option (Unit {0})) (t : r.State)
          → ((u : r.State)
              → (loop r path zpath (u64 (now + sub_ttl)) turns u).0 ≡ ended
              → Gone (loop r path zpath (u64 (now + sub_ttl)) turns u).1)
          → Settles (elim answer [
            | none ↦ (ended, clear r path zpath t)
            | some u ↦ loop r path zpath (u64 (now + sub_ttl)) turns t
          ])
      go none t ih k = h (r.zrem zpath path t).1
      go (some u) t ih k = ih t k
  loop_clears expire (closes ∷ turns) s h e = h (r.zrem zpath path s).1

  registered_clears :
      (expire : ℕ) (turns : List Turn) (stored : Option (Unit {0})) (s : r.State)
      → ((t : r.State) → Gone (r.del path t).1)
      → (registered r path zpath expire turns stored s).0 ≡ ended
      → Gone (registered r path zpath expire turns stored s).1
  unfolding registered
  registered_clears expire turns none s h e = absurd (cc)
  registered_clears expire turns (some u) s h e =
      go (refresh r path zpath expire s).0 (refresh r path zpath expire s).1 e
    where
      go :
          (answer : Option (Unit {0})) (t : r.State)
          → Settles (elim answer [
            | none ↦ (not_registered, t)
            | some u ↦ loop r path zpath expire turns t
          ])
      go none t k = absurd (cc)
      go (some u) t k = loop_clears expire turns t h k

  -- What holds after every deletion of the key holds when a registration has come to its end, by the
  -- end of its subscription or by a failed refresh, whatever was pushed before.
  pub register_clears :
      (types sub_type : String) (config : Option String) (now later : ℕ) (turns : List Turn)
      (s : r.State)
      → ((t : r.State) → Gone (r.del path t).1)
      → (register r types sub_type path zpath config now later turns s).0 ≡ ended
      → Gone (register r types sub_type path zpath config now later turns s).1
  unfolding register
  register_clears types sub_type config now later turns s h e =
      go (r.sadd types sub_type s).0 (r.sadd types sub_type s).1 e
    where
      expire : ℕ
      expire = u64 (now + sub_ttl)

      go :
          (answer : Option (Unit {0})) (t : r.State)
          → Settles (elim answer [
            | none ↦ (not_registered, t)
            | some u ↦
                (let (stored, t') = set r path config (sub64 expire later) t in
                  registered r path zpath expire turns stored t')
          ])
      go none t k = absurd (cc)
      go (some u) t k =
          let (stored, t') = set r path config (sub64 expire later) t in
          registered_clears expire turns stored t' h k
