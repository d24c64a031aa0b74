-- ===== src/Logs/Distribution/Delivery.antt =====
-- What subscribers are sent.
use close.Prelude.{Bool, List, [], false, true, ℕ, ◌++◌, ◌<◌, ◌==◌, ◌||◌, ◌∷◌, ◌≡◌}
use close.Logs.Message.{LogMsg}
use close.Logs.Distribution.{Channel, Logs}

-- the test of a key of `subscribers`
unfoldable pub listed : ℕ → List ℕ → Bool
listed i [] = false
listed i (c ∷ cs) = i == c || listed i cs

abbrev Distinct : List ℕ → Type 0
Distinct [] = Unit {0}
Distinct (c ∷ cs) = (listed c cs ≡ false) × Distinct cs

abbrev with_msgs : List LogMsg → Channel → Channel
with_msgs msgs x = record x { sent = x.sent ++ msgs }

pub record IsServed (s : Logs) : Type 0 where
  pub distinct : Distinct s.subscribers
  pub known : (i : ℕ) → listed i s.subscribers ≡ true → i < s.made
  pub is_open : (i : ℕ) → listed i s.subscribers ≡ true → (s.channels i).closed ≡ false
  pub served : (i : ℕ) → listed i s.subscribers ≡ true → (s.channels i).sent ≡ s.history
