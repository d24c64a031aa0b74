-- ===== src/Polls.antt =====
-- The loop that dns/worker.go and http/worker.go share: at each tick a goroutine starts a query, and
-- the loop receives their results one after the other. Goroutines that wait for an answer, and those
-- that wait for the loop, may go on in any order.
pub mod Conservation
pub mod Dns
pub mod Http
pub mod Reports
pub mod Examples
use close.Prelude.{Bool, List, Option, [], if◌then◌else◌, none, some, suc, zero, ℕ, ◌++◌, ◌∷◌}

-- the entry at an index, and the others
unfoldable pub take_at : {Q : Type 0} → ℕ → List Q → Option (Q × List Q)
take_at n [] = none
take_at zero (q ∷ qs) = some (q, qs)
take_at (suc n) (q ∷ qs) = elim (take_at n qs) [
  | none ↦ none
  | some found ↦ some (found.0, q ∷ found.1)
]

module _ (Q A : Type 0) where
  -- the goroutines that wait for an answer, and those with a result for `resultChan`
  pub record Running : Type 0 where
    pub started : List Q
    pub finished : List Q

  -- a tick at a time, the answer to the goroutine at an index, and the result of the one at an index
  -- that the loop receives
  pub data Event : Type 0 where
    ticks : ℕ → Event
    answers : ℕ → A → Event
    receives : ℕ → Event

module _ {Q A : Type 0} (generate : ℕ → Q) (finish : A → Q → Q) (reports : Bool) where
  unfoldable pub finished_with : A → Option (Q × List Q) → Running Q A → Running Q A
  finished_with a none s = s
  finished_with a (some (q, rest)) s = record {
    started = rest;
    finished = s.finished ++ finish a q ∷ [];
  }

  -- the result that the loop received, for the statistics if they are written
  unfoldable pub received : Option (Q × List Q) → Running Q A → Running Q A × List Q
  received none s = (s, [])
  received (some (q, rest)) s = (record s { finished = rest }, if reports then q ∷ [] else [])

  unfoldable pub step : Running Q A → Event Q A → Running Q A × List Q
  unfolding take_at finished_with received
  step s (ticks now) = (record s { started = s.started ++ generate now ∷ [] }, [])
  step s (answers n a) = (finished_with a (take_at n s.started) s, [])
  step s (receives n) = received (take_at n s.finished) s

  -- `Run`
  unfoldable pub run : Running Q A → List (Event Q A) → Running Q A × List Q
  unfolding step
  run s [] = (s, [])
  run s (e ∷ es) = let (s1, out) = step s e in let (s2, more) = run s1 es in (s2, out ++ more)
