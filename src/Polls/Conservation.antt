-- ===== src/Polls/Conservation.antt =====
-- No query is lost, and none is reported twice.
use close.Prelude.{
  Bool, List, Option, [], ap, arith, if◌then◌else◌, none, refl, some, suc, true, zero, ℕ, ◌++◌, ◌+◌,
  ◌∷◌, ◌≡◌,
}
use close.Polls.{
  Event, Running, answers, finished_with, received, receives, run, step, take_at, ticks,
}

-- how many entries pass a test
abbrev pub tally : {Q : Type 0} → (Q → Bool) → List Q → ℕ
tally p [] = 0
tally p (q ∷ qs) = (if p q then 1 else 0) + tally p qs

tally-append :
    {Q : Type 0} (p : Q → Bool) (qs rs : List Q) → tally p (qs ++ rs) ≡ tally p qs + tally p rs
tally-append p [] rs = omega arith
tally-append p (q ∷ qs) rs = omega (arith, tally-append p qs rs)

-- what an entry taken from a list leaves of a count
abbrev Leaves : {Q : Type 0} → (Q → Bool) → ℕ → Option (Q × List Q) → Type 0
Leaves p n none = Unit {0}
Leaves p n (some x) = n ≡ (if p x.0 then 1 else 0) + tally p x.1

take_at-Leaves :
    {Q : Type 0} (p : Q → Bool) (n : ℕ) (qs : List Q) → Leaves p (tally p qs) (take_at n qs)
unfolding take_at
take_at-Leaves p n [] = tt
take_at-Leaves p zero (q ∷ qs) = refl
take_at-Leaves {Q} p (suc n) (q ∷ qs) = go (take_at n qs) (take_at-Leaves p n qs)
  where
    go :
        (x : Option (Q × List Q))
        → Leaves p (tally p qs) x
        → Leaves p ((if p q then 1 else 0) + tally p qs) (elim x as (λ _. Option (Q × List Q)) [
          | none ↦ none
          | some found ↦ some (found.0, q ∷ found.1)
        ])
    go none h = tt
    go (some (r, rest)) h = omega (arith, h)

-- the ticks of a run whose queries pass a test
abbrev pub tally_ticks : {Q A : Type 0} → (Q → Bool) → (ℕ → Q) → List (Event Q A) → ℕ
tally_ticks p generate [] = 0
tally_ticks p generate (ticks now ∷ es) =
    (if p (generate now) then 1 else 0) + tally_ticks p generate es
tally_ticks p generate (answers n a ∷ es) = tally_ticks p generate es
tally_ticks p generate (receives n ∷ es) = tally_ticks p generate es

-- queries that pass the test and have not been received
abbrev pub waiting : {Q A : Type 0} → (Q → Bool) → Running Q A → ℕ
waiting p s = tally p s.started + tally p s.finished

module _ {Q A : Type 0} (generate : ℕ → Q) (finish : A → Q → Q) (p : Q → Bool)
    (same : (a : A) (q : Q) → p (finish a q) ≡ p q) where
  finished_with-waiting :
      (a : A) (x : Option (Q × List Q)) (s : Running Q A)
      → Leaves p (tally p s.started) x
      → waiting p (finished_with generate finish true a x s) ≡ waiting p s
  unfolding finished_with
  finished_with-waiting a none s h = refl
  finished_with-waiting a (some (q, rest)) s h =
      let e : tally p (finish a q ∷ []) ≡ (if p q then 1 else 0) + 0 =
        ap (λ b. (if b then 1 else 0) + 0) (same a q) in
      omega (arith, tally-append p s.finished (finish a q ∷ []), e, h)

  received-waiting :
      (x : Option (Q × List Q)) (s : Running Q A)
      → Leaves p (tally p s.finished) x
      → tally p (received generate finish true x s).1
          + waiting p (received generate finish true x s).0
        ≡ waiting p s
  unfolding received
  received-waiting none s h = omega arith
  received-waiting (some (q, rest)) s h = omega (arith, h)

  step-waiting :
      (s : Running Q A) (e : Event Q A)
      → tally p (step generate finish true s e).1 + waiting p (step generate finish true s e).0
        ≡ waiting p s + tally_ticks p generate (e ∷ [])
  unfolding step
  step-waiting s (ticks now) = omega (arith, tally-append p s.started (generate now ∷ []))
  step-waiting s (answers n a) =
      omega (arith, finished_with-waiting a (take_at n s.started) s (take_at-Leaves p n s.started))
  step-waiting s (receives n) =
      omega (arith, received-waiting (take_at n s.finished) s (take_at-Leaves p n s.finished))

  tally_ticks-cons :
      (e : Event Q A) (es : List (Event Q A))
      → tally_ticks p generate (e ∷ es)
        ≡ tally_ticks p generate (e ∷ []) + tally_ticks p generate es
  tally_ticks-cons (ticks now) es = omega arith
  tally_ticks-cons (answers n a) es = omega arith
  tally_ticks-cons (receives n) es = omega arith

  -- Queries that pass a test which their answers do not change: those that were reported and those that
  -- wait are those that waited at first and those of the ticks.
  pub run-waiting :
      (s : Running Q A) (es : List (Event Q A))
      → tally p (run generate finish true s es).1 + waiting p (run generate finish true s es).0
        ≡ waiting p s + tally_ticks p generate es
  unfolding run
  run-waiting s [] = omega arith
  run-waiting s (e ∷ es) =
      let (s1, out) = step generate finish true s e in
      let (s2, more) = run generate finish true s1 es in
      omega
        (arith, step-waiting s e, run-waiting s1 es, tally-append p out more, tally_ticks-cons e es)
