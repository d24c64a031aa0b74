-- ===== src/Prelude/Actions.antt =====
-- Actions on a shared state: Go functions that return an error or panic. What was done before an
-- error or a panic stays done.
use close.Prelude.Results.{Result, ok, err}
use mathlib.Core.Path.{◌≡◌}

pub data Outcome {ℓ} (E : Type ℓ) (A : Type ℓ) : Type ℓ where
  done : A → Outcome E A
  failed : E → Outcome E A
  panicked : Outcome E A

abbrev pub Exec {ℓ} : Type ℓ → Type ℓ → Type ℓ → Type ℓ
Exec S E A = S → Outcome E A × S

module _ {ℓ} {S E A : Type ℓ} where
  abbrev pub pure : A → Exec S E A
  pure a s = (done a, s)

  abbrev pub raise : E → Exec S E A
  raise e s = (failed e, s)

  abbrev pub panic : Exec S E A
  panic s = (panicked, s)

  abbrev pub lift : Result E A → Exec S E A
  lift (ok a) s = (done a, s)
  lift (err e) s = (failed e, s)

module _ {ℓ} {S E A B : Type ℓ} where
  abbrev pub continue : Outcome E A → (A → Exec S E B) → Exec S E B
  continue (done a) f s = f a s
  continue (failed e) f s = (failed e, s)
  continue panicked f s = (panicked, s)

  infixl 10 ◌>>=◌ ◌>>◌
  abbrev pub ◌>>=◌ : Exec S E A → (A → Exec S E B) → Exec S E B
  ◌>>=◌ m f s = let (r, s') = m s in continue r f s'

  abbrev pub ◌>>◌ : Exec S E A → Exec S E B → Exec S E B
  ◌>>◌ m k s = let (r, s') = m s in continue r (λ _. k) s'

abbrev pub caught {ℓ} : {E A : Type ℓ} → Outcome E A → Outcome E (Result E A)
caught (done a) = done (ok a)
caught (failed e) = done (err e)
caught panicked = panicked

module _ {ℓ} {S E A : Type ℓ} where
  -- `if a, err := f(); err != nil`: the error as a value
  abbrev pub attempt : Exec S E A → Exec S E (Result E A)
  attempt m s = let (r, s') = m s in (caught r, s')

module _ {ℓ} {S E A B : Type ℓ} where
  -- a bind after an action that is known to succeed
  pub bind_after :
      (m : Exec S E A) (f : A → Exec S E B) (s : S) {a : A} {t : S}
      → m s ≡ (done a, t)
      → (m >>= f) s ≡ f a t
  bind_after m f s e = rw e
