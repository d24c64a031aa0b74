-- ===== src/Prelude/Results.antt =====
-- Results with an error value: Go's pair of a value and an `error`.
pub data Result {ℓ κ} (E : Type κ) (A : Type ℓ) : Type (ℓ ⊔ κ) where
  ok : A → Result E A
  err : E → Result E A
