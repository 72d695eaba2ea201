-- ===== src/Base/Results.antt =====
-- Go's `(value, error)` where the value is meaningless beside an error.
pub data Result {ℓ κ} (E : Type κ) (A : Type ℓ) : Type (ℓ ⊔ κ) where
  ok : A → Result E A
  err : E → Result E A
