-- ===== src/Common/Result.antt =====
-- A computation that may throw: its value, or the error.

pub data Result {ℓ κ} (E : Type κ) (A : Type ℓ) : Type (ℓ ⊔ κ) where
  ok : A → Result E A
  err : E → Result E A
