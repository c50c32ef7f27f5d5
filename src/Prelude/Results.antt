-- ===== src/Prelude/Results.antt =====
-- `Result<T, E>`.
pub data Result {ℓ} (E A : Type ℓ) : Type ℓ where
  ok : A → Result E A
  err : E → Result E A
