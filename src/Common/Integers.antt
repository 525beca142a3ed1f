-- ===== src/Common/Integers.antt =====
-- The integers over the native numbers, for the values of type `int`.
use Prim.Native.Nat.{ℕ}

-- `negsuc n` is -(n + 1).
pub data ℤ : Type 0 where
  pos negsuc : ℕ → ℤ
