-- ===== src/Base/Ints.antt =====
-- Integers over the native natural numbers.
use Prim.Native.Nat.{ℕ}

pub data ℤ : Type 0 where
  pos negsuc : ℕ → ℤ
