-- ===== src/Base/Ints.antt =====
-- Go's `int`, over the native naturals.
use Prim.Native.Nat.{ℕ}

pub data ℤ : Type 0 where
  pos : ℕ → ℤ
  negsuc : ℕ → ℤ
