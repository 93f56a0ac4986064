-- ===== src/Base/Int.antt =====
-- Signed integers; the code that is modelled only copies and compares them.
use Prim.Native.Nat.{ℕ}

-- `negsuc n` is -(n + 1).
pub data ℤ : Type 0 where
  pos : ℕ → ℤ
  negsuc : ℕ → ℤ
