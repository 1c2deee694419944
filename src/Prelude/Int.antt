-- ===== src/Prelude/Int.antt =====
-- Signed integers as two cases, for `i64` settings. `negsuc n` is -(n + 1).
use Prim.Native.Nat.{ℕ}

pub data ℤ : Type 0 where
  pos : ℕ → ℤ
  negsuc : ℕ → ℤ
