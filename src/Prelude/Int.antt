-- ===== src/Prelude/Int.antt =====
-- Go's `int` where it may be negative: no program path overflows one here.
use Prim.Native.Nat.{ℕ}

pub data ℤ : Type 0 where
  pos negsuc : ℕ → ℤ
