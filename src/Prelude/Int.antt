-- ===== src/Prelude/Int.antt =====
-- Signed integers, and the two's complement reading of a machine word.
use Prim.Native.Nat.{ℕ, ◌-◌, ◌^◌}
use hprof_slurp.Prelude.Tests.{ltb, if◌then◌else◌}

-- `negsuc n` is -(n + 1).
pub data ℤ : Type 0 where
  pos : ℕ → ℤ
  negsuc : ℕ → ℤ

-- The value of the `w`-bit pattern `v` as an `i8`, `i16`, `i32` or `i64`.
abbrev pub signed : ℕ → ℕ → ℤ
signed w v = if ltb v (2 ^ (w - 1)) then pos v else negsuc (2 ^ w - v - 1)
