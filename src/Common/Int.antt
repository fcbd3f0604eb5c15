-- ===== src/Common/Int.antt =====
-- Integers over the native numbers, for what `int64_t` stands for.
use risc5_simulator.Common.Tests.{ltb, if◌then◌else◌}
use risc5_simulator.Common.Words.{slt64}
use Prim.Native.Nat.{ℕ, ◌-◌, ◌^◌, ◌<◌}
use mathlib.Core.Path.{◌≡◌}
use mathlib.Core.Bool.{Bool, true, false}
use native.Mathlib.Omega.{arith}

-- `negsuc n` is -(n + 1).
pub data ℤ : Type 0 where
  pos : ℕ → ℤ
  negsuc : ℕ → ℤ

abbrev pub ltb_ℤ : ℤ → ℤ → Bool
ltb_ℤ (pos a) (pos b) = ltb a b
ltb_ℤ (pos a) (negsuc b) = false
ltb_ℤ (negsuc a) (pos b) = true
ltb_ℤ (negsuc a) (negsuc b) = ltb b a

-- The integer whose two's complement in 64 bits is the pattern.
abbrev pub signed64 : ℕ → ℤ
signed64 a = if ltb a (2 ^ 63) then pos a else negsuc (2 ^ 64 - a - 1)

-- The comparison of the patterns moved by half the range is that of the integers.
pub slt64-eq-ltb_ℤ :
    (a b : ℕ) → a < 2 ^ 64 → b < 2 ^ 64 → slt64 a b ≡ ltb_ℤ (signed64 a) (signed64 b)
slt64-eq-ltb_ℤ a b ha hb = ground arith
