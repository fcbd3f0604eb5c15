-- ===== src/Platform.antt =====
-- What the C standard leaves open and the code runs into: the value of a shift by the width of its
-- operand or more, and the contents of local variables that are read before they are written. A
-- definition that depends on one takes it from this record, and the theorems hold for every choice.
pub mod Shifts
use risc5_simulator.Common.{
  ℕ, ◌*◌, ◌/◌, ◌+◌, ◌-◌, ◌^◌, ◌%◌, ltb, if◌then◌else◌, u32, u64, ◌<<<◌, ◌>>>◌, true, false, List,
}

pub record Unspecified : Type 0 where
  pub oversized : ℕ → ℕ → ℕ  -- a value shifted too far, and the distance
  pub extend_pc : ℕ  -- `extend_pc` of `stage_decode` and `execute_single_instruction`
  pub res : ℕ  -- `res` of `stage_execute` and `execute_single_instruction`
  pub instruction : ℕ  -- `instruction` of `stage_fetch` and `execute_single_instruction`
  pub i_block : ℕ → ℕ  -- the bytes of `block` in `instruction_fetch_stage`
  pub d_block : ℕ → ℕ  -- the bytes of `block` in `memory_stage`
  pub i_value : ℕ → ℕ  -- the bytes of `value` in `update_i_cache`
  pub d_value : ℕ → ℕ  -- the bytes of `value` in `update_d_cache`

-- `<<` and `>>` on `uint64_t`. The cases of an `elim` wait, so no power of a large distance is
-- computed.
abbrev pub shl64 : Unspecified → ℕ → ℕ → ℕ
shl64 p x k = elim (ltb k 64) [ true ↦ u64 (x <<< k) | false ↦ u64 (p.oversized x k) ]

abbrev pub shr64 : Unspecified → ℕ → ℕ → ℕ
shr64 p x k = elim (ltb k 64) [ true ↦ x >>> k | false ↦ u64 (p.oversized x k) ]

-- `>>` on `uint32_t` and `<<` on it.
abbrev pub shl32 : Unspecified → ℕ → ℕ → ℕ
shl32 p x k = elim (ltb k 32) [ true ↦ u32 (x <<< k) | false ↦ u32 (p.oversized x k) ]

abbrev pub shr32 : Unspecified → ℕ → ℕ → ℕ
shr32 p x k = elim (ltb k 32) [ true ↦ x >>> k | false ↦ u32 (p.oversized x k) ]

-- `>>` on a `w`-bit signed integer, as bit patterns: the compilers that the Makefile calls shift in
-- copies of the sign, so a negative number is complemented before and after.
abbrev pub arithmetic : ℕ → ℕ → ℕ → ℕ
arithmetic w x k = if ltb x (2 ^ (w - 1)) then x >>> k else 2 ^ w - 1 - ((2 ^ w - 1 - x) >>> k)

abbrev pub sar64 : Unspecified → ℕ → ℕ → ℕ
sar64 p x k = elim (ltb k 64) [ true ↦ arithmetic 64 x k | false ↦ u64 (p.oversized x k) ]

abbrev pub sar32 : Unspecified → ℕ → ℕ → ℕ
sar32 p x k = elim (ltb k 32) [ true ↦ arithmetic 32 x k | false ↦ u32 (p.oversized x k) ]
