-- ===== src/Registers.antt =====
-- The register file of riscv_sim_pipeline_framework.c.
pub mod Laws
use risc5_simulator.Common.{ℕ, ◌+◌, ◌%◌, Bool, true, false, ltb, if◌then◌else◌, update}

abbrev pub num_registers : ℕ
num_registers = 32

pub record RegisterFile : Type 0 where
  pub register_file : ℕ → ℕ
  pub register_cycle_reads : ℕ
  pub register_cycle_writes : ℕ

unfoldable pub register_read_one : RegisterFile → ℕ → ℕ
register_read_one r reg =
    let reg' = reg % num_registers in if ltb 0 reg' then r.register_file reg' else 0

unfoldable pub register_read : RegisterFile → ℕ → ℕ → ℕ × ℕ
unfolding register_read_one
register_read r register_a register_b =
    if ltb 1 r.register_cycle_reads
    then (0, 0)
    else (register_read_one r register_a, register_read_one r register_b)

unfoldable pub register_write : RegisterFile → ℕ → ℕ → RegisterFile
register_write r register_d value_d =
    if ltb 1 r.register_cycle_writes
    then r
    else (let d = register_d % num_registers in
        record r { register_file = update r.register_file d value_d })

unfoldable pub register_reset_cycle : RegisterFile → RegisterFile
register_reset_cycle r = record r { register_cycle_reads = 0; register_cycle_writes = 0 }
