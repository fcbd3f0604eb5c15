-- ===== src/Machine.antt =====
-- The state that the stages share: what riscv_sim_pipeline_framework.c, cache.c and pipeline.c keep
-- in static and global variables. riscv_sim_pipeline_framework.h declares the pipeline registers,
-- and riscv_pipeline_registers.h makes the current ones readable in every stage.
use risc5_simulator.Common.{ℕ}
use risc5_simulator.Memory.{Memory}
use risc5_simulator.Registers.{RegisterFile}
use risc5_simulator.Cache.{Cache}
use risc5_simulator.Btb.{Btb}

-- The field `pc`, which no code reads or writes, is left out.
pub record StageRegD : Type 0 where
  pub instruction : ℕ
  pub stalled : ℕ
  pub new_pc : ℕ

pub record StageRegX : Type 0 where
  pub new_pc : ℕ
  pub instruction : ℕ
  pub reg1 : ℕ
  pub reg2 : ℕ
  pub imm : ℕ
  pub extend_pc : ℕ
  pub data_stalled : ℕ

pub record StageRegM : Type 0 where
  pub instruction : ℕ
  pub res : ℕ
  pub reg2 : ℕ
  pub control_stalled : ℕ
  pub new_pc : ℕ

pub record StageRegW : Type 0 where
  pub memory : ℕ
  pub stalled : ℕ
  pub instruction : ℕ
  pub val : ℕ
  pub new_pc : ℕ

pub record Machine : Type 0 where
  pub memory : Memory
  pub registers : RegisterFile
  pub program_counter : ℕ
  pub i_cache : Cache
  pub d_cache : Cache
  pub btb : Btb
  pub d_reg : StageRegD
  pub x_reg : StageRegX
  pub m_reg : StageRegM
  pub w_reg : StageRegW

unfoldable pub set_pc : ℕ → Machine → Machine
set_pc pc s = record s { program_counter = pc }

unfoldable pub get_pc : Machine → ℕ
get_pc s = s.program_counter
