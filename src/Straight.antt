-- ===== src/Straight.antt =====
-- The pipeline of riscv_sim_pipeline_framework.c and pipeline.c against a machine that executes one
-- instruction after another, for programs of register instructions without jumps.
pub mod Stages
pub mod Stall
pub mod Cycle
pub mod Issue
pub mod Next
pub mod Decode
pub mod Refinement
pub mod Progress
use risc5_simulator.Common.{
  ℕ, ◌+◌, Bool, true, false, not, ◌&&◌, ◌==◌, ◌!=◌, ◌≡◌, ◌⊎◌, if◌then◌else◌, u64,
}
use risc5_simulator.Platform.{Unspecified}
use risc5_simulator.Utils.{
  load, get_opcode, get_rd, get_rs1, get_rs2, get_imm, has_rs1, has_rs2, has_rd, has_imm, is_branch,
}
use risc5_simulator.Registers.{RegisterFile, register_read_one, register_reset_cycle}
use risc5_simulator.Btb
use risc5_simulator.Btb.{found_btb}
use risc5_simulator.Machine.{Machine, StageRegX}
use risc5_simulator.Stages.{execute_stage}
use risc5_simulator.Pipeline.{nop}
use risc5_simulator.Pipeline.Operands.{written}

-- An instruction that writes a register other than 0 from registers and its immediate.
abbrev pub plain : ℕ → Bool
plain i =
    has_rd (get_opcode i) && get_opcode i != load && not (is_branch (get_opcode i)) && get_rd i != 0

-- The words of a program by address: plain instructions, of which no two in a row write the same
-- register.
abbrev pub Straight : (ℕ → ℕ) → Type 0
Straight code =
    (a : ℕ) → (plain (code a) ≡ true) × ((get_rd (code a) == get_rd (code (u64 (a + 4)))) ≡ false)

-- The machine that executes one instruction after another: registers and program counter.
abbrev pub Arch : Type 0
Arch = RegisterFile × ℕ

abbrev pub arch_operand : Bool → ℕ → RegisterFile → ℕ
arch_operand has r f = if has then register_read_one f r else 0

abbrev pub arch_step : Unspecified → (ℕ → ℕ) → Arch → Arch
arch_step p code (f, pc) =
    let i = code pc in
    let a = arch_operand (has_rs1 (get_opcode i)) (get_rs1 i) f in
    let b = arch_operand (has_rs2 (get_opcode i)) (get_rs2 i) f in
    let imm = if has_imm (get_opcode i) then get_imm i else 0 in
    (written i (execute_stage p i a b imm pc p.res) f, u64 (pc + 4))

-- What the instruction in X will write.
abbrev pub result : Unspecified → StageRegX → ℕ
result p x = execute_stage p x.instruction x.reg1 x.reg2 x.imm x.new_pc p.res

-- The registers once the instructions in W, M and X have written back, and the address of the next
-- instruction to be decoded.
abbrev pub arch_registers : Unspecified → Machine → RegisterFile
arch_registers p s = written s.x_reg.instruction (result p s.x_reg) (
    written s.m_reg.instruction s.m_reg.res
      (written s.w_reg.instruction s.w_reg.val (register_reset_cycle s.registers)))

abbrev pub arch_pc : Machine → ℕ
arch_pc s =
    if s.x_reg.data_stalled == 1
    then s.x_reg.new_pc
    else if s.d_reg.instruction == nop
    then s.program_counter
    else s.d_reg.new_pc

abbrev pub arch : Unspecified → Machine → Arch
arch p s = (arch_registers p s, arch_pc s)

abbrev pub NoPrediction : Btb.Btb → Type 0
NoPrediction btb = (pc : ℕ) → (found_btb pc 0 btb).0 ≡ false

-- What every cycle keeps: no hazard of control is open, and the instructions in flight are those of
-- the program in their order.
pub record InFlight (code : ℕ → ℕ) (s : Machine) : Type 0 where
  pub unpredicted : NoPrediction s.btb
  pub no_jump : s.m_reg.control_stalled ≡ 0
  pub no_miss : s.w_reg.stalled ≡ 0
  pub in_d :
      (s.d_reg.instruction ≡ nop)
      ⊎ ((s.d_reg.instruction ≡ code s.d_reg.new_pc)
          × (s.d_reg.stalled ≡ 0)
          × (s.program_counter ≡ u64 (s.d_reg.new_pc + 4)))
  pub in_x :
      (s.x_reg.instruction ≡ nop)
      ⊎ ((s.x_reg.instruction ≡ code s.x_reg.new_pc)
          × (s.x_reg.data_stalled ≡ 0)
          × (arch_pc s ≡ u64 (s.x_reg.new_pc + 4)))
  pub in_m :
      (s.m_reg.instruction ≡ nop)
      ⊎ ((s.m_reg.instruction ≡ code s.m_reg.new_pc)
          × ((s.x_reg.instruction ≡ nop) ⊎ (s.x_reg.new_pc ≡ u64 (s.m_reg.new_pc + 4))))
  pub in_w :
      (s.w_reg.instruction ≡ nop)
      ⊎ ((s.w_reg.instruction ≡ code s.w_reg.new_pc)
          × ((s.m_reg.instruction ≡ nop) ⊎ (s.m_reg.new_pc ≡ u64 (s.w_reg.new_pc + 4))))
