-- ===== src/Tests/Program.antt =====
-- The pipeline and the loop, run on a small program.
use risc5_simulator.Common.{ℕ, ◌≡◌, refl, [], ◌∷◌}
use risc5_simulator.Samples.{program, typical, boot, zero_locals, adding}
use risc5_simulator.Machine.{Machine}
use risc5_simulator.Btb.{found_btb}
use risc5_simulator.Cache.{
  get_64bits, found_i_cache, copy_i_cache, update_i_cache, update_d_cache, found_d_cache,
}
use risc5_simulator.Executor.Control.{exec_sb, exec_uj, jal}
use risc5_simulator.Executor.Immediate.{addi, exec_i}
use risc5_simulator.Executor.Register.{add, exec_r}
use risc5_simulator.Machine.{set_pc, get_pc}
use risc5_simulator.Memory.{
  Buffer, memory_status, poll, memory_read, memory_dump, memory_retire_completed, popcount,
  improper, may_issue,
}
use risc5_simulator.Pipeline.{
  fetch_pc, flush_memory, stage_fetch, stalls_on_x, forward_m, forward_w, operands, stage_decode,
  stage_execute, stage_memory, stage_writeback,
}
use risc5_simulator.Registers.{
  RegisterFile, register_read, register_write, register_read_one, register_reset_cycle,
}
use risc5_simulator.Simulator.{cycle, read_inst, simulator_execute_instructions}
use risc5_simulator.Stages.{
  instruction_fetch_stage, decode_stage, execute_stage, branch_stage, memory_stage,
  write_back_stage,
}
use risc5_simulator.Utils.{
  get_bits, get_opcode, get_rd, get_funct3, get_rs1, get_rs2, get_funct7, get_imm_i, get_imm_uj,
  get_imm, sign_expand, is_r, is_i, is_s, is_sb, is_u, is_uj, is_branch, has_rs1, has_rs2, has_rd,
  has_imm,
}

abbrev after : ℕ → ℕ → Machine
after latency n =
    (simulator_execute_instructions (λ _. typical) n zero_locals (boot adding latency)).1

-- The sum that the program leaves in register 3, with a memory that answers at once and with one
-- that takes three cycles, and the address that the fetch has got to.
adding_result :
    ((after 0 12).registers.register_file 3 ≡ 17)
    × ((after 3 16).registers.register_file 3 ≡ 17)
    × ((after 0 12).program_counter ≡ 24)
unfolding get_bits get_opcode get_rd get_funct3 get_rs1 get_rs2 get_funct7 get_imm_i get_imm
    sign_expand is_r is_i is_s is_sb is_u is_uj is_branch has_rs1 has_rs2 has_rd has_imm add addi
    exec_r exec_i exec_sb get_64bits found_i_cache copy_i_cache update_i_cache update_d_cache
    found_d_cache memory_status memory_read memory_dump memory_retire_completed popcount improper
    may_issue register_read register_write register_read_one register_reset_cycle found_btb
    instruction_fetch_stage decode_stage execute_stage branch_stage memory_stage write_back_stage
    fetch_pc flush_memory stage_fetch stalls_on_x forward_m forward_w operands stage_decode
    stage_execute stage_memory stage_writeback set_pc get_pc cycle read_inst
    simulator_execute_instructions poll
adding_result = (refl, refl, refl)

-- `jal x1, 8; addi x2, x0, 1; addi x3, x0, 2`: the jump is taken, and its link is not written.
abbrev jumping : Buffer
jumping = program (0x008000ef ∷ 0x00100113 ∷ 0x00200193 ∷ [])

abbrev jumped : RegisterFile
jumped = (simulator_execute_instructions (λ _. typical) 14 zero_locals (boot jumping 0)).1.registers

jumping_result :
    (jumped.register_file 1 ≡ 0) × (jumped.register_file 2 ≡ 0) × (jumped.register_file 3 ≡ 2)
unfolding get_bits get_opcode get_rd get_funct3 get_rs1 get_rs2 get_funct7 get_imm_i get_imm_uj
    exec_uj jal get_imm sign_expand is_r is_i is_s is_sb is_u is_uj is_branch has_rs1 has_rs2 has_rd
    has_imm add addi exec_r exec_i exec_sb get_64bits found_i_cache copy_i_cache update_i_cache
    update_d_cache found_d_cache memory_status memory_read memory_dump memory_retire_completed
    popcount improper may_issue register_read register_write register_read_one register_reset_cycle
    found_btb instruction_fetch_stage decode_stage execute_stage branch_stage memory_stage
    write_back_stage fetch_pc flush_memory stage_fetch stalls_on_x forward_m forward_w operands
    stage_decode stage_execute stage_memory stage_writeback set_pc get_pc cycle read_inst
    simulator_execute_instructions poll
jumping_result = (refl, refl, refl)
