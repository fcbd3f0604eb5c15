-- ===== src/Simulator.antt =====
-- The main loop of riscv_sim_pipeline_framework.c, with and without the pipeline, and the state it
-- starts from.
pub mod Squash
pub mod Caches
pub mod Invariant
pub mod Waiting
pub mod Unpipelined
use risc5_simulator.Common.{ℕ, zero, suc, ◌+◌, Bool, true, false, ◌==◌, if◌then◌else◌, u64, update}
use risc5_simulator.Platform.{Unspecified}
use risc5_simulator.Memory.{
  Memory, Buffer, memory_dump, memory_initialize_pending, memory_retire_completed, stage_f_bit,
  stage_d_bit, stage_x_bit, stage_m_bit, stage_w_bit,
}
use risc5_simulator.Registers.{register_reset_cycle}
use risc5_simulator.Cache.{word32}
use risc5_simulator.Machine.{Machine, StageRegD, StageRegX, StageRegM, StageRegW, set_pc, get_pc}
use risc5_simulator.Stages.{execute_single_instruction}
use risc5_simulator.Pipeline.{
  stage_fetch, stage_decode, stage_execute, stage_memory, stage_writeback,
}

abbrev pub ebreak : ℕ
ebreak = 0x00100073

-- The local variables of `simulator_execute_instructions`. They start with any contents, and keep
-- from one round to the next what a round does not write.
pub record Locals : Type 0 where
  pub inst : Buffer
  pub new_d_reg : StageRegD
  pub new_x_reg : StageRegX
  pub new_m_reg : StageRegM
  pub new_w_reg : StageRegW

-- `current_stage = stage`
abbrev pub enter_stage : ℕ → Machine → Machine
enter_stage stage s = record s { memory = record (s.memory) { current_stage = stage } }

-- One round of the loop after the test for EBREAK: a cycle. The stages run from the last to the
-- first, and read the registers that the cycle before has left.
unfoldable pub cycle : Unspecified → Locals → Machine → Locals × Machine
cycle p l s =
    let started : Machine = record s { registers = register_reset_cycle s.registers } in
    let after_w = stage_writeback (enter_stage stage_w_bit started) in
    let (new_w_reg, after_m) = stage_memory p l.new_w_reg (enter_stage stage_m_bit after_w) in
    let (new_m_reg, after_x) = stage_execute p l.new_m_reg (enter_stage stage_x_bit after_m) in
    let in_d = enter_stage stage_d_bit after_x in
    let new_x_reg = stage_decode p l.new_x_reg in_d in
    let (new_d_reg, after_f) = stage_fetch p l.new_d_reg (enter_stage stage_f_bit in_d) in
    let counted : Memory = record (after_f.memory) {
      cycle_counter = u64 (after_f.memory.cycle_counter + 1);
    } in
    (
      record {
        inst = l.inst;
        new_d_reg = new_d_reg;
        new_x_reg = new_x_reg;
        new_m_reg = new_m_reg;
        new_w_reg = new_w_reg;
      },
      record after_f {
        memory = memory_retire_completed counted;
        d_reg = new_d_reg;
        x_reg = new_x_reg;
        m_reg = new_m_reg;
        w_reg = new_w_reg;
      },
    )

-- `memory_dump (&inst, get_pc_internal (), sizeof (inst))`: out of range `inst` keeps its value.
unfoldable pub read_inst : Buffer → Machine → Buffer
read_inst inst s = (memory_dump inst (get_pc s) 4 s.memory).1

-- The loop with the number of rounds left; `us` gives what is unspecified in each round.
unfoldable pub simulator_execute_instructions :
    (ℕ → Unspecified) → ℕ → Locals → Machine → Locals × Machine
simulator_execute_instructions us zero l s = (l, s)
simulator_execute_instructions us (suc n) l s =
    let l' : Locals = record l { inst = read_inst l.inst s } in
    elim (word32 l'.inst 0 == ebreak) [
      | true ↦ (l', s)
      | false ↦ let (l'', s') = cycle (us n) l' s in simulator_execute_instructions us n l'' s'
    ]

-- The loop under `SIM_NO_PIPELINE`. `memory_reset_cycle` sets two counters that nothing else reads.
pub execute_unpipelined : (ℕ → Unspecified) → ℕ → Buffer → Machine → Machine
execute_unpipelined us zero inst s = s
execute_unpipelined us (suc n) inst s =
    let inst' = read_inst inst s in
    let started : Machine = record s { registers = register_reset_cycle s.registers } in
    elim (word32 inst' 0 == ebreak) [
      | true ↦ s
      | false ↦
          let (new_pc, s') = execute_single_instruction (us n) (get_pc s) started in
          execute_unpipelined us n inst' (set_pc new_pc s')
    ]

abbrev pub zero_d : StageRegD
zero_d = record { instruction = 0; stalled = 0; new_pc = 0 }

abbrev pub zero_x : StageRegX
zero_x = record {
  new_pc = 0;
  instruction = 0;
  reg1 = 0;
  reg2 = 0;
  imm = 0;
  extend_pc = 0;
  data_stalled = 0;
}

abbrev pub zero_m : StageRegM
zero_m = record { instruction = 0; res = 0; reg2 = 0; control_stalled = 0; new_pc = 0 }

abbrev pub zero_w : StageRegW
zero_w = record { memory = 0; stalled = 0; instruction = 0; val = 0; new_pc = 0 }

unfoldable pub initialize_state : Machine → Machine
initialize_state s =
    let m = memory_initialize_pending s.memory in
    let cleared : Memory = record m {
      cycle_counter = 0;
      read_counter = 0;
      read_bytes = 0;
      write_counter = 0;
      write_bytes = 0;
    } in
    record s {
      memory = cleared;
      program_counter = 0;
      d_reg = zero_d;
      x_reg = zero_x;
      m_reg = zero_m;
      w_reg = zero_w;
    }
