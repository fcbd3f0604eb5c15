-- ===== src/Samples.antt =====
-- A machine with a small program in memory, for tests and instances.
use risc5_simulator.Common.{ℕ, ◌*◌, ◌/◌, ◌%◌, ◌^◌, false, List, [], ◌∷◌, get_or, replicate}
use risc5_simulator.Platform.{Unspecified}
use risc5_simulator.Memory.{Memory, Buffer, free_slot}
use risc5_simulator.Registers.{RegisterFile}
use risc5_simulator.Cache.{Cache}
use risc5_simulator.Btb.{empty_btb}
use risc5_simulator.Machine.{Machine}
use risc5_simulator.Simulator.{Locals, zero_d, zero_x, zero_m, zero_w}

-- Shift distances taken modulo the width, and locals that hold zeros.
abbrev pub typical : Unspecified
typical = record {
  oversized = λ x k. x * 2 ^ (k % 64);
  extend_pc = 0;
  res = 0;
  instruction = 0;
  i_block = λ _. 0;
  d_block = λ _. 0;
  i_value = λ _. 0;
  d_value = λ _. 0;
}

-- The words of a program, placed from address 0 on.
abbrev pub program : List ℕ → Buffer
program words i = get_or words (i / 4) 0 / 2 ^ (8 * (i % 4)) % 2 ^ 8

abbrev pub memory_with : Buffer → ℕ → Memory
memory_with bytes latency = record {
  bytes = bytes;
  mem_size = 2 ^ 23;
  read_latency = latency;
  write_latency = 0;
  cycle_counter = 0;
  read_counter = 0;
  read_bytes = 0;
  write_counter = 0;
  write_bytes = 0;
  pending = replicate 4 free_slot;
  current_stage = 0;
  accesses_issued = 0;
}

abbrev pub empty_cache : Cache
empty_cache _ = record { sig = 0; block = λ _. 0; valid = false }

abbrev pub zero_registers : RegisterFile
zero_registers = record {
  register_file = λ _. 0;
  register_cycle_reads = 0;
  register_cycle_writes = 0;
}

abbrev pub boot : Buffer → ℕ → Machine
boot bytes latency = record {
  memory = memory_with bytes latency;
  registers = zero_registers;
  program_counter = 0;
  i_cache = empty_cache;
  d_cache = empty_cache;
  btb = empty_btb;
  d_reg = zero_d;
  x_reg = zero_x;
  m_reg = zero_m;
  w_reg = zero_w;
}

abbrev pub zero_locals : Locals
zero_locals = record {
  inst = λ _. 0;
  new_d_reg = zero_d;
  new_x_reg = zero_x;
  new_m_reg = zero_m;
  new_w_reg = zero_w;
}

-- `addi x1, x0, 5; addi x2, x1, 7; add x3, x1, x2` and zeros.
abbrev pub adding : Buffer
adding = program (0x00500093 ∷ 0x00708113 ∷ 0x002081b3 ∷ [])
