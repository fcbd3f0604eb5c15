-- ===== src/Session.antt =====
-- What the command interpreter of riscv_sim_pipeline_framework.c keeps beside the machine, and what
-- it prints.
use risc5_simulator.Common.{ℕ, Bool, ◌*◌, Option, List, ◌∷◌}
use risc5_simulator.Platform.{Unspecified}
use risc5_simulator.Text.{Bytes}
use risc5_simulator.Memory.{Buffer}
use risc5_simulator.Machine.{Machine}
use risc5_simulator.Simulator.{Locals}

abbrev pub memory_size : ℕ
memory_size = 8 * 1024 * 1024

-- One constructor for each text that is printed, with the numbers in it.
pub data Message : Type 0 where
  loading : ℕ → Bool → Message
  open_failed bad_offset bad_byte : ℕ → Message  -- the number of the line, 0 for `fopen`
  binary_load binary_dump : Message
  dumping : ℕ → ℕ → Bool → Message
  dump_open_failed : Message
  load_usage load_failed : Message
  dump_usage dump_failed : Message
  readreg_usage writereg_usage run_usage setpc_usage no_value : Message
  address_out_of_range pc_outside pc_unaligned bad_steps bad_register : ℕ → Message
  dump_out_of_range : ℕ → ℕ → Message
  register_is : ℕ → ℕ → Bool → Message
  setting_state unrecognized : Message
  pc_is cycles_are : ℕ → Message
  stats : ℕ → ℕ → ℕ → ℕ → Message

-- The files that `fopen` finds, the names that it lets be written, the text that is left on standard
-- input and what was written to standard output, newest last. `membuf` and `buf` are the static
-- buffers of `load_data_from_file` and `dump_data_to_file`.
pub record Session : Type 0 where
  pub machine : Machine
  pub files : Bytes → Option Bytes
  pub writable : Bytes → Bool
  pub stdin : Bytes
  pub stdout : Bytes
  pub membuf : Buffer
  pub buf : Buffer
  pub log : List Message  -- newest first

abbrev pub say : Message → Session → Session
say m s = record s { log = m ∷ s.log }

-- What a run finds in memory that the program has not written.
pub record Chance : Type 0 where
  pub rounds : ℕ → Unspecified
  pub locals : Locals
