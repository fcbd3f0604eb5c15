-- ===== src/Tests/Stage.antt =====
-- The stages: fetch, hazards and branch prediction.
use risc5_simulator.Common.{
  ℕ, ◌≡◌, ◌↔◌, ◌⊎◌, refl, ap, arith, Bool, true, false, if◌then◌else◌, update, none, some,
}
use risc5_simulator.Samples.{memory_with, empty_cache, zero_registers, typical, boot, adding}
use risc5_simulator.Utils.{
  load, save, get_funct3, get_funct3, save, get_opcode, get_rd, get_rs1, get_rs2, has_rs1, has_rs2,
  has_rd, get_bits,
}
use risc5_simulator.Btb.{Btb, empty_btb, found_btb, update_btb}
use risc5_simulator.Btb.Invariant.{IsValid, empty-IsValid, update-IsValid}
use risc5_simulator.Cache.{copy_d_cache, word32}
use risc5_simulator.Machine.{Machine}
use risc5_simulator.Stages.{memory_stage, decode_stage, write_back_stage}
use risc5_simulator.Registers.{register_read, register_read_one, register_write}
use risc5_simulator.Simulator.{zero_d, zero_m, zero_w}
use risc5_simulator.Stages.Loads.{load_copied}
use risc5_simulator.Stages.Stores.{store-bytes}
use risc5_simulator.Memory.{may_issue}
use risc5_simulator.Isa.{LoadOp, StoreOp}
use risc5_simulator.Pipeline.{
  nop, fetch_pc, stage_fetch, resolve, operands, stalls_on_x, forward_m, forward_w, stage_writeback,
}
use risc5_simulator.Pipeline.Forwarding.{operands_stall_iff, operands_lem}
use risc5_simulator.Pipeline.Prediction.{predicted_next, resolve-next, resolve_not_taken}
use risc5_simulator.Pipeline.Operands.{
  in_order, clash, zero_hazard, decoded_operands, operands_in_order,
}
use risc5_simulator.Pipeline.Fetch.{fetched, stage_fetch_lem}

-- `addi x1, x0, 5`, `addi x2, x1, 7`, `add x3, x1, x2` and `lw x1, 0(x0)`.
abbrev first : ℕ
first = 0x00500093

abbrev second : ℕ
second = 0x00708113

abbrev third : ℕ
third = 0x002081b3

abbrev load_word : ℕ
load_word = 0x00002083

-- The first is in W with its value 5, the second in M with its result 12.
abbrev in_flight : Machine
in_flight = record (boot adding 0) {
  m_reg = record zero_m { instruction = second; res = 12 };
  w_reg = record zero_w { instruction = first; val = 5 };
}

no_clash : (clash in_flight third ≡ false) × (zero_hazard in_flight third ≡ false)
unfolding get_opcode get_rd get_rs1 get_rs2 has_rs1 has_rs2 has_rd get_bits
no_clash = (refl, refl)

taken : decoded_operands in_flight third 8 0 ≡ some (5, 12)
unfolding decode_stage stage_writeback operands stalls_on_x forward_m forward_w get_opcode get_rd
    get_rs1 get_rs2 has_rs1 has_rs2 has_rd get_bits register_read register_read_one register_write
    write_back_stage
taken = refl

operands_in_order_example : (5 ≡ in_order in_flight 1) × (12 ≡ in_order in_flight 2)
unfolding get_opcode get_rs1 get_rs2 has_rs1 has_rs2 get_bits
operands_in_order_example =
    operands_in_order in_flight third 8 0 5 12 refl (omega arith) (omega arith) no_clash.0
      no_clash.1 taken

-- The instruction in M loads the register that the third reads.
abbrev after_load : Machine
after_load = record (boot adding 0) { m_reg = record zero_m { instruction = load_word; res = 0 } }

operands_stall_iff_example : (operands after_load third (0, 0) ≡ none) ↔ (true ≡ true)
unfolding get_opcode get_rd get_rs1 get_rs2 has_rs1 has_rs2 has_rd get_bits
operands_stall_iff_example = operands_stall_iff after_load third 0 0

taken_operands : operands in_flight third (0, 0) ≡ some (5, 12)
unfolding operands stalls_on_x forward_m forward_w get_opcode get_rd get_rs1 get_rs2 has_rs1 has_rs2
    has_rd get_bits
taken_operands = refl

operands_example : (5 ≡ in_flight.w_reg.val) × (12 ≡ in_flight.m_reg.res)
unfolding get_opcode get_rd get_rs1 get_rs2 has_rs1 has_rs2 has_rd get_bits
operands_example = operands_lem in_flight third 0 0 5 12 taken_operands

-- The branch at 40 goes to 16 and has been taken before.
abbrev trained : Btb
trained = update_btb 40 16 empty_btb

not_found : (found_btb 40 0 empty_btb).0 ≡ false
unfolding found_btb
not_found = refl

found : found_btb 40 0 trained ≡ (true, 16)
unfolding found_btb update_btb
found = refl

trained-IsValid : IsValid trained
trained-IsValid = update-IsValid 40 16 0 empty-IsValid not_found

resolve-next_example :
    (((resolve false 40 16 trained).control_stalled ≡ 1)
      × ((resolve false 40 16 trained).new_pc ≡ 44))
    ⊎ (((resolve false 40 16 trained).control_stalled ≡ 0) × (predicted_next 40 trained ≡ 44))
unfolding found_btb update_btb
resolve-next_example = resolve-next false 40 16 trained (λ _. refl)

resolve_not_taken_example : (found_btb 40 0 (resolve false 40 16 trained).btb).0 ≡ false
unfolding update_btb
resolve_not_taken_example =
    resolve_not_taken 40 16 trained-IsValid (ap (λ (r : Bool × ℕ). r.0) found)

-- A machine whose instruction cache holds the program.
abbrev warm : Machine
warm = record (boot adding 0) {
  i_cache = update empty_cache 0 (record { sig = 0; block = word32 adding; valid = true });
}

stage_fetch_example :
    ((stage_fetch typical zero_d warm).0 ≡ (
      if (fetched typical warm).0
      then record { stalled = 0; instruction = (fetched typical warm).1; new_pc = fetch_pc warm }
      else record { stalled = 1; instruction = nop; new_pc = 0 }))
    × ((stage_fetch typical zero_d warm).1.program_counter
        ≡ (if (fetched typical warm).0 then predicted_next (fetch_pc warm) empty_btb else 0))
    × ((stage_fetch typical zero_d warm).1.registers ≡ zero_registers)
    × ((stage_fetch typical zero_d warm).1.btb ≡ empty_btb)
stage_fetch_example = stage_fetch_lem typical zero_d warm

-- `lw x1, 0(x0)` and `sw x1, 0(x2)`.
abbrev store_word : ℕ
store_word = 0x00112023

codes :
    ((get_opcode load_word ≡ load) × (get_funct3 load_word ≡ 2))
    × ((get_opcode store_word ≡ save) × (get_funct3 store_word ≡ 2))
unfolding get_opcode get_funct3 get_bits
codes = ((refl, refl), (refl, refl))

-- The block of 0x20 in the data cache.
abbrev holding : Machine
holding = record (boot adding 0) { d_cache = copy_d_cache 0x24 0xfedcba9876543210 empty_cache }

load_copied_example :
    memory_stage typical load_word 0x24 0 holding ≡ (false, 0xfffffffffedcba98, holding)
load_copied_example =
    load_copied typical LoadOp.lw load_word 0x24 0 0xfedcba9876543210 (boot adding 0) codes.0.0
      codes.0.1 (λ _. refl) (omega arith) refl

-- A machine in its M stage.
abbrev storing : Machine
storing = record (boot adding 0) { memory = record (memory_with adding 0) { current_stage = 8 } }

store-bytes_example :
    ((memory_stage typical store_word 64 0x11223344 storing).0 ≡ false)
    × ((memory_stage typical store_word 64 0x11223344 storing).2.memory.bytes 65 ≡ 0x33)
unfolding may_issue
store-bytes_example =
    store-bytes typical StoreOp.sw store_word 64 0x11223344 65 storing codes.1.0 codes.1.1
      (omega arith)
