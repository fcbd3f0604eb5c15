-- ===== src/Stages.antt =====
-- stages.h and stages.c: what each stage does with one instruction. Calls of `printf` are left out.
-- An argument that C passes by pointer comes in with its old value and goes out in the result.
pub mod Loads
pub mod Stores
use risc5_simulator.Common.{
  ℕ, ◌+◌, Bool, true, false, ◌==◌, ◌!=◌, ◌&&◌, if◌then◌else◌, u8, u16, u32, u64, ◌<<<◌, sign_extend,
}
use risc5_simulator.Platform.{Unspecified}
use risc5_simulator.Utils.{
  load, save, jalr_opcode, jal_opcode, get_opcode, get_rd, get_funct3, get_rs1, get_rs2, get_imm,
  is_r, is_i, is_s, is_sb, is_u, is_uj, is_branch, has_rs1, has_rs2, has_rd, has_imm,
}
use risc5_simulator.Executor.Register.{exec_r}
use risc5_simulator.Executor.Immediate.{exec_i, exec_s, jalr}
use risc5_simulator.Executor.Control.{exec_sb, exec_u, exec_uj}
use risc5_simulator.Memory.{memory_read, memory_write}
use risc5_simulator.Registers.{register_read, register_write}
use risc5_simulator.Cache.{
  get_64bits, word32, word64, found_i_cache, copy_i_cache, found_d_cache, copy_d_cache,
  write_d_cache,
}
use risc5_simulator.Machine.{Machine}

-- Whether the stage stalls, the instruction, and the new state.
unfoldable pub instruction_fetch_stage : Unspecified → ℕ → ℕ → Machine → Bool × ℕ × Machine
instruction_fetch_stage p pc instruction s =
    let (is_found, instruction') = found_i_cache pc instruction s.i_cache in
    let block_addr = u64 (get_64bits pc 4 63 <<< 4) in
    let (status, block, memory) = memory_read block_addr p.i_block 16 s.memory in
    let i_cache = if status then copy_i_cache block_addr (word32 block) s.i_cache else s.i_cache in
    if is_found
    then (false, instruction', s)
    else (true, instruction', record s { memory = memory; i_cache = i_cache })

pub record Decoded : Type 0 where
  pub reg1 : ℕ
  pub reg2 : ℕ
  pub imm : ℕ
  pub extend_pc : ℕ

unfoldable pub decode_stage : ℕ → ℕ → ℕ → Machine → Decoded
decode_stage instruction pc extend_pc s =
    let opcode = get_opcode instruction in
    let rs1 = if has_rs1 opcode then get_rs1 instruction else 0 in
    let rs2 = if has_rs2 opcode then get_rs2 instruction else 0 in
    let (a, b) = register_read s.registers rs1 rs2 in
    let imm = if has_imm opcode then get_imm instruction else 0 in
    record {
      reg1 = a;
      reg2 = b;
      imm = imm;
      extend_pc = if is_branch opcode then u64 (pc + imm) else extend_pc;
    }

-- The new contents of `*res`.
unfoldable pub execute_stage : Unspecified → ℕ → ℕ → ℕ → ℕ → ℕ → ℕ → ℕ
execute_stage p instruction reg1 reg2 imm pc res =
    let opcode = get_opcode instruction in
    if is_r opcode
    then exec_r p instruction reg1 reg2
    else if is_i opcode
    then (if opcode == jalr_opcode then jalr pc else exec_i p instruction reg1 imm)
    else if is_s opcode
    then exec_s instruction reg1 reg2 imm
    else if is_sb opcode
    then res
    else if is_u opcode
    then exec_u instruction imm pc
    else if is_uj opcode
    then exec_uj instruction pc
    else res

unfoldable pub branch_stage : ℕ → ℕ → ℕ → Bool
branch_stage instruction reg1 reg2 =
    let opcode = get_opcode instruction in
    if is_sb opcode
    then exec_sb instruction reg1 reg2
    else if opcode == jalr_opcode
    then true
    else if opcode == jal_opcode
    then true
    else false

-- The first `switch (funct3)` of `memory_stage`: `*val` after a load from `block`.
pub load_value : ℕ → ℕ → ℕ → ℕ
load_value funct3 block val =
    let b = u8 block in
    let hw = u16 block in
    let w = u32 block in
    let dl = u64 block in
    if funct3 == 0x0
    then sign_extend 8 b
    else if funct3 == 0x1
    then sign_extend 16 hw
    else if funct3 == 0x2
    then sign_extend 32 w
    else if funct3 == 0x3
    then dl
    else if funct3 == 0x4
    then b
    else if funct3 == 0x5
    then hw
    else if funct3 == 0x6
    then w
    else val

-- A load that misses: ask the memory for the block, and cache it if it is there at once. Of the
-- sixteen bytes that are asked for, the first eight land in `block`.
unfoldable pub load_miss : Unspecified → ℕ → Machine → Machine
load_miss p res s =
    let block_addr = u64 (get_64bits res 3 63 <<< 3) in
    let (status, block, memory) = memory_read block_addr p.d_block 16 s.memory in
    let d_cache = if status then copy_d_cache res (word64 block) s.d_cache else s.d_cache in
    record s { memory = memory; d_cache = d_cache }

-- The second `switch`: the cached line of a store that hits is written.
unfoldable pub store_hit : ℕ → ℕ → ℕ → Machine → Machine
store_hit funct3 res reg2 s =
    let write_size =
      λ (size : ℕ). record s { d_cache = (write_d_cache res reg2 size s.d_cache).1 } in
    if funct3 == 0x0
    then write_size 1
    else if funct3 == 0x1
    then write_size 2
    else if funct3 == 0x2
    then write_size 4
    else if funct3 == 0x3
    then write_size 8
    else s

-- The third `switch`: the store is written through to memory.
unfoldable pub store_through : ℕ → ℕ → ℕ → Machine → Machine
store_through funct3 res reg2 s =
    let write_size =
      λ (value size : ℕ). record s { memory = (memory_write res value size s.memory).1 } in
    if funct3 == 0x0
    then write_size (u8 reg2) 1
    else if funct3 == 0x1
    then write_size (u16 reg2) 2
    else if funct3 == 0x2
    then write_size (u32 reg2) 4
    else if funct3 == 0x3
    then write_size (u64 reg2) 8
    else s

-- Whether the stage stalls, `*val`, and the new state. `block` is read only after a hit, so what it
-- holds before does not matter.
unfoldable pub memory_stage : Unspecified → ℕ → ℕ → ℕ → Machine → Bool × ℕ × Machine
memory_stage p instruction res reg2 s =
    let opcode = get_opcode instruction in
    let funct3 = get_funct3 instruction in
    let (is_found, block) = found_d_cache res 0 s.d_cache in
    let stored = if is_found then store_hit funct3 res reg2 s else s in
    if opcode != load && opcode != save
    then (false, res, s)
    else if opcode == load
    then (if is_found
        then (false, load_value funct3 block res, s)
        else (true, res, load_miss p res s))
    else (false, res, store_through funct3 res reg2 stored)

unfoldable pub write_back_stage : ℕ → ℕ → Machine → Machine
write_back_stage instruction val s =
    let opcode = get_opcode instruction in
    let rd = get_rd instruction in
    if has_rd opcode then record s { registers = register_write s.registers rd val } else s

-- The machine without a pipeline: the next program counter and the new state.
unfoldable pub execute_single_instruction : Unspecified → ℕ → Machine → ℕ × Machine
execute_single_instruction p pc s =
    let (_, instruction, fetched) = instruction_fetch_stage p pc p.instruction s in
    let d = decode_stage instruction pc p.extend_pc fetched in
    let res = execute_stage p instruction d.reg1 d.reg2 d.imm pc p.res in
    let branch = branch_stage instruction d.reg1 d.reg2 in
    let (_, val, accessed) = memory_stage p instruction res d.reg2 fetched in
    (if branch then d.extend_pc else u64 (pc + 4), write_back_stage instruction val accessed)
