-- ===== src/Pipeline.antt =====
-- pipeline.h and pipeline.c: the five stages of a cycle. Each reads the current pipeline registers
-- and fills the next one of its own, of which it may leave fields as they are. Calls of `printf` are
-- left out.
pub mod Prediction
pub mod Forwarding
pub mod Operands
pub mod Fetch
use risc5_simulator.Common.{
  ℕ, ◌+◌, Bool, true, false, ◌==◌, ◌&&◌, ◌||◌, ltb, if◌then◌else◌, u64, Option, none, some,
}
use risc5_simulator.Platform.{Unspecified}
use risc5_simulator.Utils.{
  load, save, get_opcode, get_rd, get_rs1, get_rs2, has_rs1, has_rs2, has_rd,
}
use risc5_simulator.Cache.{update_i_cache, update_d_cache}
use risc5_simulator.Btb
use risc5_simulator.Btb.{found_btb, update_btb, delete_btb}
use risc5_simulator.Machine.{Machine, StageRegD, StageRegX, StageRegM, StageRegW, set_pc, get_pc}
use risc5_simulator.Stages.{
  instruction_fetch_stage, decode_stage, execute_stage, branch_stage, memory_stage,
  write_back_stage,
}

abbrev pub nop : ℕ
nop = 0x0

-- The address to fetch from: the program counter, or where a hazard sends the fetch back to.
unfoldable pub fetch_pc : Machine → ℕ
fetch_pc s =
    let pc = get_pc s in
    let pc1 = if s.x_reg.data_stalled == 1 then s.x_reg.new_pc else pc in
    let pc2 = if s.m_reg.control_stalled == 1 then s.m_reg.new_pc else pc1 in
    if s.w_reg.stalled == 1 then s.w_reg.new_pc else pc2

-- `update_i_cache (pc); update_d_cache (...)`
unfoldable pub flush_memory : Unspecified → ℕ → Machine → Machine
flush_memory p pc s =
    let (_, memory, i_cache) = update_i_cache p pc s.memory s.i_cache in
    let (_, memory', d_cache) = update_d_cache p s.w_reg.memory memory s.d_cache in
    record s { memory = memory'; i_cache = i_cache; d_cache = d_cache }

unfoldable pub stage_fetch : Unspecified → StageRegD → Machine → StageRegD × Machine
stage_fetch p new_d_reg s =
    let pc = fetch_pc s in
    let (stalled, instruction, s') =
      instruction_fetch_stage p pc p.instruction (flush_memory p pc s) in
    let (predict, predicted_pc) = found_btb pc 0 s'.btb in
    if stalled then (record new_d_reg { instruction = nop; stalled = 1 }, s') else (
      record new_d_reg { stalled = 0; instruction = instruction; new_pc = pc },
      (if predict then set_pc predicted_pc s' else set_pc (u64 (pc + 4)) s'),
    )

-- Whether `instruction` reads register `rd` as its first or second operand.
abbrev reads_rs1 : ℕ → ℕ → Bool
reads_rs1 instruction rd = has_rs1 (get_opcode instruction) && get_rs1 instruction == rd

abbrev reads_rs2 : ℕ → ℕ → Bool
reads_rs2 instruction rd = has_rs2 (get_opcode instruction) && get_rs2 instruction == rd

-- The instruction in X writes a register that `instruction` reads: stall.
unfoldable pub stalls_on_x : StageRegX → ℕ → Bool
stalls_on_x x instruction =
    let pre_instruction = x.instruction in
    let rd = get_rd pre_instruction in
    if has_rd (get_opcode pre_instruction)
    then (if reads_rs1 instruction rd then true else reads_rs2 instruction rd)
    else false

-- The instruction in M: its result is forwarded, unless it is a load, for which `none` stalls.
unfoldable pub forward_m : StageRegM → ℕ → ℕ × ℕ → Option (ℕ × ℕ)
forward_m m instruction (reg1, reg2) =
    let pre_instruction = m.instruction in
    let pre_opcode = get_opcode pre_instruction in
    let rd = get_rd pre_instruction in
    let second = λ (first : ℕ).
      if reads_rs2 instruction rd
      then (if pre_opcode == load then none else some (first, m.res))
      else some (first, reg2) in
    if has_rd pre_opcode
    then (if reads_rs1 instruction rd
        then (if pre_opcode == load then none else second m.res)
        else second reg1)
    else some (reg1, reg2)

-- The instruction in W: its value is forwarded.
unfoldable pub forward_w : StageRegW → ℕ → ℕ × ℕ → ℕ × ℕ
forward_w w instruction (reg1, reg2) =
    let pre_instruction = w.instruction in
    let rd = get_rd pre_instruction in
    if has_rd (get_opcode pre_instruction)
    then (
      (if reads_rs1 instruction rd then w.val else reg1),
      (if reads_rs2 instruction rd then w.val else reg2),
    )
    else (reg1, reg2)

-- The operands of `instruction` after the three older instructions in flight have been looked at,
-- oldest last; `none` is a stall.
unfoldable pub operands : Machine → ℕ → ℕ × ℕ → Option (ℕ × ℕ)
operands s instruction regs =
    if stalls_on_x s.x_reg instruction then none else elim (forward_m s.m_reg instruction regs) [
      | none ↦ none
      | some regs' ↦ some (forward_w s.w_reg instruction regs')
    ]

-- The register that `stage_decode` leaves where no instruction moves on. The two returns after a
-- control hazard and after a data cache miss set `instruction` twice and not `data_stalled`.
unfoldable pub stage_decode : Unspecified → StageRegX → Machine → StageRegX
stage_decode p new_x_reg s =
    let instruction = s.d_reg.instruction in
    let new_pc = s.d_reg.new_pc in
    let x : StageRegX = record new_x_reg { new_pc = new_pc } in
    let bubble : StageRegX = record x { instruction = nop; data_stalled = 0 } in
    let squashed : StageRegX = record x { instruction = nop } in
    let stalled : StageRegX = record x { instruction = nop; data_stalled = 1 } in
    let d = decode_stage instruction new_pc p.extend_pc s in
    if instruction == nop
    then bubble
    else if s.d_reg.stalled == 1
    then bubble
    else if s.x_reg.data_stalled == 1
    then bubble
    else if s.m_reg.control_stalled == 1
    then squashed
    else if s.w_reg.stalled == 1
    then squashed
    else elim (operands s instruction (d.reg1, d.reg2)) [
      | none ↦ stalled
      | some (reg1, reg2) ↦ record x {
        instruction = instruction;
        reg1 = reg1;
        reg2 = reg2;
        imm = d.imm;
        extend_pc = d.extend_pc;
        data_stalled = 0;
      }
    ]

-- The branch prediction of `stage_execute`: `control_stalled`, the address to go on from and the
-- branch target buffer, for an instruction at `pc` with branch target `extend_pc`.
pub record Resolution : Type 0 where
  pub control_stalled : ℕ
  pub new_pc : ℕ
  pub btb : Btb.Btb

unfoldable pub resolve : Bool → ℕ → ℕ → Btb.Btb → Resolution
resolve branch pc extend_pc btb =
    let (predict, _) = found_btb pc 0 btb in
    if branch
    then (if predict then record { control_stalled = 0; new_pc = pc; btb = btb } else record {
      control_stalled = 1;
      new_pc = extend_pc;
      btb = if ltb extend_pc pc then update_btb pc extend_pc btb else btb;
    })
    else (if predict
        then record { control_stalled = 1; new_pc = u64 (pc + 4); btb = delete_btb pc btb }
        else record { control_stalled = 0; new_pc = pc; btb = btb })

unfoldable pub stage_execute : Unspecified → StageRegM → Machine → StageRegM × Machine
unfolding resolve
stage_execute p new_m_reg s =
    let x = s.x_reg in
    let instruction = x.instruction in
    let bubble : StageRegM = record new_m_reg { instruction = nop; control_stalled = 0 } in
    let res = execute_stage p instruction x.reg1 x.reg2 x.imm x.new_pc p.res in
    let branch = branch_stage instruction x.reg1 x.reg2 in
    let r = resolve branch x.new_pc x.extend_pc s.btb in
    if instruction == nop
    then (bubble, s)
    else if x.data_stalled == 1
    then (bubble, s)
    else if s.m_reg.control_stalled == 1
    then (bubble, s)
    else if s.w_reg.stalled == 1
    then (bubble, s)
    else (
      record {
        instruction = instruction;
        res = res;
        reg2 = x.reg2;
        control_stalled = r.control_stalled;
        new_pc = r.new_pc;
      },
      record s { btb = r.btb },
    )

unfoldable pub stage_memory : Unspecified → StageRegW → Machine → StageRegW × Machine
stage_memory p new_w_reg s =
    let m = s.m_reg in
    let instruction = m.instruction in
    let opcode = get_opcode instruction in
    let w : StageRegW = record new_w_reg { new_pc = m.new_pc } in
    let bubble : StageRegW = record w { instruction = nop; stalled = 0 } in
    let (stalled, val, s') = memory_stage p instruction m.res m.reg2 s in
    if instruction == nop
    then (bubble, s)
    else if m.control_stalled == 1
    then (bubble, s)
    else if s.w_reg.stalled == 1
    then (bubble, s)
    else if stalled
    then (record w { instruction = nop; stalled = 1 }, s')
    else (
      record w {
        stalled = 0;
        memory = if opcode == load || opcode == save then m.res else w.memory;
        instruction = instruction;
        val = val;
      },
      s',
    )

unfoldable pub stage_writeback : Machine → Machine
stage_writeback s =
    let w = s.w_reg in
    if w.instruction == nop
    then s
    else if w.stalled == 1
    then s
    else write_back_stage w.instruction w.val s
