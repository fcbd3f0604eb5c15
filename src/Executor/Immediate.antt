-- ===== src/Executor/Immediate.antt =====
-- The I and S formats: the operations of executor.c on a register and an immediate, `exec_i` and
-- `exec_s`.
use risc5_simulator.Common.{
  ℕ, ◌+◌, bit_and, bit_or, bit_xor, u32, u64, slt64, ltb, ◌==◌, if◌then◌else◌, sign_extend,
}
use risc5_simulator.Platform.{Unspecified, shl64, shr64, sar64, shl32, shr32, sar32}
use risc5_simulator.Utils.{get_opcode, get_funct3, get_funct7, unsign_expand, load}

-- The address of a load.
unfoldable pub lx : ℕ → ℕ → ℕ
lx reg1 imm = u64 (reg1 + imm)

unfoldable pub addi : ℕ → ℕ → ℕ
addi reg1 imm = u64 (reg1 + imm)

unfoldable pub slti : ℕ → ℕ → ℕ
slti reg1 imm = if slt64 reg1 imm then 1 else 0

unfoldable pub sltiu : ℕ → ℕ → ℕ
sltiu reg1 imm = if ltb reg1 (unsign_expand imm 11) then 1 else 0

unfoldable pub xori : ℕ → ℕ → ℕ
xori reg1 imm = bit_xor reg1 imm

unfoldable pub ori : ℕ → ℕ → ℕ
ori reg1 imm = bit_or reg1 imm

unfoldable pub andi : ℕ → ℕ → ℕ
andi reg1 imm = bit_and reg1 imm

-- Defined in the source, and called from nowhere.
unfoldable addiw : ℕ → ℕ → ℕ
addiw reg1 imm = let w1 = u32 reg1 in let w2 = u32 imm in u32 (w1 + w2)

unfoldable pub jalr : ℕ → ℕ
jalr pc = u64 (pc + 4)

-- `csrrw`, `csrrs`, `csrrc`, `csrrwi`, `csrrsi` and `csrrci` have one body.
csrrx : ℕ → ℕ → ℕ
csrrx reg1 imm = 0

module _ (p : Unspecified) where
  unfoldable pub slli : ℕ → ℕ → ℕ
  slli reg1 imm = shl64 p reg1 imm

  unfoldable pub srli : ℕ → ℕ → ℕ
  srli reg1 imm = shr64 p reg1 imm

  unfoldable pub srai : ℕ → ℕ → ℕ
  srai reg1 imm = sar64 p reg1 imm

  unfoldable pub slliw : ℕ → ℕ → ℕ
  slliw reg1 imm = let w1 = u32 reg1 in let w2 = u32 imm in shl32 p w1 w2

  unfoldable pub srliw : ℕ → ℕ → ℕ
  srliw reg1 imm = let w1 = u32 reg1 in let w2 = u32 imm in shr32 p w1 w2

  unfoldable pub sraiw : ℕ → ℕ → ℕ
  sraiw reg1 imm = let w1 = u32 reg1 in let w2 = u32 imm in sign_extend 32 (sar32 p w1 w2)

  -- The `switch (funct3)` of opcode 0x13. `case 1` calls `slli` where `funct7` is 0, drops the
  -- result, and falls through to `case 2`.
  switch_op_imm : ℕ → ℕ → ℕ → ℕ → ℕ
  switch_op_imm instruction funct3 reg1 imm =
      let funct7 = get_funct7 instruction in
      let case_2 = slti reg1 imm in
      let case_1 = let dropped = slli reg1 imm in case_2 in
      if funct3 == 0
      then addi reg1 imm
      else if funct3 == 1
      then case_1
      else if funct3 == 2
      then case_2
      else if funct3 == 3
      then sltiu reg1 imm
      else if funct3 == 4
      then xori reg1 imm
      else if funct3 == 5
      then (if funct7 == 0x00 then srli reg1 imm else if funct7 == 0x20 then srai reg1 imm else 0)
      else if funct3 == 6
      then ori reg1 imm
      else if funct3 == 7
      then andi reg1 imm
      else 0

  -- Opcode 0x1b.
  switch_op_imm_32 : ℕ → ℕ → ℕ → ℕ → ℕ
  switch_op_imm_32 instruction funct3 reg1 imm =
      let funct7 = get_funct7 instruction in
      if funct3 == 1
      then (if funct7 == 0 then slliw reg1 imm else 0)
      else if funct3 == 5
      then (if funct7 == 0x00 then srliw reg1 imm else if funct7 == 0x20 then sraiw reg1 imm else 0)
      else 0

  -- Opcode 0x73; `case 0` is `ecall` and `ebreak`.
  switch_system : ℕ → ℕ → ℕ → ℕ
  unfolding csrrx
  switch_system funct3 reg1 imm =
      if funct3 == 0
      then 0
      else if funct3 == 1
      then csrrx reg1 imm
      else if funct3 == 2
      then csrrx reg1 imm
      else if funct3 == 3
      then csrrx reg1 imm
      else if funct3 == 5
      then csrrx reg1 imm
      else if funct3 == 6
      then csrrx reg1 imm
      else if funct3 == 7
      then csrrx reg1 imm
      else 0

  unfoldable pub exec_i : ℕ → ℕ → ℕ → ℕ
  unfolding switch_op_imm switch_op_imm_32 switch_system
  exec_i instruction reg1 imm =
      let opcode = get_opcode instruction in
      let funct3 = get_funct3 instruction in
      if opcode == load
      then lx reg1 imm
      else if opcode == 0x13
      then switch_op_imm instruction funct3 reg1 imm
      else if opcode == 0x1b
      then switch_op_imm_32 instruction funct3 reg1 imm
      else if opcode == 0x73
      then switch_system funct3 reg1 imm
      else 0

-- The address of a store.
unfoldable pub sx : ℕ → ℕ → ℕ
sx reg1 imm = u64 (reg1 + imm)

unfoldable pub exec_s : ℕ → ℕ → ℕ → ℕ → ℕ
exec_s instruction reg1 reg2 imm =
    let opcode = get_opcode instruction in if opcode == 0x23 then sx reg1 imm else 0
