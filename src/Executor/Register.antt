-- ===== src/Executor/Register.antt =====
-- The R format: the operations of executor.c on two registers, and `exec_r`.
use risc5_simulator.Common.{
  ℕ, ◌+◌, bit_and, bit_or, bit_xor, u32, u64, sub32, sub64, slt64, ltb, ◌==◌, if◌then◌else◌,
  sign_extend,
}
use risc5_simulator.Platform.{Unspecified, shl64, shr64, sar64, shl32, shr32, sar32}
use risc5_simulator.Utils.{get_opcode, get_funct3, get_funct7}

unfoldable pub add : ℕ → ℕ → ℕ
add reg1 reg2 = u64 (reg1 + reg2)

unfoldable pub sub : ℕ → ℕ → ℕ
sub reg1 reg2 = sub64 reg1 reg2

unfoldable pub slt : ℕ → ℕ → ℕ
slt reg1 reg2 = if slt64 reg1 reg2 then 1 else 0

unfoldable pub sltu : ℕ → ℕ → ℕ
sltu reg1 reg2 = if ltb reg1 reg2 then 1 else 0

unfoldable pub xor : ℕ → ℕ → ℕ
xor reg1 reg2 = bit_xor reg1 reg2

unfoldable pub or : ℕ → ℕ → ℕ
or reg1 reg2 = bit_or reg1 reg2

unfoldable pub and : ℕ → ℕ → ℕ
and reg1 reg2 = bit_and reg1 reg2

unfoldable pub addw : ℕ → ℕ → ℕ
addw reg1 reg2 = let w1 = u32 reg1 in let w2 = u32 reg2 in u32 (w1 + w2)

unfoldable pub subw : ℕ → ℕ → ℕ
subw reg1 reg2 = let w1 = u32 reg1 in let w2 = u32 reg2 in sub32 w1 w2

module _ (p : Unspecified) where
  unfoldable pub sll : ℕ → ℕ → ℕ
  sll reg1 reg2 = shl64 p reg1 reg2

  unfoldable pub srl : ℕ → ℕ → ℕ
  srl reg1 reg2 = shr64 p reg1 reg2

  unfoldable pub sra : ℕ → ℕ → ℕ
  sra reg1 reg2 = sar64 p reg1 reg2

  unfoldable pub sllw : ℕ → ℕ → ℕ
  sllw reg1 reg2 = let w1 = u32 reg1 in let w2 = u32 reg2 in shl32 p w1 w2

  unfoldable pub srlw : ℕ → ℕ → ℕ
  srlw reg1 reg2 = let w1 = u32 reg1 in let w2 = u32 reg2 in shr32 p w1 w2

  -- The `int32_t` result is sign-extended by the cast to `uint64_t`.
  unfoldable pub sraw : ℕ → ℕ → ℕ
  sraw reg1 reg2 = let w1 = u32 reg1 in let w2 = u32 reg2 in sign_extend 32 (sar32 p w1 w2)

  -- The `switch (funct3)` of opcode 0x33 with `funct7 == 0x00`.
  switch_op : ℕ → ℕ → ℕ → ℕ
  switch_op funct3 reg1 reg2 =
      if funct3 == 0
      then add reg1 reg2
      else if funct3 == 1
      then sll reg1 reg2
      else if funct3 == 2
      then slt reg1 reg2
      else if funct3 == 3
      then sltu reg1 reg2
      else if funct3 == 4
      then xor reg1 reg2
      else if funct3 == 5
      then srl reg1 reg2
      else if funct3 == 6
      then or reg1 reg2
      else if funct3 == 7
      then and reg1 reg2
      else 0

  -- With `funct7 == 0x20`.
  switch_op_alt : ℕ → ℕ → ℕ → ℕ
  switch_op_alt funct3 reg1 reg2 =
      if funct3 == 0 then sub reg1 reg2 else if funct3 == 5 then sra reg1 reg2 else 0

  -- Opcode 0x3b with `funct7 == 0x00`.
  switch_op_32 : ℕ → ℕ → ℕ → ℕ
  switch_op_32 funct3 reg1 reg2 =
      if funct3 == 0
      then addw reg1 reg2
      else if funct3 == 1
      then sllw reg1 reg2
      else if funct3 == 5
      then srlw reg1 reg2
      else 0

  -- Opcode 0x3b with `funct7 == 0x20`: `case 0` calls `subw` and `case 5` calls `sraw`, which have
  -- no effect but their result, and both drop it and fall through to the `return 0` of `default`.
  switch_op_32_alt : ℕ → ℕ → ℕ → ℕ
  switch_op_32_alt funct3 reg1 reg2 =
      let default_case : ℕ = 0 in
      let case_5 = let dropped = sraw reg1 reg2 in default_case in
      let case_0 = let dropped = subw reg1 reg2 in case_5 in
      if funct3 == 0 then case_0 else if funct3 == 5 then case_5 else default_case

  unfoldable pub exec_r : ℕ → ℕ → ℕ → ℕ
  unfolding switch_op switch_op_alt switch_op_32 switch_op_32_alt
  exec_r instruction reg1 reg2 =
      let opcode = get_opcode instruction in
      let funct3 = get_funct3 instruction in
      let funct7 = get_funct7 instruction in
      if opcode == 0x33
      then (if funct7 == 0x00
          then switch_op funct3 reg1 reg2
          else if funct7 == 0x20
          then switch_op_alt funct3 reg1 reg2
          else 0)
      else if opcode == 0x3b
      then (if funct7 == 0x00
          then switch_op_32 funct3 reg1 reg2
          else if funct7 == 0x20
          then switch_op_32_alt funct3 reg1 reg2
          else 0)
      else 0
