-- ===== src/Executor/Control.antt =====
-- The SB, U and UJ formats: branch conditions, upper immediates and the link address of a jump.
use risc5_simulator.Common.{ℕ, ◌+◌, Bool, false, u64, slt64, ltb, ◌==◌, ◌!=◌, if◌then◌else◌}
use risc5_simulator.Utils.{get_opcode, get_funct3}

unfoldable pub beq : ℕ → ℕ → Bool
beq reg1 reg2 = reg1 == reg2

unfoldable pub bne : ℕ → ℕ → Bool
bne reg1 reg2 = reg1 != reg2

-- The source compares with `==`.
unfoldable pub bge : ℕ → ℕ → Bool
bge reg1 reg2 = reg1 == reg2

-- The source compares with `>`.
unfoldable pub bgeu : ℕ → ℕ → Bool
bgeu reg1 reg2 = ltb reg2 reg1

unfoldable pub blt : ℕ → ℕ → Bool
blt reg1 reg2 = slt64 reg1 reg2

unfoldable pub bltu : ℕ → ℕ → Bool
bltu reg1 reg2 = ltb reg1 reg2

unfoldable pub exec_sb : ℕ → ℕ → ℕ → Bool
exec_sb instruction reg1 reg2 =
    let opcode = get_opcode instruction in
    let funct3 = get_funct3 instruction in
    if opcode == 0x63
    then (if funct3 == 0
        then beq reg1 reg2
        else if funct3 == 1
        then bne reg1 reg2
        else if funct3 == 4
        then blt reg1 reg2
        else if funct3 == 5
        then bge reg1 reg2
        else if funct3 == 6
        then bltu reg1 reg2
        else if funct3 == 7
        then bgeu reg1 reg2
        else false)
    else false

unfoldable pub auipc : ℕ → ℕ → ℕ
auipc imm pc = u64 (pc + imm)

unfoldable pub lui : ℕ → ℕ
lui imm = imm

unfoldable pub exec_u : ℕ → ℕ → ℕ → ℕ
exec_u instruction imm pc =
    let opcode = get_opcode instruction in
    if opcode == 0x17 then auipc imm pc else if opcode == 0x37 then lui imm else 0

unfoldable pub jal : ℕ → ℕ
jal pc = u64 (pc + 4)

unfoldable pub exec_uj : ℕ → ℕ → ℕ
exec_uj instruction pc = let opcode = get_opcode instruction in if opcode == 0x6f then jal pc else 0
