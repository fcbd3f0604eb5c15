-- ===== src/Isa.antt =====
-- RV64I as the RISC-V manual states it, for the instructions that executor.c computes: the
-- reference that its functions are compared with.
use risc5_simulator.Common.{
  ℕ, ◌+◌, ◌-◌, ◌*◌, ◌/◌, ◌%◌, ◌^◌, Bool, true, false, not, ltb, ◌==◌, if◌then◌else◌, bit_and,
  bit_or, bit_xor, sign_extend,
}
use risc5_simulator.Common.Int.{ltb_ℤ, signed64}

pub data AluOp : Type 0 where
  add sub sll slt sltu xor srl sra or and : AluOp

pub data BranchOp : Type 0 where
  beq bne blt bge bltu bgeu : BranchOp

abbrev pub funct3_of : AluOp → ℕ
funct3_of AluOp.add = 0
funct3_of AluOp.sub = 0
funct3_of AluOp.sll = 1
funct3_of AluOp.slt = 2
funct3_of AluOp.sltu = 3
funct3_of AluOp.xor = 4
funct3_of AluOp.srl = 5
funct3_of AluOp.sra = 5
funct3_of AluOp.or = 6
funct3_of AluOp.and = 7

abbrev pub funct7_of : AluOp → ℕ
funct7_of AluOp.sub = 0x20
funct7_of AluOp.sra = 0x20
funct7_of _ = 0

abbrev pub branch_funct3 : BranchOp → ℕ
branch_funct3 BranchOp.beq = 0
branch_funct3 BranchOp.bne = 1
branch_funct3 BranchOp.blt = 4
branch_funct3 BranchOp.bge = 5
branch_funct3 BranchOp.bltu = 6
branch_funct3 BranchOp.bgeu = 7

-- A shift takes its distance from the low six bits, and `sra` reads what it keeps as signed.
abbrev pub alu : AluOp → ℕ → ℕ → ℕ
alu AluOp.add a b = (a + b) % 2 ^ 64
alu AluOp.sub a b = (a + (2 ^ 64 - b)) % 2 ^ 64
alu AluOp.sll a b = a * 2 ^ (b % 64) % 2 ^ 64
alu AluOp.slt a b = if ltb_ℤ (signed64 a) (signed64 b) then 1 else 0
alu AluOp.sltu a b = if ltb a b then 1 else 0
alu AluOp.xor a b = bit_xor a b
alu AluOp.srl a b = a / 2 ^ (b % 64)
alu AluOp.sra a b = sign_extend (64 - b % 64) (a / 2 ^ (b % 64))
alu AluOp.or a b = bit_or a b
alu AluOp.and a b = bit_and a b

-- The operations on the low words of the operands, which extend the sign of a 32-bit result.
pub data WordOp : Type 0 where
  addw subw sllw srlw sraw : WordOp

abbrev pub word_funct3 : WordOp → ℕ
word_funct3 WordOp.addw = 0
word_funct3 WordOp.subw = 0
word_funct3 WordOp.sllw = 1
word_funct3 WordOp.srlw = 5
word_funct3 WordOp.sraw = 5

abbrev pub word_funct7 : WordOp → ℕ
word_funct7 WordOp.subw = 0x20
word_funct7 WordOp.sraw = 0x20
word_funct7 _ = 0

abbrev pub word_alu : WordOp → ℕ → ℕ → ℕ
word_alu WordOp.addw a b = sign_extend 32 ((a + b) % 2 ^ 32)
word_alu WordOp.subw a b = sign_extend 32 ((a + (2 ^ 64 - b)) % 2 ^ 32)
word_alu WordOp.sllw a b = sign_extend 32 (a % 2 ^ 32 * 2 ^ (b % 32) % 2 ^ 32)
word_alu WordOp.srlw a b = sign_extend 32 (a % 2 ^ 32 / 2 ^ (b % 32))
word_alu WordOp.sraw a b = sign_extend (32 - b % 32) (a % 2 ^ 32 / 2 ^ (b % 32))

abbrev pub word_shifts : WordOp → Bool
word_shifts WordOp.addw = false
word_shifts WordOp.subw = false
word_shifts _ = true

-- Whether an operation shifts.
abbrev pub shifts : AluOp → Bool
shifts AluOp.sll = true
shifts AluOp.srl = true
shifts AluOp.sra = true
shifts _ = false

-- The condition of a branch on two registers.
abbrev pub taken : BranchOp → ℕ → ℕ → Bool
taken BranchOp.beq a b = a == b
taken BranchOp.bne a b = not (a == b)
taken BranchOp.blt a b = ltb_ℤ (signed64 a) (signed64 b)
taken BranchOp.bge a b = not (ltb_ℤ (signed64 a) (signed64 b))
taken BranchOp.bltu a b = ltb a b
taken BranchOp.bgeu a b = not (ltb a b)

pub data LoadOp : Type 0 where
  lb lh lw ld lbu lhu lwu : LoadOp

abbrev pub load_funct3 : LoadOp → ℕ
load_funct3 LoadOp.lb = 0
load_funct3 LoadOp.lh = 1
load_funct3 LoadOp.lw = 2
load_funct3 LoadOp.ld = 3
load_funct3 LoadOp.lbu = 4
load_funct3 LoadOp.lhu = 5
load_funct3 LoadOp.lwu = 6

-- What a load gives, of the eight bytes of memory from its address on, lowest first.
abbrev pub loaded : LoadOp → ℕ → ℕ
loaded LoadOp.lb x = sign_extend 8 (x % 2 ^ 8)
loaded LoadOp.lh x = sign_extend 16 (x % 2 ^ 16)
loaded LoadOp.lw x = sign_extend 32 (x % 2 ^ 32)
loaded LoadOp.ld x = x
loaded LoadOp.lbu x = x % 2 ^ 8
loaded LoadOp.lhu x = x % 2 ^ 16
loaded LoadOp.lwu x = x % 2 ^ 32

pub data StoreOp : Type 0 where
  sb sh sw sd : StoreOp

abbrev pub store_funct3 : StoreOp → ℕ
store_funct3 StoreOp.sb = 0
store_funct3 StoreOp.sh = 1
store_funct3 StoreOp.sw = 2
store_funct3 StoreOp.sd = 3

-- The bytes that a store writes.
abbrev pub store_size : StoreOp → ℕ
store_size StoreOp.sb = 1
store_size StoreOp.sh = 2
store_size StoreOp.sw = 4
store_size StoreOp.sd = 8
