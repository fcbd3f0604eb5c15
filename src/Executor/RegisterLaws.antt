-- ===== src/Executor/RegisterLaws.antt =====
-- `exec_r` against RV64I.
use native.Mathlib.Nat.{div-le_self}
use risc5_simulator.Common.{
  Bool, sym, u32, ◌/◌, if◌then◌else◌, ℕ, ◌%◌, ◌^◌, ◌<◌, ◌≡◌, ◌∙◌, arith, ltb→lt, true, false, ◌&&◌,
  not, ltb, sign_extend,
}
use risc5_simulator.Common.Int.{slt64-eq-ltb_ℤ}
use risc5_simulator.Platform.{Unspecified}
use risc5_simulator.Platform.Shifts.{arithmetic_lem, within}
use risc5_simulator.Utils.{get_opcode, get_funct3, get_funct7}
use risc5_simulator.Executor.Register.{
  exec_r, add, sub, sll, slt, sltu, xor, srl, sra, or, and, addw, sllw, srlw,
}
use risc5_simulator.Isa.{
  AluOp, WordOp, alu, word_alu, word_funct3, word_funct7, word_shifts, funct3_of, funct7_of, shifts,
}

-- The fields that `exec_r` dispatches on.
abbrev HasFields : ℕ → ℕ → ℕ → ℕ → Type 0
HasFields i opcode funct3 funct7 =
    (get_opcode i ≡ opcode) × (get_funct3 i ≡ funct3) × (get_funct7 i ≡ funct7)

-- A shift by a distance below 64, as the manual states it.
module _ (p : Unspecified) (a b : ℕ) (near : ltb b 64 ≡ true) where
  distance : b % 64 ≡ b
  distance = ground arith

  sll_lem : sll p a b ≡ alu AluOp.sll a b
  unfolding sll
  sll_lem = rw distance (within (ltb b 64) _ _ near)

  srl_lem : srl p a b ≡ alu AluOp.srl a b
  unfolding srl
  srl_lem = rw distance (within (ltb b 64) _ _ near)

  sra_lem : a < 2 ^ 64 → sra p a b ≡ alu AluOp.sra a b
  unfolding sra
  sra_lem h = rw distance (within (ltb b 64) _ _ near ∙ arithmetic_lem a b h (ltb→lt b 64 near))

near : (b : ℕ) → not (ltb b 64) ≡ false → ltb b 64 ≡ true
near b d = ground arith

-- For each of the ten register operations of RV64I, `exec_r` on a word with its opcode and
-- function codes and two 64-bit operands computes what the manual says, if a shift has a distance
-- below 64.
pub exec_r-alu :
    (p : Unspecified) (op : AluOp) (i a b : ℕ)
    → HasFields i 0x33 (funct3_of op) (funct7_of op)
    → a < 2 ^ 64
    → b < 2 ^ 64
    → (shifts op && not (ltb b 64)) ≡ false
    → exec_r p i a b ≡ alu op a b
unfolding exec_r add sub slt sltu xor or and
exec_r-alu p AluOp.add i a b f ha hb d = ground arith
exec_r-alu p AluOp.sub i a b f ha hb d = ground arith
exec_r-alu p AluOp.sll i a b f ha hb d = rw (f.0, f.1, f.2) (sll_lem p a b (near b d))
exec_r-alu p AluOp.slt i a b f ha hb d = ground (arith, slt64-eq-ltb_ℤ a b)
exec_r-alu p AluOp.sltu i a b f ha hb d = ground arith
exec_r-alu p AluOp.xor i a b f ha hb d = ground arith
exec_r-alu p AluOp.srl i a b f ha hb d = rw (f.0, f.1, f.2) (srl_lem p a b (near b d))
exec_r-alu p AluOp.sra i a b f ha hb d = rw (f.0, f.1, f.2) (sra_lem p a b (near b d) ha)
exec_r-alu p AluOp.or i a b f ha hb d = ground arith
exec_r-alu p AluOp.and i a b f ha hb d = ground arith

-- The word operations whose results `exec_r` drops.
abbrev is_dropped : WordOp → Bool
is_dropped WordOp.subw = true
is_dropped WordOp.sraw = true
is_dropped _ = false

-- A shift of a word by a distance below 32.
module _ (p : Unspecified) (a b : ℕ) (near : u32 b < 32) where
  word_distance : b % 32 ≡ u32 b
  word_distance = omega (arith, near)

  low_word : sign_extend 32 (u32 a / 2 ^ u32 b) % 2 ^ 32 ≡ u32 a / 2 ^ u32 b
  low_word = ground (arith, div-le_self (u32 a) (2 ^ u32 b))

  sllw_lem : sllw p a b ≡ word_alu WordOp.sllw a b % 2 ^ 32
  unfolding sllw
  sllw_lem = within (ltb (u32 b) 32) _ _ (ground (arith, near)) ∙ rw word_distance (ground arith)

  srlw_lem : srlw p a b ≡ word_alu WordOp.srlw a b % 2 ^ 32
  unfolding srlw
  srlw_lem = within (ltb (u32 b) 32) _ _ (ground (arith, near)) ∙ rw word_distance (sym low_word)

-- For the five word operations of RV64I, `exec_r` gives the low 32 bits of what the manual says, with
-- zeros above them where the manual extends the sign, if a shift has a distance below 32 in the low
-- word of its register; for `subw` and `sraw`, whose results are dropped, it gives 0.
pub exec_r-word :
    (p : Unspecified) (op : WordOp) (i a b : ℕ)
    → HasFields i 0x3b (word_funct3 op) (word_funct7 op)
    → (word_shifts op && not (ltb (u32 b) 32)) ≡ false
    → exec_r p i a b ≡ (if is_dropped op then 0 else word_alu op a b % 2 ^ 32)
unfolding exec_r addw
exec_r-word p WordOp.addw i a b f d = ground arith
exec_r-word p WordOp.subw i a b f d = ground arith
exec_r-word p WordOp.sllw i a b f d = rw (f.0, f.1, f.2) (sllw_lem p a b (ground (arith, d)))
exec_r-word p WordOp.srlw i a b f d = rw (f.0, f.1, f.2) (srlw_lem p a b (ground (arith, d)))
exec_r-word p WordOp.sraw i a b f d = ground arith
