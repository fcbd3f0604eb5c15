-- ===== src/Executor/ImmediateLaws.antt =====
-- `exec_i` against RV64I.
use risc5_simulator.Common.{
  ℕ, ◌%◌, ◌^◌, ◌≤◌, ◌<◌, ◌==◌, ◌≡◌, refl, arith, Bool, true, false, ltb, if◌then◌else◌, u64, inl,
  inr, Bool-cases,
}
use risc5_simulator.Common.Int.{slt64-eq-ltb_ℤ}
use risc5_simulator.Platform.{Unspecified}
use risc5_simulator.Platform.Shifts.{within, beyond}
use risc5_simulator.Utils.{
  get_opcode, get_funct3, get_funct7, get_imm, get_imm_i, sign_expand, is_i,
}
use risc5_simulator.Utils.Fields.{get_funct7_lem}
use risc5_simulator.Utils.Immediates.{get_imm_i_lem}
use risc5_simulator.Utils.SignExpand.{unsign_expand-sign_expand}
use risc5_simulator.Executor.Immediate.{exec_i, addi, slti, sltiu, xori, ori, andi, srli, srai}
use risc5_simulator.Isa.{AluOp, alu, funct3_of}

-- The operations of RV64I on a register and an immediate that `exec_i` computes by one of the ALU.
abbrev has_plain_immediate : AluOp → Bool
has_plain_immediate AluOp.add = true
has_plain_immediate AluOp.slt = true
has_plain_immediate AluOp.xor = true
has_plain_immediate AluOp.or = true
has_plain_immediate AluOp.and = true
has_plain_immediate _ = false

-- On a word with their opcode and function code, a 64-bit register and a 64-bit immediate, `addi`,
-- `slti`, `xori`, `ori` and `andi` compute what the manual says.
pub exec_i-alu :
    (p : Unspecified) (op : AluOp) (i a imm : ℕ)
    → has_plain_immediate op ≡ true
    → get_opcode i ≡ 0x13
    → get_funct3 i ≡ funct3_of op
    → a < 2 ^ 64
    → imm < 2 ^ 64
    → exec_i p i a imm ≡ alu op a imm
unfolding exec_i addi slti xori ori andi
exec_i-alu p AluOp.add i a imm h o f ha hi = ground arith
exec_i-alu p AluOp.slt i a imm h o f ha hi = ground (arith, slt64-eq-ltb_ℤ a imm)
exec_i-alu p AluOp.xor i a imm h o f ha hi = ground arith
exec_i-alu p AluOp.or i a imm h o f ha hi = ground arith
exec_i-alu p AluOp.and i a imm h o f ha hi = ground arith
exec_i-alu p _ i a imm h o f ha hi = cc

-- On a word with the codes of `sltiu` and an immediate that `sign_expand` has made of twelve bits,
-- `exec_i` compares the register with the twelve bits as they stand, not sign-extended.
pub exec_i-sltiu :
    (p : Unspecified) (i a x : ℕ)
    → get_opcode i ≡ 0x13
    → get_funct3 i ≡ 3
    → x < 2 ^ 12
    → exec_i p i a (sign_expand x 11) ≡ (if ltb a x then 1 else 0)
unfolding exec_i sltiu
exec_i-sltiu p i a x o f h = rw (o, f, unsign_expand-sign_expand x h) refl

-- On a word with the opcode of `slli` and its `funct3`, a 64-bit register and a 64-bit immediate,
-- `exec_i` gives what the manual says of `slti`: whether the register is less than the immediate.
pub exec_i-slli :
    (p : Unspecified) (i a imm : ℕ)
    → get_opcode i ≡ 0x13
    → get_funct3 i ≡ 1
    → a < 2 ^ 64
    → imm < 2 ^ 64
    → exec_i p i a imm ≡ alu AluOp.slt a imm
unfolding exec_i slti
exec_i-slli p i a imm o f ha hi = ground (arith, slt64-eq-ltb_ℤ a imm)

srai_far : (p : Unspecified) (a k : ℕ) → 64 ≤ k → srai p a k ≡ u64 (p.oversized a k)
unfolding srai
srai_far p a k h = beyond (ltb k 64) _ _ (ground arith)

srli_near : (p : Unspecified) (a k : ℕ) → k < 64 → srli p a k ≡ alu AluOp.srl a k
unfolding srli
srli_near p a k h =
    let near : ltb k 64 ≡ true = ground arith in
    let distance : k % 64 ≡ k = omega arith in rw distance (within (ltb k 64) _ _ near)

-- What a shift to the right of `a` by the immediate of word `i` comes to.
pub data ShiftedRight (p : Unspecified) (i a r : ℕ) : Type 0 where
  logical : get_funct7 i ≡ 0 → r ≡ alu AluOp.srl a (get_imm i) → ShiftedRight p i a r
  arithmetic :
      get_funct7 i ≡ 0x20
      → 64 ≤ get_imm i
      → r ≡ u64 (p.oversized a (get_imm i))
      → ShiftedRight p i a r
  neither :
      (get_funct7 i == 0) ≡ false → (get_funct7 i == 0x20) ≡ false → r ≡ 0 → ShiftedRight p i a r

imm_near : (i : ℕ) → i < 2 ^ 32 → get_funct7 i ≡ 0 → get_imm_i i < 64
imm_near i h g = ground (arith, get_imm_i_lem i h, get_funct7_lem i)

imm_far : (i : ℕ) → i < 2 ^ 32 → get_funct7 i ≡ 0x20 → 64 ≤ get_imm_i i
imm_far i h g =
    let far : 1024 ≤ get_imm_i i = ground (arith, get_imm_i_lem i h, get_funct7_lem i) in
    omega arith

-- For every 32-bit word with the opcode and the `funct3` of `srli` and `srai`, and the immediate
-- that `get_imm` reads from it: if `funct7` is 0, `exec_i` gives what the manual says of `srli`; if
-- it is 0x20, the immediate is 64 or more, and `exec_i` gives what the platform makes of a shift by
-- that much; for any other `funct7`, those of the shifts by 32 to 63 among them, it gives 0.
pub exec_i_shift_right :
    (p : Unspecified) (i a : ℕ)
    → i < 2 ^ 32
    → get_opcode i ≡ 0x13
    → get_funct3 i ≡ 5
    → ShiftedRight p i a (exec_i p i a (get_imm i))
unfolding exec_i get_imm is_i
exec_i_shift_right p i a h o f = elim (Bool-cases (get_funct7 i == 0)) [
  | inl e ↦
      let g : get_funct7 i ≡ 0 = ground arith in
      ShiftedRight.logical g (rw (o, f, g) (srli_near p a (get_imm_i i) (imm_near i h g)))
  | inr e ↦ elim (Bool-cases (get_funct7 i == 0x20)) [
    | inl e' ↦
        let g : get_funct7 i ≡ 0x20 = ground arith in
        let far = imm_far i h g in
        ShiftedRight.arithmetic g (rw o far) (rw (o, f, g) (srai_far p a (get_imm_i i) far))
    | inr e' ↦ ShiftedRight.neither e e' (rw (o, f, e, e') refl)
  ]
]
