-- ===== src/Executor/ControlLaws.antt =====
-- Branch conditions against RV64I, upper immediates and links.
use risc5_simulator.Common.{ℕ, ◌^◌, ◌<◌, ◌≡◌, arith, Bool, false, ◌&&◌, not, ◌==◌}
use risc5_simulator.Common.Int.{ltb_ℤ, signed64, slt64-eq-ltb_ℤ}
use risc5_simulator.Utils.{get_opcode, get_funct3}
use risc5_simulator.Executor.Control.{exec_sb, beq, bne, blt, bge, bltu, bgeu}
use risc5_simulator.Isa.{BranchOp, taken, branch_funct3}

-- Whether the condition of a branch holds when its operands are equal and when the first is the
-- greater: where executor.c goes wrong.
abbrev misjudged : BranchOp → ℕ → ℕ → Bool
misjudged BranchOp.bge a b = ltb_ℤ (signed64 b) (signed64 a)
misjudged BranchOp.bgeu a b = a == b
misjudged _ a b = false

-- On two 64-bit operands `exec_sb` takes a branch exactly if the manual does, for all six
-- conditions, but for two classes of operands: `bge` is not taken where the first is greater as
-- signed, and `bgeu` is not taken where they are equal.
pub exec_sb-taken :
    (op : BranchOp) (i a b : ℕ)
    → get_opcode i ≡ 0x63
    → get_funct3 i ≡ branch_funct3 op
    → a < 2 ^ 64
    → b < 2 ^ 64
    → exec_sb i a b ≡ (taken op a b && not (misjudged op a b))
unfolding exec_sb beq bne blt bge bltu bgeu
exec_sb-taken BranchOp.beq i a b o f ha hb = ground arith
exec_sb-taken BranchOp.bne i a b o f ha hb = ground arith
exec_sb-taken BranchOp.blt i a b o f ha hb = ground (arith, slt64-eq-ltb_ℤ a b)
exec_sb-taken BranchOp.bge i a b o f ha hb = ground arith
exec_sb-taken BranchOp.bltu i a b o f ha hb = ground arith
exec_sb-taken BranchOp.bgeu i a b o f ha hb = ground arith
