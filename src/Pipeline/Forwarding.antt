-- ===== src/Pipeline/Forwarding.antt =====
-- The hazard logic of `stage_decode`: when an instruction stalls, and which operands it takes.
use risc5_simulator.Common.{
  ℕ, ◌≡◌, ◌↔◌, arith, Bool, true, ◌&&◌, ◌||◌, ◌==◌, if◌then◌else◌, none, some,
}
use risc5_simulator.Utils.{load, get_opcode, get_rd, get_rs1, get_rs2, has_rs1, has_rs2, has_rd}
use risc5_simulator.Machine.{Machine}
use risc5_simulator.Pipeline.{stalls_on_x, forward_m, forward_w, operands}

-- Whether an instruction writes register `r`, and whether it is a load that does.
abbrev pub writes : ℕ → ℕ → Bool
writes instruction r = has_rd (get_opcode instruction) && get_rd instruction == r

abbrev pub loads : ℕ → ℕ → Bool
loads instruction r = writes instruction r && get_opcode instruction == load

-- Whether an instruction reads a register of which `p` holds.
abbrev pub reads_some : ℕ → (ℕ → Bool) → Bool
reads_some i p =
    (has_rs1 (get_opcode i) && p (get_rs1 i)) || (has_rs2 (get_opcode i) && p (get_rs2 i))

-- An instruction stalls in decode exactly if it reads a register that the instruction in X writes,
-- or one that the instruction in M loads.
pub operands_stall_iff :
    (s : Machine) (i a b : ℕ)
    → (operands s i (a, b) ≡ none) ↔ (
        (reads_some i (writes s.x_reg.instruction) || reads_some i (loads s.m_reg.instruction))
        ≡ true)
unfolding operands stalls_on_x forward_m
operands_stall_iff s i a b = ground arith

-- The value that one operand gets: the oldest of the instructions in M and W that writes its
-- register wins, and without one it is what the register file gave.
abbrev pub chosen : Machine → ℕ → ℕ → ℕ
chosen s r v =
    if writes s.w_reg.instruction r
    then s.w_reg.val
    else if writes s.m_reg.instruction r
    then s.m_reg.res
    else v

-- An instruction that does not stall takes for each operand that it has the value of the
-- instruction in W if that writes the register, else the result of the one in M if that writes it,
-- else what was read from the register file.
pub operands_lem :
    (s : Machine) (i a b a' b' : ℕ)
    → operands s i (a, b) ≡ some (a', b')
    → (a' ≡ (if has_rs1 (get_opcode i) then chosen s (get_rs1 i) a else a))
      × (b' ≡ (if has_rs2 (get_opcode i) then chosen s (get_rs2 i) b else b))
unfolding operands stalls_on_x forward_m forward_w
operands_lem s i a b a' b' h = ground arith
