-- ===== src/Pipeline/Operands.antt =====
-- The operands of decode against execution in program order.
use risc5_simulator.Common.{
  ℕ, ◌≤◌, ◌<◌, ◌≡◌, refl, arith, Bool, true, false, ◌&&◌, ◌||◌, ◌==◌, if◌then◌else◌, Bool-cases,
  Option, some, inl, inr, ◌∙◌, ap,
}
use risc5_simulator.Utils.{get_opcode, get_rd, get_rs1, get_rs2, has_rs1, has_rs2, has_rd, get_bits}
use risc5_simulator.Utils.Fields.{get_rd_lem, get_rs1_lem, get_rs2_lem}
use risc5_simulator.Registers.{RegisterFile, register_read, register_read_one, register_write}
use risc5_simulator.Machine.{Machine}
use risc5_simulator.Stages.{Decoded, decode_stage, write_back_stage}
use risc5_simulator.Pipeline.{nop, operands, stage_writeback}
use risc5_simulator.Pipeline.Forwarding.{writes, reads_some, chosen, operands_lem}

-- The register file after an instruction has written back `v`.
abbrev pub written : ℕ → ℕ → RegisterFile → RegisterFile
written i v f = if has_rd (get_opcode i) then register_write f (get_rd i) v else f

-- Register `r` after the instruction in W and then the one in M have written back.
abbrev pub in_order : Machine → ℕ → ℕ
in_order s r =
    register_read_one
      (written s.m_reg.instruction s.m_reg.res
        (written s.w_reg.instruction s.w_reg.val s.registers))
      r

pub nop-writes : has_rd (get_opcode 0) ≡ false
unfolding has_rd get_opcode get_bits
nop-writes = refl

pub written-nop : (i v : ℕ) (f : RegisterFile) → (i == nop) ≡ true → written i v f ≡ f
written-nop i v f e = let z : i ≡ 0 = ground arith in rw (z, nop-writes)

-- What `stage_writeback` does where no data cache miss stalls it.
pub stage_writeback_lem :
    (s : Machine)
    → (s.w_reg.stalled == 1) ≡ false
    → stage_writeback s
      ≡ record s { registers = written s.w_reg.instruction s.w_reg.val s.registers }
unfolding stage_writeback write_back_stage
stage_writeback_lem s h = elim (Bool-cases (s.w_reg.instruction == nop)) [
  | inl e ↦ rw (e, written-nop s.w_reg.instruction s.w_reg.val s.registers e)
  | inr ne ↦
      rw (ne, h)
        (elim (Bool-cases (has_rd (get_opcode s.w_reg.instruction))) [
          | inl w ↦ rw w
          | inr n ↦ rw n
        ])
]

-- A register that at most one of the two instructions writes, and not register 0, has after
-- write-back and forwarding the value of program order.
chosen-in_order :
    (s : Machine) (r : ℕ)
    → r < 32
    → s.registers.register_cycle_writes ≤ 1
    → (writes s.m_reg.instruction r && writes s.w_reg.instruction r) ≡ false
    → (r == 0 && (writes s.m_reg.instruction r || writes s.w_reg.instruction r)) ≡ false
    → let t : Machine = record s {
      registers = written s.w_reg.instruction s.w_reg.val s.registers;
    } in
      chosen t r (register_read_one t.registers r) ≡ in_order s r
unfolding register_read_one register_write
chosen-in_order s r small few once nonzero =
    ground (arith, get_rd_lem s.m_reg.instruction, get_rd_lem s.w_reg.instruction)

-- What `decode_stage` reads: the register of each operand that the instruction has, else 0.
decoded_regs :
    (i pc e : ℕ) (s : Machine)
    → s.registers.register_cycle_reads ≤ 1
    → let d = decode_stage i pc e s in
      (d.reg1 ≡ (if has_rs1 (get_opcode i) then register_read_one s.registers (get_rs1 i) else 0))
      × (d.reg2 ≡ (if has_rs2 (get_opcode i) then register_read_one s.registers (get_rs2 i) else 0))
unfolding decode_stage register_read register_read_one
decoded_regs i pc e s few = ground arith

written-reads :
    (i v : ℕ) (f : RegisterFile)
    → f.register_cycle_reads ≤ 1
    → (written i v f).register_cycle_reads ≤ 1
unfolding register_write
written-reads i v f h = ground arith

-- Hazards that the forwarding does not handle: an operand in a register that the instructions in M
-- and W both write, and one in register 0 that either of them writes.
abbrev pub clash : Machine → ℕ → Bool
clash s i = reads_some i (λ r. writes s.m_reg.instruction r && writes s.w_reg.instruction r)

abbrev pub zero_hazard : Machine → ℕ → Bool
zero_hazard s i =
    reads_some i (λ r. r == 0 && (writes s.m_reg.instruction r || writes s.w_reg.instruction r))

-- One operand, which the instruction has or lacks.
operand-in_order :
    (s : Machine) (r o v : ℕ) (has : Bool)
    → r < 32
    → s.registers.register_cycle_writes ≤ 1
    → (has && (writes s.m_reg.instruction r && writes s.w_reg.instruction r)) ≡ false
    → (has && (r == 0 && (writes s.m_reg.instruction r || writes s.w_reg.instruction r))) ≡ false
    → let t : Machine = record s {
      registers = written s.w_reg.instruction s.w_reg.val s.registers;
    } in
      o ≡ (if has then chosen t r v else v)
      → v ≡ (if has then register_read_one t.registers r else 0)
      → o ≡ (if has then in_order s r else 0)
operand-in_order s r o v false small few once nonzero p q = p ∙ q
operand-in_order s r o v true small few once nonzero p q =
    p ∙ ap (chosen t r) q ∙ chosen-in_order s r small few once nonzero
  where
    t : Machine
    t = record s { registers = written s.w_reg.instruction s.w_reg.val s.registers }

pub or_false : (a b : Bool) → (a || b) ≡ false → (a ≡ false) × (b ≡ false)
or_false a b h = ground arith

-- The operands that decode takes after write-back: instruction `i` at `pc`.
abbrev pub decoded_operands : Machine → ℕ → ℕ → ℕ → Option (ℕ × ℕ)
decoded_operands s i pc e =
    let t = stage_writeback s in let d = decode_stage i pc e t in operands t i (d.reg1, d.reg2)

-- If no data cache miss stalls W, the register file has not run out of accesses for the cycle, no
-- operand stands in a register that both the instruction in M and the one in W write and none in
-- register 0 that either writes, then an instruction that does not stall leaves decode with the
-- operands of program order: those that the register file holds once W and M have written back.
pub operands_in_order :
    (s : Machine) (i pc e a b : ℕ)
    → (s.w_reg.stalled == 1) ≡ false
    → s.registers.register_cycle_reads ≤ 1
    → s.registers.register_cycle_writes ≤ 1
    → clash s i ≡ false
    → zero_hazard s i ≡ false
    → decoded_operands s i pc e ≡ some (a, b)
    → (a ≡ (if has_rs1 (get_opcode i) then in_order s (get_rs1 i) else 0))
      × (b ≡ (if has_rs2 (get_opcode i) then in_order s (get_rs2 i) else 0))
operands_in_order s i pc e a b ok reads few once nonzero h =
    let h' = rw (stage_writeback_lem s ok) at h in
    let regs =
      decoded_regs i pc e t (written-reads s.w_reg.instruction s.w_reg.val s.registers reads) in
    let taken = operands_lem t i d.reg1 d.reg2 a b h' in
    let once' = or_false _ _ once in
    let nonzero' = or_false _ _ nonzero in
    (
      operand-in_order s (get_rs1 i) a d.reg1 (has_rs1 (get_opcode i))
          (omega (arith, get_rs1_lem i)) few once'.0 nonzero'.0 taken.0 regs.0,
      operand-in_order s (get_rs2 i) b d.reg2 (has_rs2 (get_opcode i))
          (omega (arith, get_rs2_lem i)) few once'.1 nonzero'.1 taken.1 regs.1,
    )
  where
    t : Machine
    t = record s { registers = written s.w_reg.instruction s.w_reg.val s.registers }

    d : Decoded
    d = decode_stage i pc e t
