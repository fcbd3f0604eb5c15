-- ===== src/Straight/Issue.antt =====
-- The operands with which decode lets a plain instruction go.
use risc5_simulator.Common.{
  ℕ, ◌<◌, Bool, true, false, ◌&&◌, ◌||◌, ◌==◌, ◌≡◌, refl, sym, ap, ap₂, ◌∙◌, arith, if◌then◌else◌,
  inl, inr, Bool-cases, none, some,
}
use risc5_simulator.Platform.{Unspecified}
use risc5_simulator.Memory.{stage_d_bit, stage_w_bit}
use risc5_simulator.Utils.{get_opcode, get_rd, get_rs1, get_rs2, has_rs1, has_rs2}
use risc5_simulator.Utils.Fields.{get_rs1_lem, get_rs2_lem, get_rd_lem}
use risc5_simulator.Registers.{
  RegisterFile, register_read_one, register_write, register_reset_cycle,
}
use risc5_simulator.Machine.{Machine}
use risc5_simulator.Stages.{decode_stage}
use risc5_simulator.Pipeline.{nop, operands}
use risc5_simulator.Pipeline.Operands.{written, or_false, nop-writes, operands_in_order, in_order}
use risc5_simulator.Pipeline.Forwarding.{writes, loads, reads_some, operands_stall_iff}
use risc5_simulator.Simulator.{enter_stage}
use risc5_simulator.Straight.{plain, Straight, InFlight, arch_operand, arch_registers, result}
use risc5_simulator.Straight.Stages.{Slot, plain_opcode, unset}
use risc5_simulator.Straight.Cycle.{written_back, after_w_lem}

-- A bubble writes no register, a plain instruction not register 0.
writes_zero : (i : ℕ) → Slot i → writes i 0 ≡ false
writes_zero i (inl e) = rw (e, nop-writes) refl
writes_zero i (inr h) = let (_, _, _, nz) = plain_opcode i h in ground arith

writes-nop : (i r : ℕ) → i ≡ nop → writes i r ≡ false
writes-nop i r e = rw (e, nop-writes) refl

-- A register that an instruction does not write keeps its value.
written_other :
    (i v r : ℕ) (f : RegisterFile)
    → r < 32
    → writes i r ≡ false
    → register_read_one (written i v f) r ≡ register_read_one f r
unfolding register_read_one register_write
written_other i v r f h n = ground (arith, get_rd_lem i)

reads_none : (i : ℕ) (q : ℕ → Bool) → ((r : ℕ) → q r ≡ false) → reads_some i q ≡ false
reads_none i q h = ground (arith, h (get_rs1 i), h (get_rs2 i))

-- The machine in write-back.
abbrev in_wb : Machine → Machine
in_wb s = enter_stage stage_w_bit (record s { registers = register_reset_cycle s.registers })

no_load : (i r : ℕ) → Slot i → loads i r ≡ false
no_load i r (inl e) = rw (e, nop-writes) refl
no_load i r (inr h) = let (_, ld, _, _) = plain_opcode i h in ground (arith, ld)

module _ (code : ℕ → ℕ) (straight : Straight code) (s : Machine) (h : InFlight code s) where
  no_clash : (r : ℕ) → (writes s.m_reg.instruction r && writes s.w_reg.instruction r) ≡ false
  no_clash r = elim (h.in_m) [
    | inl e ↦ ground (arith, writes-nop s.m_reg.instruction r e)
    | inr (em, _) ↦ elim (h.in_w) [
      | inl e ↦ ground (arith, writes-nop s.w_reg.instruction r e)
      | inr (ew, next) ↦ elim next [
        | inl e ↦ ground (arith, writes-nop s.m_reg.instruction r e)
        | inr at ↦
            let apart : (get_rd s.w_reg.instruction == get_rd s.m_reg.instruction) ≡ false =
              ap₂ (λ (i j : ℕ). get_rd i == get_rd j) ew (em ∙ ap code at)
              ∙ (straight s.w_reg.new_pc).1 in
            ground (arith, apart)
      ]
    ]
  ]

  m-Slot : Slot s.m_reg.instruction
  m-Slot = elim (h.in_m) [
    | inl e ↦ inl e
    | inr (e, _) ↦ inr (ap plain e ∙ (straight s.m_reg.new_pc).0)
  ]

  w-Slot : Slot s.w_reg.instruction
  w-Slot = elim (h.in_w) [
    | inl e ↦ inl e
    | inr (e, _) ↦ inr (ap plain e ∙ (straight s.w_reg.new_pc).0)
  ]

  no_zero :
      (r : ℕ) → (r == 0 && (writes s.m_reg.instruction r || writes s.w_reg.instruction r)) ≡ false
  no_zero r = elim (Bool-cases (r == 0)) [
    | inr e ↦ rw e refl
    | inl e ↦
        let z : r ≡ 0 = ground arith in
        rw z (
          ground
            (arith, writes_zero s.m_reg.instruction m-Slot, writes_zero s.w_reg.instruction w-Slot))
  ]

  issue_operand :
      (r : ℕ) (has : Bool)
      → r < 32
      → (has && writes s.x_reg.instruction r) ≡ false
      → (p : Unspecified)
      → arch_operand has r (arch_registers p s) ≡ (if has then in_order (in_wb s) r else 0)
  issue_operand r false small n p = refl
  issue_operand r true small n p =
      written_other s.x_reg.instruction (result p s.x_reg) r
        (written s.m_reg.instruction s.m_reg.res
          (written s.w_reg.instruction s.w_reg.val (register_reset_cycle s.registers)))
        small n

  not_read :
      (i a b : ℕ) (taken : ℕ × ℕ)
      → operands (enter_stage stage_d_bit (written_back s)) i (a, b) ≡ some taken
      → reads_some i (writes s.x_reg.instruction) ≡ false
  not_read i a b taken go = elim (Bool-cases (reads_some i (writes s.x_reg.instruction))) [
    | inr e ↦ e
    | inl e ↦
        let stalls =
          (operands_stall_iff (enter_stage stage_d_bit (written_back s)) i a b).1 (rw e refl) in
        ground (arith, sym stalls ∙ go)
  ]

  -- The operands of an instruction that does not stall are those that it has in program order.
  pub issue :
      (p : Unspecified) (i pc e a b : ℕ)
      → let d = decode_stage i pc e (enter_stage stage_d_bit (written_back s)) in
        operands (enter_stage stage_d_bit (written_back s)) i (d.reg1, d.reg2) ≡ some (a, b)
        → (a ≡ arch_operand (has_rs1 (get_opcode i)) (get_rs1 i) (arch_registers p s))
          × (b ≡ arch_operand (has_rs2 (get_opcode i)) (get_rs2 i) (arch_registers p s))
  unfolding operands decode_stage register_reset_cycle
  issue p i pc e a b go =
      let d = decode_stage i pc e (enter_stage stage_d_bit (written_back s)) in
      let free =
        or_false (has_rs1 (get_opcode i) && writes s.x_reg.instruction (get_rs1 i))
          (has_rs2 (get_opcode i) && writes s.x_reg.instruction (get_rs2 i))
          (not_read i d.reg1 d.reg2 (a, b) go) in
      let (ra, rb) =
        operands_in_order (in_wb s) i pc e a b (unset s.w_reg.stalled h.no_miss) (omega arith)
          (omega arith)
          (reads_none i (λ r. writes s.m_reg.instruction r && writes s.w_reg.instruction r)
            no_clash)
          (reads_none i
            (λ r. r == 0 && (writes s.m_reg.instruction r || writes s.w_reg.instruction r)) no_zero)
          (ap (λ (t : Machine). let d' = decode_stage i pc e t in operands t i (d'.reg1, d'.reg2))
              (after_w_lem s h.no_miss)
            ∙ go) in
      (
        ra
            ∙ sym (
                issue_operand (get_rs1 i) (has_rs1 (get_opcode i)) (omega (arith, get_rs1_lem i))
                  free.0 p),
        rb
            ∙ sym (
                issue_operand (get_rs2 i) (has_rs2 (get_opcode i)) (omega (arith, get_rs2_lem i))
                  free.1 p),
      )

  -- Only behind an instruction in X does a plain instruction stall.
  pub stalls_busy :
      (i a b : ℕ)
      → operands (enter_stage stage_d_bit (written_back s)) i (a, b) ≡ none
      → (s.x_reg.instruction == nop) ≡ false
  stalls_busy i a b stalls = elim (Bool-cases (s.x_reg.instruction == nop)) [
    | inr e ↦ e
    | inl e ↦
        let hazard =
          (operands_stall_iff (enter_stage stage_d_bit (written_back s)) i a b).0 stalls in
        let empty : s.x_reg.instruction ≡ nop = ground arith in
        ground (
          arith,
          hazard,
          reads_none i (writes s.x_reg.instruction) (λ r. writes-nop s.x_reg.instruction r empty),
          reads_none i (loads s.m_reg.instruction) (λ r. no_load s.m_reg.instruction r m-Slot),
        )
  ]
