-- ===== src/Straight/Decode.antt =====
-- What a cycle makes of the instruction in D, against the machine that executes in order.
use risc5_simulator.Common.{
  ℕ, ◌+◌, ◌<◌, not, ◌&&◌, true, false, ◌==◌, ◌≡◌, ◌⊎◌, refl, sym, ap, ap₂, ◌∙◌, arith,
  if◌then◌else◌, u64, inl, inr, Bool-cases, Option, none, some,
}
use risc5_simulator.Platform.{Unspecified}
use risc5_simulator.Memory.{stage_d_bit}
use risc5_simulator.Utils.{get_opcode, get_rs1, get_rs2, get_imm, has_rs1, has_rs2, has_imm}
use risc5_simulator.Registers.{RegisterFile}
use risc5_simulator.Machine.{Machine, StageRegD, StageRegX}
use risc5_simulator.Stages.{decode_stage, execute_stage}
use risc5_simulator.Pipeline.{nop, fetch_pc, operands}
use risc5_simulator.Pipeline.Fetch.{fetched}
use risc5_simulator.Pipeline.Operands.{written}
use risc5_simulator.Simulator.{Locals, enter_stage}
use risc5_simulator.Straight.{
  plain, Straight, InFlight, arch_pc, arch_registers, arch_step, arch_operand, arch, Arch, result,
}
use risc5_simulator.Straight.Stages.{plain_nonzero, unset}
use risc5_simulator.Straight.Cycle.{written_back, in_fetch, Fetches, Advance}
use risc5_simulator.Straight.Issue.{issue, stalls_busy}
use risc5_simulator.Straight.Stall.{decode_drops, decode_stalls, decode_issues}
use risc5_simulator.Straight.Next.{arch_registers_next, arch_pc_next, fetch_at}

-- A bound on the cycles before the next instruction goes to X, if the fetches hit.
abbrev pub wait : Machine → ℕ
wait s =
    if s.x_reg.data_stalled == 1
    then 2
    else if s.x_reg.instruction == nop && not (s.d_reg.instruction == nop)
    then 1
    else 3

-- How decode ends: the next instruction in order is kept, or it goes to X with its operands.
pub data Decoding (p : Unspecified) (code : ℕ → ℕ) (s t : Machine) : Type 0 where
  kept :
      t.x_reg.instruction ≡ nop
      → arch_pc t ≡ arch_pc s
      → ((fetched p (in_fetch s)).0 ≡ true → wait t < wait s)
      → Decoding p code s t
  issued :
      t.x_reg.instruction ≡ code (arch_pc s)
      → t.x_reg.new_pc ≡ arch_pc s
      → t.x_reg.data_stalled ≡ 0
      → arch_pc t ≡ u64 (arch_pc s + 4)
      → arch p t ≡ arch_step p code (arch p s)
      → Decoding p code s t

module _ (p : Unspecified) (l : Locals) (code : ℕ → ℕ) (straight : Straight code) (s t : Machine)
    (h : InFlight code s) (f : Fetches p code s) (adv : Advance p l s t) where
  dropped :
      (s.d_reg.instruction ≡ nop) ⊎ (s.x_reg.data_stalled ≡ 1)
      → fetch_pc (in_fetch s) ≡ arch_pc s
      → 1 < wait s
      → Decoding p code s t
  dropped why at late =
      let x =
        adv.x_register
        ∙ decode_drops p l.new_x_reg (enter_stage stage_d_bit (written_back s)) why in
      Decoding.kept (ap (λ (q : StageRegX). q.instruction) x)
        (arch_pc_next p l code straight s t h f adv
            (unset t.x_reg.data_stalled (ap (λ (q : StageRegX). q.data_stalled) x))
          ∙ at)
        (λ e. omega (arith, late, soon x e))
    where
      d_full : (fetched p (in_fetch s)).0 ≡ true → (t.d_reg.instruction == nop) ≡ false
      d_full e =
          let word : t.d_reg.instruction ≡ code (fetch_pc (in_fetch s)) =
            ap (λ (q : StageRegD). q.instruction) adv.d_register ∙ rw e (f.0 e) in
          plain_nonzero t.d_reg.instruction (ap plain word ∙ (straight (fetch_pc (in_fetch s))).0)

      soon :
          t.x_reg
            ≡ record (l.new_x_reg) { new_pc = s.d_reg.new_pc; instruction = nop; data_stalled = 0 }
          → (fetched p (in_fetch s)).0 ≡ true
          → wait t ≡ 1
      soon x e =
          let go : (t.x_reg.data_stalled == 1) ≡ false =
            ap (λ (q : StageRegX). q.data_stalled == 1) x in
          let empty : (t.x_reg.instruction == nop) ≡ true =
            ap (λ (q : StageRegX). q.instruction == nop) x in
          rw (go, empty, d_full e) refl

  arch_pc_d :
      s.d_reg.instruction ≡ code s.d_reg.new_pc
      → (s.x_reg.data_stalled == 1) ≡ false
      → arch_pc s ≡ s.d_reg.new_pc
  arch_pc_d e go =
      rw (go, plain_nonzero s.d_reg.instruction (ap plain e ∙ (straight s.d_reg.new_pc).0)) refl

  held :
      s.d_reg.instruction ≡ code s.d_reg.new_pc
      → (s.x_reg.data_stalled == 1) ≡ false
      → t.x_reg
        ≡ record (l.new_x_reg) { new_pc = s.d_reg.new_pc; instruction = nop; data_stalled = 1 }
      → (s.x_reg.instruction == nop) ≡ false
      → Decoding p code s t
  held e go x busy =
      let stalled : (t.x_reg.data_stalled == 1) ≡ true =
        ap (λ (q : StageRegX). q.data_stalled == 1) x in
      Decoding.kept (ap (λ (q : StageRegX). q.instruction) x)
        (rw stalled (ap (λ (q : StageRegX). q.new_pc) x) ∙ sym (arch_pc_d e go))
        (λ _. rw (stalled, go, busy) (omega arith))

  -- What instruction `i` at `pc` makes of the registers in order.
  in_order_write : ℕ → ℕ → RegisterFile → RegisterFile
  in_order_write i pc file =
      written i
        (execute_stage p i (arch_operand (has_rs1 (get_opcode i)) (get_rs1 i) file)
          (arch_operand (has_rs2 (get_opcode i)) (get_rs2 i) file)
          (if has_imm (get_opcode i) then get_imm i else 0) pc p.res)
        file

  released :
      (a b e : ℕ)
      → s.d_reg.instruction ≡ code s.d_reg.new_pc
      → s.program_counter ≡ u64 (s.d_reg.new_pc + 4)
      → (s.x_reg.data_stalled == 1) ≡ false
      → let d =
          decode_stage s.d_reg.instruction s.d_reg.new_pc e
            (enter_stage stage_d_bit (written_back s)) in
        (operands (enter_stage stage_d_bit (written_back s)) s.d_reg.instruction (d.reg1, d.reg2)
          ≡ some (a, b))
        → t.x_reg ≡ record {
          new_pc = s.d_reg.new_pc;
          instruction = s.d_reg.instruction;
          reg1 = a;
          reg2 = b;
          imm = d.imm;
          extend_pc = d.extend_pc;
          data_stalled = 0;
        }
        → Decoding p code s t
  unfolding decode_stage in_order_write
  released a b e word pc go taken x =
      let at = arch_pc_d word go in
      let pc_plain : (if s.x_reg.data_stalled == 1 then s.x_reg.new_pc else s.program_counter)
          ≡ s.program_counter =
        rw go refl in
      let word' : s.d_reg.instruction ≡ code (arch_pc s) = word ∙ ap code (sym at) in
      let file = arch_registers p s in
      let (ea, eb) = issue code straight s h p s.d_reg.instruction s.d_reg.new_pc e a b taken in
      let next : arch_pc t ≡ u64 (arch_pc s + 4) =
        arch_pc_next p l code straight s t h f adv
          (unset t.x_reg.data_stalled (ap (λ (q : StageRegX). q.data_stalled) x))
        ∙ fetch_at s h.no_jump h.no_miss
        ∙ pc_plain
        ∙ pc
        ∙ ap (λ (n : ℕ). u64 (n + 4)) (sym at) in
      let i = s.d_reg.instruction in
      let imm = if has_imm (get_opcode i) then get_imm i else 0 in
      let registers : arch_registers p t ≡ in_order_write (code (arch_pc s)) (arch_pc s) file =
        arch_registers_next p l s t adv
        ∙ ap (λ (q : StageRegX). written q.instruction (result p q) file) x
        ∙ ap₂ (λ (m n : ℕ). written i (execute_stage p i m n imm s.d_reg.new_pc p.res) file) ea eb
        ∙ ap₂ (λ (j n : ℕ). in_order_write j n file) word' (sym at) in
      Decoding.issued (ap (λ (q : StageRegX). q.instruction) x ∙ word')
        (ap (λ (q : StageRegX). q.new_pc) x ∙ sym at) (ap (λ (q : StageRegX). q.data_stalled) x)
        next (ap₂ {C = Arch} (λ (r : RegisterFile) (n : ℕ). (r, n)) registers next)

  -- Decode drops the instruction in D, holds it back or sends it on.
  pub decoding : Decoding p code s t
  decoding = elim (Bool-cases (s.x_reg.data_stalled == 1)) [
    | inl g ↦
        let one : s.x_reg.data_stalled ≡ 1 = ground arith in
        dropped (inr one) (fetch_at s h.no_jump h.no_miss ∙ rw g refl) (rw g (omega arith))
    | inr g ↦ elim (h.in_d) [
      | inl e ↦
          let is_nop : (s.d_reg.instruction == nop) ≡ true = ground arith in
          dropped (inl e) (fetch_at s h.no_jump h.no_miss ∙ rw (g, is_nop) refl) (ground arith)
      | inr (e, ds, pc) ↦
          let full = ap plain e ∙ (straight s.d_reg.new_pc).0 in
          let b = enter_stage stage_d_bit (written_back s) in
          let d = decode_stage s.d_reg.instruction s.d_reg.new_pc p.extend_pc b in
          taken e ds pc g full (operands b s.d_reg.instruction (d.reg1, d.reg2)) refl
    ]
  ]
    where
      taken :
          s.d_reg.instruction ≡ code s.d_reg.new_pc
          → s.d_reg.stalled ≡ 0
          → s.program_counter ≡ u64 (s.d_reg.new_pc + 4)
          → (s.x_reg.data_stalled == 1) ≡ false
          → plain s.d_reg.instruction ≡ true
          → (o : Option (ℕ × ℕ))
          → (let b = enter_stage stage_d_bit (written_back s) in
              let d = decode_stage s.d_reg.instruction s.d_reg.new_pc p.extend_pc b in
              operands b s.d_reg.instruction (d.reg1, d.reg2) ≡ o)
          → Decoding p code s t
      taken e ds pc g full none o =
          let b = enter_stage stage_d_bit (written_back s) in
          let d = decode_stage s.d_reg.instruction s.d_reg.new_pc p.extend_pc b in
          held e g
            (adv.x_register
              ∙ decode_stalls p l.new_x_reg (enter_stage stage_d_bit (written_back s)) full ds g
                  h.no_jump h.no_miss o)
            (stalls_busy code straight s h s.d_reg.instruction d.reg1 d.reg2 o)
      taken e ds pc g full (some (m, n)) o = released m n p.extend_pc e pc g o (
          adv.x_register
          ∙ decode_issues p l.new_x_reg (enter_stage stage_d_bit (written_back s)) m n full ds g
              h.no_jump h.no_miss o)
