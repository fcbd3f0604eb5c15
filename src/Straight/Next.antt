-- ===== src/Straight/Next.antt =====
-- The registers, D and the program counter after a cycle.
use risc5_simulator.Common.{
  ℕ, ◌+◌, true, false, ◌==◌, ◌≡◌, ◌⊎◌, refl, sym, ap, ◌∙◌, arith, if◌then◌else◌, u64, inl, inr,
  Bool-cases,
}
use risc5_simulator.Platform.{Unspecified}
use risc5_simulator.Registers.{RegisterFile, register_write, register_reset_cycle}
use risc5_simulator.Machine.{Machine, StageRegD, get_pc}
use risc5_simulator.Pipeline.{nop, fetch_pc}
use risc5_simulator.Pipeline.Fetch.{fetched}
use risc5_simulator.Pipeline.Operands.{written}
use risc5_simulator.Simulator.{Locals}
use risc5_simulator.Straight.{plain, Straight, InFlight, arch_pc, arch_registers, result}
use risc5_simulator.Straight.Stages.{plain_nonzero, unset}
use risc5_simulator.Straight.Cycle.{in_fetch, Fetches, Advance}

-- The registers after a cycle: those before, and what the instruction in X will write.
reset_written :
    (i v : ℕ) (f : RegisterFile)
    → register_reset_cycle (written i v (register_reset_cycle f))
      ≡ written i v (register_reset_cycle f)
unfolding register_reset_cycle register_write
reset_written i v f = ground arith

pub arch_registers_next :
    (p : Unspecified) (l : Locals) (s t : Machine)
    → Advance p l s t
    → arch_registers p t ≡ written t.x_reg.instruction (result p t.x_reg) (arch_registers p s)
arch_registers_next p l s t adv =
    ap (λ (f : RegisterFile). written t.x_reg.instruction (result p t.x_reg) f)
      (ap
          (λ (f : RegisterFile).
            written t.m_reg.instruction t.m_reg.res (written t.w_reg.instruction t.w_reg.val f))
          (ap register_reset_cycle adv.registers
            ∙ reset_written s.w_reg.instruction s.w_reg.val s.registers)
        ∙ ap (λ (f : RegisterFile). written t.m_reg.instruction t.m_reg.res f) (adv.w_writes _)
        ∙ adv.m_writes _)

pub fetch_at :
    (s : Machine)
    → s.m_reg.control_stalled ≡ 0
    → s.w_reg.stalled ≡ 0
    → fetch_pc (in_fetch s)
      ≡ (if s.x_reg.data_stalled == 1 then s.x_reg.new_pc else s.program_counter)
unfolding fetch_pc get_pc
fetch_at s c k = rw (unset s.m_reg.control_stalled c, unset s.w_reg.stalled k) refl

module _ (p : Unspecified) (l : Locals) (code : ℕ → ℕ) (straight : Straight code) (s t : Machine)
    (h : InFlight code s) (f : Fetches p code s) (adv : Advance p l s t) where
  -- D after a cycle.
  pub d_next :
      (t.d_reg.instruction ≡ nop)
      ⊎ ((t.d_reg.instruction ≡ code t.d_reg.new_pc)
          × (t.d_reg.stalled ≡ 0)
          × (t.program_counter ≡ u64 (t.d_reg.new_pc + 4)))
  d_next = elim (Bool-cases (fetched p (in_fetch s)).0) [
    | inr e ↦ inl (ap (λ (d : StageRegD). d.instruction) adv.d_register ∙ rw e refl)
    | inl e ↦
        let d = adv.d_register in
        let at : t.d_reg.new_pc ≡ fetch_pc (in_fetch s) =
          ap (λ (q : StageRegD). q.new_pc) d ∙ rw e refl in
        inr (
          ap (λ (q : StageRegD). q.instruction) d ∙ rw e (f.0 e) ∙ ap code (sym at),
          ap (λ (q : StageRegD). q.stalled) d ∙ rw e refl,
          adv.program_counter ∙ rw e (ap (λ (a : ℕ). u64 (a + 4)) (sym at)),
        )
  ]

  -- Unless decode stalls, the next instruction to decode is the one that was to be fetched.
  pub arch_pc_next : (t.x_reg.data_stalled == 1) ≡ false → arch_pc t ≡ fetch_pc (in_fetch s)
  arch_pc_next go = elim (Bool-cases (fetched p (in_fetch s)).0) [
    | inl e ↦
        let at : t.d_reg.new_pc ≡ fetch_pc (in_fetch s) =
          ap (λ (q : StageRegD). q.new_pc) adv.d_register ∙ rw e refl in
        let word : t.d_reg.instruction ≡ code (fetch_pc (in_fetch s)) =
          ap (λ (q : StageRegD). q.instruction) adv.d_register ∙ rw e (f.0 e) in
        let full =
          plain_nonzero t.d_reg.instruction
            (ap plain word ∙ (straight (fetch_pc (in_fetch s))).0) in
        rw (go, full) at
    | inr e ↦
        let empty : t.d_reg.instruction ≡ nop =
          ap (λ (q : StageRegD). q.instruction) adv.d_register ∙ rw e refl in
        let is_nop : (t.d_reg.instruction == nop) ≡ true = ground arith in
        let pc : t.program_counter ≡ s.program_counter = adv.program_counter ∙ rw e refl in
        rw (go, is_nop) (pc ∙ sym (fetch_at s h.no_jump h.no_miss ∙ missed e))
  ]
    where
      missed :
          (fetched p (in_fetch s)).0 ≡ false
          → (if s.x_reg.data_stalled == 1 then s.x_reg.new_pc else s.program_counter)
            ≡ s.program_counter
      missed e = elim (Bool-cases (s.x_reg.data_stalled == 1)) [
        | inr g ↦ rw g refl
        | inl g ↦
            let one : s.x_reg.data_stalled ≡ 1 = ground arith in ground (arith, sym (f.1 one) ∙ e)
      ]
