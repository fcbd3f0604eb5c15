-- ===== src/Straight/Refinement.antt =====
-- The pipeline executes straight-line programs in order.
use risc5_simulator.Common.{
  ℕ, zero, suc, ◌+◌, ◌<◌, true, false, ◌==◌, ◌≡◌, ◌⊎◌, refl, sym, ap, ap₂, ◌∙◌, u64, inl, inr,
}
use risc5_simulator.Platform.{Unspecified}
use risc5_simulator.Registers.{RegisterFile}
use risc5_simulator.Machine.{Machine}
use risc5_simulator.Pipeline.{nop}
use risc5_simulator.Pipeline.Operands.{written-nop}
use risc5_simulator.Pipeline.Fetch.{fetched}
use risc5_simulator.Simulator.{Locals, cycle, read_inst, ebreak, simulator_execute_instructions}
use risc5_simulator.Cache.{word32}
use risc5_simulator.Straight.{
  Straight, InFlight, arch_pc, arch_step, arch_registers, arch, Arch, result,
}
use risc5_simulator.Straight.Cycle.{in_fetch, Fetches, Advance}
use risc5_simulator.Straight.Next.{d_next, arch_registers_next}
use risc5_simulator.Straight.Decode.{wait, kept, issued, decoding}

module _ (p : Unspecified) (l : Locals) (code : ℕ → ℕ) (straight : Straight code) (s t : Machine)
    (h : InFlight code s) (f : Fetches p code s) (adv : Advance p l s t) where
  w_next :
      (t.w_reg.instruction ≡ nop)
      ⊎ ((t.w_reg.instruction ≡ code t.w_reg.new_pc)
          × ((t.m_reg.instruction ≡ nop) ⊎ (t.m_reg.new_pc ≡ u64 (t.w_reg.new_pc + 4))))
  w_next = elim (h.in_m) [
    | inl e ↦ inl (adv.w_instruction ∙ e)
    | inr (e, next) ↦ inr (adv.w_instruction ∙ e ∙ ap code (sym adv.w_pc), follow next adv.m_pc)
  ]
    where
      follow :
          (s.x_reg.instruction ≡ nop) ⊎ (s.x_reg.new_pc ≡ u64 (s.m_reg.new_pc + 4))
          → (s.x_reg.instruction ≡ nop) ⊎ (t.m_reg.new_pc ≡ s.x_reg.new_pc)
          → (t.m_reg.instruction ≡ nop) ⊎ (t.m_reg.new_pc ≡ u64 (t.w_reg.new_pc + 4))
      follow (inl e) _ = inl (adv.m_instruction ∙ e)
      follow (inr _) (inl e) = inl (adv.m_instruction ∙ e)
      follow (inr at) (inr same) = inr (same ∙ at ∙ ap (λ (n : ℕ). u64 (n + 4)) (sym adv.w_pc))

  m_next :
      (t.x_reg.instruction ≡ nop) ⊎ (t.x_reg.new_pc ≡ arch_pc s)
      → (t.m_reg.instruction ≡ nop)
        ⊎ ((t.m_reg.instruction ≡ code t.m_reg.new_pc)
            × ((t.x_reg.instruction ≡ nop) ⊎ (t.x_reg.new_pc ≡ u64 (t.m_reg.new_pc + 4))))
  m_next x = elim (h.in_x) [
    | inl e ↦ inl (adv.m_instruction ∙ e)
    | inr (e, _, at) ↦ elim (adv.m_pc) [
      | inl n ↦ inl (adv.m_instruction ∙ n)
      | inr same ↦ inr (
        adv.m_instruction ∙ e ∙ ap code (sym same),
        elim x [
          | inl n ↦ inl n
          | inr here ↦ inr (here ∙ at ∙ ap (λ (n : ℕ). u64 (n + 4)) (sym same))
        ],
      )
    ]
  ]

  pub next_step :
      (InFlight code t)
      × (((arch p t ≡ arch p s) × ((fetched p (in_fetch s)).0 ≡ true → wait t < wait s))
          ⊎ (arch p t ≡ arch_step p code (arch p s)))
  next_step = elim (decoding p l code straight s t h f adv) [
    | kept x pc sooner ↦ (
      record {
        unpredicted = adv.unpredicted;
        no_jump = adv.m_control;
        no_miss = adv.w_stalled;
        in_d = d_next p l code straight s t h f adv;
        in_x = inl x;
        in_m = m_next (inl x);
        in_w = w_next;
      },
      inl (
        ap₂ {C = Arch} (λ (r : RegisterFile) (n : ℕ). (r, n))
            (arch_registers_next p l s t adv
              ∙ written-nop t.x_reg.instruction (result p t.x_reg) (arch_registers p s)
                  (ap (λ (i : ℕ). i == nop) x))
            pc,
        sooner,
      ),
    )
    | issued word at ready pc step ↦ (
      record {
        unpredicted = adv.unpredicted;
        no_jump = adv.m_control;
        no_miss = adv.w_stalled;
        in_d = d_next p l code straight s t h f adv;
        in_x = inr (word ∙ ap code (sym at), ready, pc ∙ ap (λ (n : ℕ). u64 (n + 4)) (sym at));
        in_m = m_next (inr at);
        in_w = w_next;
      },
      inr step,
    )
  ]

-- So many instructions one after another.
abbrev pub run_in_order : Unspecified → (ℕ → ℕ) → ℕ → Arch → Arch
run_in_order p code zero a = a
run_in_order p code (suc k) a = run_in_order p code k (arch_step p code a)

-- What the loop does if the word at the program counter is not EBREAK.
pub loop_goes_on :
    (us : ℕ → Unspecified) (n : ℕ) (l : Locals) (s : Machine)
    → (word32 (read_inst l.inst s) 0 == ebreak) ≡ false
    → let (l', s') = cycle (us n) (record l { inst = read_inst l.inst s }) s in
      simulator_execute_instructions us (suc n) l s ≡ simulator_execute_instructions us n l' s'
unfolding simulator_execute_instructions
loop_goes_on us n l s e = rw (simulator_execute_instructions, e) refl

-- The registers and the program counter in order are those after `k` more instructions, and the
-- instructions in flight are the program's.
pub record Executed (p : Unspecified) (code : ℕ → ℕ) (s t : Machine) : Type 0 where
  pub in_flight : InFlight code t
  pub count : ℕ
  pub same : arch p t ≡ run_in_order p code count (arch p s)
