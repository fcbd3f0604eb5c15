-- ===== src/Straight/Cycle.antt =====
-- What a cycle makes of the pipeline registers when plain instructions are in flight.
use risc5_simulator.Common.{
  ℕ, ◌+◌, Bool, true, false, ◌≡◌, ◌⊎◌, refl, ap, ◌∙◌, if◌then◌else◌, u64, inl, inr,
}
use risc5_simulator.Platform.{Unspecified}
use risc5_simulator.Memory.{stage_f_bit, stage_d_bit, stage_x_bit, stage_m_bit, stage_w_bit}
use risc5_simulator.Registers.{RegisterFile, register_reset_cycle}
use risc5_simulator.Btb
use risc5_simulator.Btb.{found_btb}
use risc5_simulator.Machine.{Machine, StageRegM, StageRegW}
use risc5_simulator.Pipeline.{nop, fetch_pc, stage_fetch, stage_decode, stage_execute, stage_memory}
use risc5_simulator.Pipeline.Operands.{written, stage_writeback_lem}
use risc5_simulator.Pipeline.Fetch.{fetched, stage_fetch_lem}
use risc5_simulator.Pipeline.Prediction.{predicted_next}
use risc5_simulator.Simulator.{Locals, cycle, enter_stage}
use risc5_simulator.Simulator.Squash.{after_w}
use risc5_simulator.Straight.{plain, Straight, InFlight, result, NoPrediction}
use risc5_simulator.Straight.Stages.{Slot, memory_passes, execute_passes, unset}

-- The machine after write-back.
abbrev pub written_back : Machine → Machine
written_back s = record s {
  memory = record (s.memory) { current_stage = stage_w_bit };
  registers = written s.w_reg.instruction s.w_reg.val (register_reset_cycle s.registers);
}

pub after_w_lem : (s : Machine) → s.w_reg.stalled ≡ 0 → after_w s ≡ written_back s
after_w_lem s k =
    stage_writeback_lem
      (enter_stage stage_w_bit (record s { registers = register_reset_cycle s.registers }))
      (unset s.w_reg.stalled k)

-- If the memory and execute stages leave the machine as it is, the pipeline registers of a cycle are
-- what the stages make of the machine after write-back.
cycle_parts :
    (p : Unspecified) (l : Locals) (s b : Machine)
    → after_w s ≡ b
    → (stage_memory p l.new_w_reg (enter_stage stage_m_bit b)).1 ≡ enter_stage stage_m_bit b
    → (stage_execute p l.new_m_reg (enter_stage stage_x_bit b)).1 ≡ enter_stage stage_x_bit b
    → let t = (cycle p l s).1 in
      let f = stage_fetch p l.new_d_reg (enter_stage stage_f_bit b) in
      (t.w_reg ≡ (stage_memory p l.new_w_reg (enter_stage stage_m_bit b)).0)
      × (t.m_reg ≡ (stage_execute p l.new_m_reg (enter_stage stage_x_bit b)).0)
      × (t.x_reg ≡ stage_decode p l.new_x_reg (enter_stage stage_d_bit b))
      × (t.d_reg ≡ f.0)
      × (t.program_counter ≡ f.1.program_counter)
      × (t.registers ≡ f.1.registers)
      × (t.btb ≡ f.1.btb)
unfolding cycle
cycle_parts p l s b e mem exe =
    let w' = (stage_memory p l.new_w_reg (enter_stage stage_m_bit b)).0 in
    let m' = (stage_execute p l.new_m_reg (enter_stage stage_x_bit b)).0 in
    rw
      (
        e,
        ap {B = StageRegW × Machine} (λ (t : Machine). (w', t)) mem,
        ap {B = StageRegM × Machine} (λ (t : Machine). (m', t)) exe,
      )
      (refl, refl, refl, refl, refl, refl, refl)

-- The machine in the fetch stage.
abbrev pub in_fetch : Machine → Machine
in_fetch s = enter_stage stage_f_bit (written_back s)

-- What the fetch of a cycle is relied on for: a hit in the instruction cache is the word of the
-- program, and the fetch of an instruction that has stalled in decode hits again.
abbrev pub Fetches : Unspecified → (ℕ → ℕ) → Machine → Type 0
Fetches p code s =
    ((fetched p (in_fetch s)).0 ≡ true → (fetched p (in_fetch s)).1 ≡ code (fetch_pc (in_fetch s)))
    × (s.x_reg.data_stalled ≡ 1 → (fetched p (in_fetch s)).0 ≡ true)

-- What W, M and the rest of the machine come to in a cycle.
pub record Advance (p : Unspecified) (l : Locals) (s t : Machine) : Type 0 where
  pub w_instruction : t.w_reg.instruction ≡ s.m_reg.instruction
  pub w_stalled : t.w_reg.stalled ≡ 0
  pub w_pc : t.w_reg.new_pc ≡ s.m_reg.new_pc
  pub w_writes :
      (f : RegisterFile)
      → written t.w_reg.instruction t.w_reg.val f ≡ written s.m_reg.instruction s.m_reg.res f
  pub m_instruction : t.m_reg.instruction ≡ s.x_reg.instruction
  pub m_control : t.m_reg.control_stalled ≡ 0
  pub m_pc : (s.x_reg.instruction ≡ nop) ⊎ (t.m_reg.new_pc ≡ s.x_reg.new_pc)
  pub m_writes :
      (f : RegisterFile)
      → written t.m_reg.instruction t.m_reg.res f ≡ written s.x_reg.instruction (result p s.x_reg) f
  pub x_register : t.x_reg ≡ stage_decode p l.new_x_reg (enter_stage stage_d_bit (written_back s))
  pub d_register : t.d_reg ≡ (
      if (fetched p (in_fetch s)).0
      then record (l.new_d_reg) {
        stalled = 0;
        instruction = (fetched p (in_fetch s)).1;
        new_pc = fetch_pc (in_fetch s);
      }
      else record (l.new_d_reg) { instruction = nop; stalled = 1 })
  pub program_counter :
      t.program_counter
      ≡ (if (fetched p (in_fetch s)).0 then u64 (fetch_pc (in_fetch s) + 4) else s.program_counter)
  pub registers :
      t.registers ≡ written s.w_reg.instruction s.w_reg.val (register_reset_cycle s.registers)
  pub unpredicted : NoPrediction t.btb

module _ (p : Unspecified) (l : Locals) (code : ℕ → ℕ) (straight : Straight code) (s : Machine)
    (h : InFlight code s) where
  code-Slot : (i pc : ℕ) → i ≡ code pc → Slot i
  code-Slot i pc e = inr (ap plain e ∙ (straight pc).0)

  m-Slot : Slot s.m_reg.instruction
  m-Slot = elim (h.in_m) [
    | inl e ↦ inl e
    | inr (e, _) ↦ code-Slot s.m_reg.instruction s.m_reg.new_pc e
  ]

  x_slot :
      (s.x_reg.instruction ≡ nop)
      ⊎ ((plain s.x_reg.instruction ≡ true) × (s.x_reg.data_stalled ≡ 0))
  x_slot = elim (h.in_x) [
    | inl e ↦ inl e
    | inr (e, d, _) ↦ inr (ap plain e ∙ (straight s.x_reg.new_pc).0, d)
  ]

  aw : after_w s ≡ written_back s
  aw = after_w_lem s h.no_miss

  memory_out :
      (f : RegisterFile)
      → let (w', s') = stage_memory p l.new_w_reg (enter_stage stage_m_bit (written_back s)) in
        (s' ≡ enter_stage stage_m_bit (written_back s))
        × (w'.instruction ≡ s.m_reg.instruction)
        × (w'.stalled ≡ 0)
        × (w'.new_pc ≡ s.m_reg.new_pc)
        × (written w'.instruction w'.val f ≡ written s.m_reg.instruction s.m_reg.res f)
  memory_out f =
      memory_passes p l.new_w_reg (enter_stage stage_m_bit (written_back s)) f m-Slot h.no_jump
        h.no_miss

  execute_out :
      (f : RegisterFile)
      → let (m', s') = stage_execute p l.new_m_reg (enter_stage stage_x_bit (written_back s)) in
        (s' ≡ enter_stage stage_x_bit (written_back s))
        × (m'.instruction ≡ s.x_reg.instruction)
        × (m'.control_stalled ≡ 0)
        × ((s.x_reg.instruction ≡ nop) ⊎ (m'.new_pc ≡ s.x_reg.new_pc))
        × (written m'.instruction m'.res f ≡ written s.x_reg.instruction (result p s.x_reg) f)
  execute_out f =
      execute_passes p l.new_m_reg (enter_stage stage_x_bit (written_back s)) f x_slot h.no_jump
        h.no_miss h.unpredicted

  next :
      (found : Bool)
      → (if found then predicted_next (fetch_pc (in_fetch s)) s.btb else s.program_counter)
        ≡ (if found then u64 (fetch_pc (in_fetch s) + 4) else s.program_counter)
  next true = rw (h.unpredicted (fetch_pc (in_fetch s))) refl
  next false = refl

  pub advance : Advance p l s (cycle p l s).1
  advance =
      let (ms, mi, mc, mp, mw) = memory_out s.registers in
      let (xs, xi, xc, xp, xw) = execute_out s.registers in
      let (w, m, x, d, pc, r, b) = cycle_parts p l s (written_back s) aw ms xs in
      let (fd, fpc, fr, fb) = stage_fetch_lem p l.new_d_reg (in_fetch s) in
      record {
        w_instruction = ap (λ (t : StageRegW). t.instruction) w ∙ mi;
        w_stalled = ap (λ (t : StageRegW). t.stalled) w ∙ mc;
        w_pc = ap (λ (t : StageRegW). t.new_pc) w ∙ mp;
        w_writes = λ f. ap (λ (t : StageRegW). written t.instruction t.val f) w ∙ (memory_out f).4;
        m_instruction = ap (λ (t : StageRegM). t.instruction) m ∙ xi;
        m_control = ap (λ (t : StageRegM). t.control_stalled) m ∙ xc;
        m_pc = elim xp [ inl e ↦ inl e | inr e ↦ inr (ap (λ (t : StageRegM). t.new_pc) m ∙ e) ];
        m_writes = λ f. ap (λ (t : StageRegM). written t.instruction t.res f) m ∙ (execute_out f).4;
        x_register = x;
        d_register = d ∙ fd;
        program_counter = pc ∙ fpc ∙ next (fetched p (in_fetch s)).0;
        registers = r ∙ fr;
        unpredicted = λ a. ap (λ (t : Btb.Btb). (found_btb a 0 t).0) (b ∙ fb) ∙ h.unpredicted a;
      }
