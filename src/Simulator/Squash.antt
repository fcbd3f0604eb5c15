-- ===== src/Simulator/Squash.antt =====
-- A cycle in which the instruction in M has raised the control stall.
use risc5_simulator.Common.{
  ◌≡◌, refl, ap, ap₂, arith, Bool, true, false, ◌==◌, if◌then◌else◌, Bool-cases, inl, inr, ◌∙◌,
}
use risc5_simulator.Platform.{Unspecified}
use risc5_simulator.Utils.{has_rd, get_opcode}
use risc5_simulator.Memory.{stage_f_bit, stage_d_bit, stage_x_bit, stage_m_bit, stage_w_bit}
use risc5_simulator.Registers.{register_reset_cycle}
use risc5_simulator.Machine.{Machine, StageRegD, StageRegX, StageRegM, StageRegW}
use risc5_simulator.Stages.{write_back_stage}
use risc5_simulator.Pipeline.{
  nop, fetch_pc, stage_fetch, stage_decode, stage_execute, stage_memory, stage_writeback,
}
use risc5_simulator.Pipeline.Prediction.{predicted_next}
use risc5_simulator.Pipeline.Fetch.{fetched, stage_fetch_lem}
use risc5_simulator.Simulator.{Locals, cycle, enter_stage}

-- Write-back changes the registers alone.
pub stage_writeback_frame :
    (s : Machine) → stage_writeback s ≡ record s { registers = (stage_writeback s).registers }
unfolding stage_writeback write_back_stage
stage_writeback_frame s = elim (Bool-cases (s.w_reg.instruction == nop)) [
  | inl e ↦ rw e
  | inr ne ↦ rw ne (elim (Bool-cases (s.w_reg.stalled == 1)) [
    | inl e ↦ rw e
    | inr go ↦ rw go (elim (Bool-cases (has_rd (get_opcode s.w_reg.instruction))) [
      | inl w ↦ rw w
      | inr n ↦ rw n
    ])
  ])
]

module _ (p : Unspecified) (s : Machine) (h : s.m_reg.control_stalled ≡ 1) where
  memory_bubble :
      (w : StageRegW)
      → stage_memory p w s
        ≡ (record w { new_pc = s.m_reg.new_pc; instruction = nop; stalled = 0 }, s)
  unfolding stage_memory
  memory_bubble w =
      rw h (elim (Bool-cases (s.m_reg.instruction == nop)) [ inl e ↦ rw e | inr ne ↦ rw ne ])

  execute_bubble :
      (m : StageRegM)
      → stage_execute p m s ≡ (record m { instruction = nop; control_stalled = 0 }, s)
  unfolding stage_execute
  execute_bubble m = rw h (elim (Bool-cases (s.x_reg.instruction == nop)) [
    | inl e ↦ rw e
    | inr ne ↦
        rw ne (elim (Bool-cases (s.x_reg.data_stalled == 1)) [ inl e ↦ rw e | inr go ↦ rw go ])
  ])

  decode_bubble : (x : StageRegX) → (stage_decode p x s).instruction ≡ nop
  unfolding stage_decode
  decode_bubble x = rw h (ground arith)

-- The machine once write-back is done, and in the fetch stage of a cycle whose other stages leave
-- it as it is.
abbrev pub after_w : Machine → Machine
after_w s =
    stage_writeback
      (enter_stage stage_w_bit (record s { registers = register_reset_cycle s.registers }))

abbrev pub at_fetch : Machine → Machine
at_fetch s = enter_stage stage_f_bit (after_w s)

pub after_w-frame :
    (s : Machine)
    → ((after_w s).m_reg ≡ s.m_reg)
      × ((after_w s).w_reg ≡ s.w_reg)
      × ((after_w s).btb ≡ s.btb)
      × ((after_w s).program_counter ≡ s.program_counter)
after_w-frame s = (
  ap (λ (t : Machine). t.m_reg) e,
  ap (λ (t : Machine). t.w_reg) e,
  ap (λ (t : Machine). t.btb) e,
  ap (λ (t : Machine). t.program_counter) e,
)
  where
    in_w : Machine
    in_w = enter_stage stage_w_bit (record s { registers = register_reset_cycle s.registers })

    e : stage_writeback in_w ≡ record in_w { registers = (stage_writeback in_w).registers }
    e = stage_writeback_frame in_w

module _ (p : Unspecified) (l : Locals) (s : Machine) (h : s.m_reg.control_stalled ≡ 1) where
  raised : (after_w s).m_reg.control_stalled ≡ 1
  raised = ap (λ (m : StageRegM). m.control_stalled) (after_w-frame s).0 ∙ h

  -- If the instruction in M has raised the control stall, then after the cycle X, M and W hold
  -- bubbles and M raises no control stall: the instruction that raised it does not reach W, and
  -- neither do the two behind it.
  pub cycle-squashes :
      let t = (cycle p l s).1 in
      (t.w_reg.instruction ≡ nop)
      × (t.m_reg.instruction ≡ nop)
      × (t.m_reg.control_stalled ≡ 0)
      × (t.x_reg.instruction ≡ nop)
  unfolding cycle
  cycle-squashes =
      rw
        (
          memory_bubble p (enter_stage stage_m_bit (after_w s)) raised l.new_w_reg,
          execute_bubble p (enter_stage stage_x_bit (after_w s)) raised l.new_m_reg,
        )
        (refl, refl, refl, decode_bubble p (enter_stage stage_d_bit (after_w s)) raised l.new_x_reg)

  cycle-fetches :
      let (d, t) = stage_fetch p l.new_d_reg (at_fetch s) in
      ((cycle p l s).1.program_counter ≡ t.program_counter) × ((cycle p l s).1.d_reg ≡ d)
  unfolding cycle
  cycle-fetches =
      rw
        (
          memory_bubble p (enter_stage stage_m_bit (after_w s)) raised l.new_w_reg,
          execute_bubble p (enter_stage stage_x_bit (after_w s)) raised l.new_m_reg,
        )
        (refl, refl)

  redirected : s.w_reg.stalled ≡ 0 → fetch_pc (at_fetch s) ≡ s.m_reg.new_pc
  unfolding fetch_pc
  redirected ok = let (m, w, _, _) = after_w-frame s in rw (m, w, h, ok) refl

  -- If the instruction in M has raised the control stall and no data cache miss stalls W, the cycle
  -- fetches from the address that the instruction names. If that hits the instruction cache, D gets
  -- its word and the program counter goes on from there; if it misses, D gets a bubble and the program
  -- counter stays where it was before the branch was resolved: the redirect is lost.
  pub cycle-redirects :
      s.w_reg.stalled ≡ 0
      → let t = (cycle p l s).1 in
        let (found, word) = fetched p (at_fetch s) in
        (fetch_pc (at_fetch s) ≡ s.m_reg.new_pc)
        × (t.program_counter
            ≡ (if found then predicted_next s.m_reg.new_pc s.btb else s.program_counter))
        × (t.d_reg.instruction ≡ (if found then word else nop))
  cycle-redirects ok =
      let f = at_fetch s in
      let at = redirected ok in
      let (_, _, b, c) = after_w-frame s in
      let (d, pc, _, _) = stage_fetch_lem p l.new_d_reg f in
      let (pc', d') = cycle-fetches in
      (
        at,
        pc' ∙ pc ∙ next (fetched p f).0 at b c,
        ap (λ (r : StageRegD). r.instruction) (d' ∙ d) ∙ instruction_of (fetched p f).0,
      )
    where
      next :
          (found : Bool)
          → fetch_pc (at_fetch s) ≡ s.m_reg.new_pc
          → (at_fetch s).btb ≡ s.btb
          → (at_fetch s).program_counter ≡ s.program_counter
          → (if found
              then predicted_next (fetch_pc (at_fetch s)) (at_fetch s).btb
              else (at_fetch s).program_counter)
            ≡ (if found then predicted_next s.m_reg.new_pc s.btb else s.program_counter)
      next true at b c = ap₂ predicted_next at b
      next false at b c = c

      instruction_of :
          (found : Bool)
          → (if found
              then record (l.new_d_reg) {
                stalled = 0;
                instruction = (fetched p (at_fetch s)).1;
                new_pc = fetch_pc (at_fetch s);
              }
              else record (l.new_d_reg) { instruction = nop; stalled = 1 }).instruction
            ≡ (if found then (fetched p (at_fetch s)).1 else nop)
      instruction_of true = refl
      instruction_of false = refl
