-- ===== src/Simulator/Invariant.antt =====
-- What every cycle keeps of the machine, and with it the loop.
use risc5_simulator.Common.{ℕ, zero, suc, ◌≡◌, ◌⊎◌, refl, arith, Bool, true, false, ◌==◌, inl, inr}
use risc5_simulator.Platform.{Unspecified}
use risc5_simulator.Memory.{stage_f_bit, stage_d_bit, stage_x_bit, stage_m_bit, stage_w_bit}
use risc5_simulator.Registers.{register_write, register_reset_cycle}
use risc5_simulator.Btb.Invariant.{IsValid}
use risc5_simulator.Cache.{word32}
use risc5_simulator.Machine.{Machine, StageRegD, StageRegX, StageRegM, StageRegW, set_pc}
use risc5_simulator.Stages.{
  instruction_fetch_stage, branch_stage, memory_stage, load_miss, store_hit, store_through,
  write_back_stage,
}
use risc5_simulator.Pipeline.{
  fetch_pc, flush_memory, stage_fetch, stage_execute, stage_memory, stage_writeback, resolve,
}
use risc5_simulator.Pipeline.Prediction.{resolve-IsValid}
use risc5_simulator.Simulator.{
  Locals, cycle, simulator_execute_instructions, enter_stage, read_inst, ebreak,
}
use risc5_simulator.Simulator.Caches.{
  UnsignedCaches, stage_fetch-Unsigned, stage_memory-Unsigned, stage_execute-Unsigned,
  writeback-Unsigned,
}

-- Whichever way the loop goes on.
either :
    (P : Machine → Type 0) (b : Bool) (x y : Locals × Machine)
    → P x.1
    → P y.1
    → P (elim b as (λ (_ : Bool). Locals × Machine) [ true ↦ x | false ↦ y ]).1
either P true x y g h = g
either P false x y g h = h

-- A property of the machine that a cycle keeps holds however long the loop runs.
pub simulate-invariant :
    (P : Machine → Type 0)
    → ((p : Unspecified) (l : Locals) (s : Machine) → P s → P (cycle p l s).1)
    → (us : ℕ → Unspecified) (n : ℕ) (l : Locals) (s : Machine) → P s
    → P (simulator_execute_instructions us n l s).1
unfolding simulator_execute_instructions
simulate-invariant P step us zero l s h = h
simulate-invariant P step us (suc n) l s h =
    either P (word32 l'.inst 0 == ebreak) (l', s)
      (simulator_execute_instructions us n (cycle (us n) l' s).0 (cycle (us n) l' s).1) h
      (simulate-invariant P step us n (cycle (us n) l' s).0 (cycle (us n) l' s).1
        (step (us n) l' s h))
  where
    l' : Locals
    l' = record l { inst = read_inst l.inst s }

-- The register file has not counted an access of the cycle.
abbrev Fresh : Machine → Type 0
Fresh s = (s.registers.register_cycle_reads ≡ 0) × (s.registers.register_cycle_writes ≡ 0)

-- The caches have no signatures, the branch target buffer is well formed, and the register file
-- gives and takes values.
abbrev pub WellFormed : Machine → Type 0
WellFormed s = UnsignedCaches s × IsValid s.btb × Fresh s

-- The other two parts through the stages.
abbrev Sound : Machine → Type 0
Sound s = IsValid s.btb × Fresh s

memory_stage-frame :
    (p : Unspecified) (i res reg2 : ℕ) (s : Machine)
    → let t = (memory_stage p i res reg2 s).2 in (t.btb ≡ s.btb) × (t.registers ≡ s.registers)
unfolding memory_stage load_miss store_hit store_through
memory_stage-frame p i res reg2 s = ground arith

stage_memory-frame :
    (p : Unspecified) (w : StageRegW) (s : Machine)
    → let t = (stage_memory p w s).1 in (t.btb ≡ s.btb) × (t.registers ≡ s.registers)
unfolding stage_memory
stage_memory-frame p w s =
    let m = s.m_reg in ground (arith, memory_stage-frame p m.instruction m.res m.reg2 s)

stage_memory-Sound :
    (p : Unspecified) (w : StageRegW) (s : Machine) → Sound s → Sound (stage_memory p w s).1
stage_memory-Sound p w s h = let (b, r) = stage_memory-frame p w s in rw (b, r) h

fetch_stage-frame :
    (p : Unspecified) (pc i : ℕ) (s : Machine)
    → let t = (instruction_fetch_stage p pc i s).2 in (t.btb ≡ s.btb) × (t.registers ≡ s.registers)
unfolding instruction_fetch_stage
fetch_stage-frame p pc i s = ground arith

stage_fetch-frame :
    (p : Unspecified) (d : StageRegD) (s : Machine)
    → let t = (stage_fetch p d s).1 in (t.btb ≡ s.btb) × (t.registers ≡ s.registers)
unfolding stage_fetch flush_memory set_pc
stage_fetch-frame p d s =
    let pc = fetch_pc s in
    ground (arith, fetch_stage-frame p pc p.instruction (flush_memory p pc s))

stage_fetch-Sound :
    (p : Unspecified) (d : StageRegD) (s : Machine) → Sound s → Sound (stage_fetch p d s).1
stage_fetch-Sound p d s h = let (b, r) = stage_fetch-frame p d s in rw (b, r) h

-- An instruction that reaches the resolution of its branch leaves the buffer of `resolve`.
stage_execute-frame :
    (p : Unspecified) (m : StageRegM) (s : Machine)
    → let t = (stage_execute p m s).1 in
      let x = s.x_reg in
      let r = resolve (branch_stage x.instruction x.reg1 x.reg2) x.new_pc x.extend_pc s.btb in
      ((t.btb ≡ s.btb) ⊎ (t.btb ≡ r.btb)) × (t.registers ≡ s.registers)
unfolding stage_execute
stage_execute-frame p m s = ground arith

stage_execute-Sound :
    (p : Unspecified) (m : StageRegM) (s : Machine) → Sound s → Sound (stage_execute p m s).1
stage_execute-Sound p m s (v, f) =
    let (b, r) = stage_execute-frame p m s in
    elim b [
      | inl same ↦ rw (same, r) (v, f)
      | inr new ↦ rw (new, r) (resolve-IsValid branch x.new_pc x.extend_pc v, f)
    ]
  where
    x : StageRegX
    x = s.x_reg

    branch : Bool
    branch = branch_stage x.instruction x.reg1 x.reg2

writeback-Fresh :
    (s : Machine) → Fresh s → ((stage_writeback s).btb ≡ s.btb) × Fresh (stage_writeback s)
unfolding stage_writeback write_back_stage register_write
writeback-Fresh s f = ground arith

writeback-Sound : (s : Machine) → Sound s → Sound (stage_writeback s)
writeback-Sound s (v, f) = let (b, r) = writeback-Fresh s f in (rw b v, r)

-- A cycle keeps a well-formed machine well formed.
cycle-WellFormed :
    (p : Unspecified) (l : Locals) (s : Machine) → WellFormed s → WellFormed (cycle p l s).1
unfolding cycle register_reset_cycle
cycle-WellFormed p l s (u, v, f) =
    let (v', f') = stage_fetch-Sound p l.new_d_reg in_f (
      stage_execute-Sound p l.new_m_reg in_x
        (stage_memory-Sound p l.new_w_reg in_m (writeback-Sound in_w (v, reset)))) in
    (
      stage_fetch-Unsigned p l.new_d_reg in_f (
          stage_execute-Unsigned p l.new_m_reg in_x
            (stage_memory-Unsigned p l.new_w_reg in_m (writeback-Unsigned in_w u))),
      v',
      f',
    )
  where
    reset : Fresh (record s { registers = register_reset_cycle s.registers })
    reset = (refl, refl)

    in_w : Machine
    in_w = enter_stage stage_w_bit (record s { registers = register_reset_cycle s.registers })

    in_m : Machine
    in_m = enter_stage stage_m_bit (stage_writeback in_w)

    in_x : Machine
    in_x = enter_stage stage_x_bit (stage_memory p l.new_w_reg in_m).1

    in_f : Machine
    in_f = enter_stage stage_f_bit (enter_stage stage_d_bit (stage_execute p l.new_m_reg in_x).1)

-- However long the loop runs from a well-formed machine, it leaves a well-formed one: no cache
-- line has a signature, the branch target buffer has its 32 entries, an index of 8 bits and at
-- most one valid entry for an address, and the register file has counted no read and no write.
pub simulate-WellFormed :
    (us : ℕ → Unspecified) (n : ℕ) (l : Locals) (s : Machine)
    → WellFormed s
    → WellFormed (simulator_execute_instructions us n l s).1
simulate-WellFormed us n l s h = simulate-invariant WellFormed cycle-WellFormed us n l s h
