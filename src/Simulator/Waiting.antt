-- ===== src/Simulator/Waiting.antt =====
-- The drained pipeline: a machine that has no instruction in flight and waits for the instruction
-- cache.
use risc5_simulator.Common.{ℕ, ◌^◌, ◌≡◌, ◌≤◌, ◌<◌, refl, ap, Bool, ◌∙◌}
use risc5_simulator.Platform.{Unspecified}
use risc5_simulator.Memory.{stage_f_bit, stage_d_bit, stage_x_bit, stage_m_bit, stage_w_bit}
use risc5_simulator.Registers.{RegisterFile, register_reset_cycle}
use risc5_simulator.Cache.Signature.{far_i_miss}
use risc5_simulator.Machine.{Machine, StageRegD, StageRegX, StageRegM, StageRegW, get_pc}
use risc5_simulator.Pipeline.{
  nop, fetch_pc, flush_memory, stage_fetch, stage_decode, stage_execute, stage_memory,
  stage_writeback,
}
use risc5_simulator.Pipeline.Fetch.{fetch_miss}
use risc5_simulator.Simulator.{Locals, cycle, enter_stage, simulator_execute_instructions}
use risc5_simulator.Simulator.Caches.{UnsignedCaches, flush-Unsigned, stage_fetch-Unsigned}
use risc5_simulator.Simulator.Invariant.{simulate-invariant}

-- No instruction is in flight, and no hazard is open.
abbrev pub Drained : Machine → Type 0
Drained s =
    (s.d_reg.instruction ≡ nop)
    × (s.x_reg.instruction ≡ nop)
    × (s.m_reg.instruction ≡ nop)
    × (s.w_reg.instruction ≡ nop)
    × (s.x_reg.data_stalled ≡ 0)
    × (s.m_reg.control_stalled ≡ 0)
    × (s.w_reg.stalled ≡ 0)

-- A drained machine with the program counter beyond what the instruction cache ever finds.
abbrev Lost : Machine → Type 0
Lost s = Drained s × UnsignedCaches s × (2 ^ 13 ≤ s.program_counter) × (s.program_counter < 2 ^ 64)

writeback_idle : (s : Machine) → s.w_reg.instruction ≡ nop → stage_writeback s ≡ s
unfolding stage_writeback
writeback_idle s h = rw h refl

memory_idle :
    (p : Unspecified) (w : StageRegW) (s : Machine)
    → s.m_reg.instruction ≡ nop
    → stage_memory p w s ≡ (record w { new_pc = s.m_reg.new_pc; instruction = nop; stalled = 0 }, s)
unfolding stage_memory
memory_idle p w s h = rw h refl

execute_idle :
    (p : Unspecified) (m : StageRegM) (s : Machine)
    → s.x_reg.instruction ≡ nop
    → stage_execute p m s ≡ (record m { instruction = nop; control_stalled = 0 }, s)
unfolding stage_execute
execute_idle p m s h = rw h refl

decode_idle :
    (p : Unspecified) (x : StageRegX) (s : Machine)
    → s.d_reg.instruction ≡ nop
    → stage_decode p x s ≡ record x { new_pc = s.d_reg.new_pc; instruction = nop; data_stalled = 0 }
unfolding stage_decode
decode_idle p x s h = rw h refl

fetch_pc_idle : (s : Machine) → Drained s → fetch_pc s ≡ s.program_counter
unfolding fetch_pc get_pc
fetch_pc_idle s (d, x, m, w, a, b, c) = rw (a, b, c) refl

-- The state in which the fetch stage of an idle cycle runs.
abbrev in_fetch : Machine → Machine
in_fetch s = enter_stage stage_f_bit (record s { registers = register_reset_cycle s.registers })

Lost-fetch :
    (p : Unspecified) (d : StageRegD) (s : Machine)
    → Lost s
    → let (d', t) = stage_fetch p d (in_fetch s) in
      (d'.instruction ≡ nop)
      × UnsignedCaches t
      × (t.program_counter ≡ s.program_counter)
      × (t.registers.register_file ≡ s.registers.register_file)
unfolding register_reset_cycle
Lost-fetch p d s (e, u, far, h) =
    let t = in_fetch s in
    let at : fetch_pc t ≡ s.program_counter = fetch_pc_idle t e in
    let missed =
      far_i_miss (flush_memory p s.program_counter t).i_cache
        (flush-Unsigned p s.program_counter t u).0 s.program_counter p.instruction h far in
    let (a, b, c) = fetch_miss p d t (rw at (ap (λ (r : Bool × ℕ). r.0) missed)) in
    (
      ap (λ (r : StageRegD). r.instruction) a,
      stage_fetch-Unsigned p d t u,
      b,
      ap (λ (r : RegisterFile). r.register_file) c,
    )

-- An idle cycle is its fetch stage.
idle_cycle :
    (p : Unspecified) (l : Locals) (s : Machine)
    → Drained s
    → let t = (cycle p l s).1 in
      let (d', f) = stage_fetch p l.new_d_reg (in_fetch s) in
      (t.d_reg ≡ d')
      × (t.x_reg.instruction ≡ nop)
      × (t.m_reg.instruction ≡ nop)
      × (t.w_reg.instruction ≡ nop)
      × (t.x_reg.data_stalled ≡ 0)
      × (t.m_reg.control_stalled ≡ 0)
      × (t.w_reg.stalled ≡ 0)
      × (t.program_counter ≡ f.program_counter)
      × (t.i_cache ≡ f.i_cache)
      × (t.d_cache ≡ f.d_cache)
      × (t.registers ≡ f.registers)
unfolding cycle
idle_cycle p l s (d, x, m, w, _, _, _) =
    rw
      (
        writeback_idle (enter_stage stage_w_bit started) w,
        memory_idle p l.new_w_reg (enter_stage stage_m_bit started) m,
        execute_idle p l.new_m_reg (enter_stage stage_x_bit started) x,
        decode_idle p l.new_x_reg (enter_stage stage_d_bit started) d,
      )
      (refl, refl, refl, refl, refl, refl, refl, refl, refl, refl, refl)
  where
    started : Machine
    started = record s { registers = register_reset_cycle s.registers }

-- The machine is lost for good: the state and what no cycle changes.
abbrev LostAt : ℕ → (ℕ → ℕ) → Machine → Type 0
LostAt pc file s = Lost s × (s.program_counter ≡ pc) × (s.registers.register_file ≡ file)

cycle-LostAt :
    (pc : ℕ) (file : ℕ → ℕ) (p : Unspecified) (l : Locals) (s : Machine)
    → LostAt pc file s
    → LostAt pc file (cycle p l s).1
cycle-LostAt pc file p l s (lost, at, kept) =
    let (d, u, pc', file') = Lost-fetch p l.new_d_reg s lost in
    let (dd, x, m, w, a, b, c, pc'', i, dc, r) = idle_cycle p l s lost.0 in
    let same = pc'' ∙ pc' in
    (
      (
        (ap (λ (q : StageRegD). q.instruction) dd ∙ d, x, m, w, a, b, c),
        rw (i, dc) u,
        rw same lost.2,
        rw same lost.3,
      ),
      same ∙ at,
      ap (λ (q : RegisterFile). q.register_file) r ∙ file' ∙ kept,
    )

-- A drained pipeline whose program counter has left the first 8 KB, with caches that have no
-- signatures, fetches nothing more: however long the loop runs, the program counter and the registers
-- stay, and no instruction gets into the pipeline.
pub simulate-Lost :
    (us : ℕ → Unspecified) (n : ℕ) (l : Locals) (s : Machine)
    → Lost s
    → let t = (simulator_execute_instructions us n l s).1 in
      (t.program_counter ≡ s.program_counter)
      × (t.registers.register_file ≡ s.registers.register_file)
      × Drained t
simulate-Lost us n l s lost =
    let (still, at, kept) =
      simulate-invariant (LostAt s.program_counter s.registers.register_file)
        (cycle-LostAt s.program_counter s.registers.register_file) us n l s (lost, refl, refl) in
    (at, kept, still.0)
