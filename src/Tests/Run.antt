-- ===== src/Tests/Run.antt =====
-- The cycle and the loop.
use risc5_simulator.Common.{◌^◌, ◌≡◌, refl, arith, if◌then◌else◌}
use risc5_simulator.Samples.{memory_with, typical, boot, zero_locals, adding}
use risc5_simulator.Btb.{empty_btb}
use risc5_simulator.Btb.Invariant.{empty-IsValid}
use risc5_simulator.Machine.{Machine}
use risc5_simulator.Pipeline.{nop, fetch_pc}
use risc5_simulator.Pipeline.Prediction.{predicted_next}
use risc5_simulator.Pipeline.Fetch.{fetched}
use risc5_simulator.Simulator.{cycle, simulator_execute_instructions, execute_unpipelined, zero_m}
use risc5_simulator.Simulator.Squash.{at_fetch, cycle-squashes, cycle-redirects}
use risc5_simulator.Simulator.Invariant.{WellFormed, simulate-WellFormed}
use risc5_simulator.Simulator.Unpipelined.{unpipelined-memory}
use risc5_simulator.Simulator.Waiting.{Drained, simulate-Lost}

-- `jal x1, 64` from address 8 in M, with its link address as result.
abbrev jumping : Machine
jumping = record (boot adding 0) {
  m_reg = record zero_m { instruction = 0x040000ef; res = 12; control_stalled = 1; new_pc = 72 };
}

cycle-squashes_example :
    ((cycle typical zero_locals jumping).1.w_reg.instruction ≡ nop)
    × ((cycle typical zero_locals jumping).1.m_reg.instruction ≡ nop)
    × ((cycle typical zero_locals jumping).1.m_reg.control_stalled ≡ 0)
    × ((cycle typical zero_locals jumping).1.x_reg.instruction ≡ nop)
cycle-squashes_example = cycle-squashes typical zero_locals jumping refl

cycle-redirects_example :
    (fetch_pc (at_fetch jumping) ≡ 72)
    × ((cycle typical zero_locals jumping).1.program_counter
        ≡ (if (fetched typical (at_fetch jumping)).0 then predicted_next 72 empty_btb else 0))
    × ((cycle typical zero_locals jumping).1.d_reg.instruction ≡ (
        if (fetched typical (at_fetch jumping)).0
        then (fetched typical (at_fetch jumping)).1
        else nop))
cycle-redirects_example = cycle-redirects typical zero_locals jumping refl refl

simulate-WellFormed_example :
    WellFormed (simulator_execute_instructions (λ _. typical) 100 zero_locals (boot adding 3)).1
simulate-WellFormed_example =
    simulate-WellFormed (λ _. typical) 100 zero_locals (boot adding 3)
      ((λ _. refl, λ _. refl), empty-IsValid, (refl, refl))

-- The program counter has left the first 8 KB.
abbrev far : Machine
far = record (boot adding 0) { program_counter = 2 ^ 13 }

abbrev far_end : Machine
far_end = (simulator_execute_instructions (λ _. typical) 100 zero_locals far).1

simulate-Lost_example :
    (far_end.program_counter ≡ 2 ^ 13)
    × (far_end.registers.register_file ≡ (λ _. 0))
    × Drained far_end
simulate-Lost_example =
    simulate-Lost (λ _. typical) 100 zero_locals far
      ((refl, refl, refl, refl, refl, refl, refl), (λ _. refl, λ _. refl), omega arith, omega arith)

unpipelined-memory_example :
    (execute_unpipelined (λ _. typical) 100 (λ _. 0) (boot adding 0)).memory ≡ memory_with adding 0
unpipelined-memory_example = unpipelined-memory (λ _. typical) 100 (λ _. 0) (boot adding 0) refl
