-- ===== src/Tests.antt =====
-- Runs of the model at concrete inputs, and instances of the theorems.
mod Code
mod Store
mod Stage
mod Run
mod Program
mod Console
mod Straight
use risc5_simulator.Common.{ℕ, ◌≡◌, refl, ◌∷◌, []}
use risc5_simulator.Samples.{typical, boot, zero_locals, adding}
use risc5_simulator.Simulator.{
  cycle, read_inst, simulator_execute_instructions, execute_unpipelined,
}
