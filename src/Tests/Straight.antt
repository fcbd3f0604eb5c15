-- ===== src/Tests/Straight.antt =====
-- A straight-line program in the pipeline.
use risc5_simulator.Common.{ℕ, ◌*◌, ◌/◌, ◌%◌, ◌==◌, if◌then◌else◌, [], ◌∷◌}
use risc5_simulator.Samples.{program, boot}
use risc5_simulator.Machine.{Machine}
use risc5_simulator.Straight.{Straight}

-- `addi x1, x0, 5` and `addi x2, x1, 7` by turns; the second one waits for the first.
abbrev turns : ℕ → ℕ
turns a = if a / 4 % 2 == 0 then 0x00500093 else 0x00708113

abbrev turning : Machine
turning = boot (program (0x00500093 ∷ 0x00708113 ∷ 0x00500093 ∷ 0x00708113 ∷ [])) 0

-- The first four words are in the instruction cache.
abbrev warm : Machine
warm = record turning {
  i_cache = λ n. record { sig = 0; block = λ j. turns (4 * j); valid = n == 0 };
}
