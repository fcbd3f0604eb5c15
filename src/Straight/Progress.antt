-- ===== src/Straight/Progress.antt =====
-- The pipeline gets on with a straight-line program.
use risc5_simulator.Common.{ℕ, ◌+◌, ◌*◌, ◌≤◌, true, false, ◌==◌, ◌≡◌}
use risc5_simulator.Platform.{Unspecified}
use risc5_simulator.Cache.{word32}
use risc5_simulator.Machine.{Machine}
use risc5_simulator.Pipeline.{fetch_pc}
use risc5_simulator.Pipeline.Fetch.{fetched}
use risc5_simulator.Simulator.{Locals, read_inst, ebreak}
use risc5_simulator.Straight.{Straight}
use risc5_simulator.Straight.Cycle.{in_fetch}
use risc5_simulator.Straight.Decode.{wait}
use risc5_simulator.Straight.Refinement.{Executed}

-- A cycle that is run, as the word at the program counter is not EBREAK, and in which the fetch hits
-- and gives the word of the program.
abbrev pub Hits : Unspecified → (ℕ → ℕ) → Locals → Machine → Type 0
Hits p code l s =
    ((word32 (read_inst l.inst s) 0 == ebreak) ≡ false)
    × ((fetched p (in_fetch s)).0 ≡ true)
    × ((fetched p (in_fetch s)).1 ≡ code (fetch_pc (in_fetch s)))

-- So many cycles have executed enough instructions.
Paced : Unspecified → (ℕ → ℕ) → ℕ → Machine → Machine → Type 0
Paced p code n s t = (r : Executed p code s t) × (n + wait t ≤ 3 * r.count + wait s)
