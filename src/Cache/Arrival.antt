-- ===== src/Cache/Arrival.antt =====
-- A block of instructions that was asked for arrives in the instruction cache.
use risc5_simulator.Common.{ℕ, ◌+◌}
use risc5_simulator.Memory.{Memory}
use risc5_simulator.Cache.{Cache, word32}

-- The word of memory at an address.
abbrev word_at : ℕ → Memory → ℕ
word_at a m = word32 (λ i. m.bytes (a + i)) 0
