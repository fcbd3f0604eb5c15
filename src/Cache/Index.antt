-- ===== src/Cache/Index.antt =====
-- The parts of an address that the caches use.
use risc5_simulator.Common.{ℕ, ◌+◌, ◌-◌, ◌/◌, ◌%◌, ◌^◌, ◌≤◌, ◌<◌, ◌≡◌, arith}
use risc5_simulator.Common.Extract.{field_by_shifts}
use risc5_simulator.Cache.{get_64bits}

get_64bits_lem :
    (x low high : ℕ)
    → low ≤ high
    → high < 64
    → get_64bits x low high ≡ x / 2 ^ low % 2 ^ (high - low + 1)
unfolding get_64bits
get_64bits_lem x low high p q =
    field_by_shifts 64 (63 - high) (64 - (high - low + 1)) low (high - low + 1) x (omega arith)
      (omega arith)

-- Line number, signature and offset of an address, for the instruction cache and for the data
-- cache, as quotients and remainders.
pub i_parts :
    (x : ℕ)
    → (get_64bits x 4 12 ≡ x / 16 % 512)
      × (get_64bits x 13 63 ≡ x / 2 ^ 13 % 2 ^ 51)
      × (get_64bits x 0 3 ≡ x % 16)
      × (get_64bits x 4 63 ≡ x / 16 % 2 ^ 60)
i_parts x = (
  get_64bits_lem x 4 12 (omega arith) (omega arith),
  get_64bits_lem x 13 63 (omega arith) (omega arith),
  omega (arith, get_64bits_lem x 0 3 (omega arith) (omega arith)),
  get_64bits_lem x 4 63 (omega arith) (omega arith),
)

pub d_parts :
    (x : ℕ)
    → (get_64bits x 3 13 ≡ x / 8 % 2048)
      × (get_64bits x 14 63 ≡ x / 2 ^ 14 % 2 ^ 50)
      × (get_64bits x 0 2 ≡ x % 8)
      × (get_64bits x 3 63 ≡ x / 8 % 2 ^ 61)
d_parts x = (
  get_64bits_lem x 3 13 (omega arith) (omega arith),
  get_64bits_lem x 14 63 (omega arith) (omega arith),
  omega (arith, get_64bits_lem x 0 2 (omega arith) (omega arith)),
  get_64bits_lem x 3 63 (omega arith) (omega arith),
)
