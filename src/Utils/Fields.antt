-- ===== src/Utils/Fields.antt =====
-- What the shifts of `get_bits` compute, and so each getter.
use risc5_simulator.Common.{ℕ, ◌+◌, ◌-◌, ◌*◌, ◌/◌, ◌%◌, ◌^◌, ◌≤◌, ◌<◌, ◌≡◌, arith}
use risc5_simulator.Common.Extract.{field_by_shifts}
use risc5_simulator.Utils.{get_bits, get_opcode, get_rd, get_funct3, get_rs1, get_rs2, get_funct7}

-- The field in bits `low` to `high` of a word.
abbrev field : ℕ → ℕ → ℕ → ℕ
field x low high = x / 2 ^ low % 2 ^ (high - low + 1)

-- `get_bits x low high` is the field in bits `low` to `high`, for every pair of bit numbers of a
-- 32-bit word.
pub get_bits_lem :
    (x low high : ℕ) → low ≤ high → high < 32 → get_bits x low high ≡ field x low high
unfolding get_bits
get_bits_lem x low high p q =
    field_by_shifts 32 (31 - high) (32 - (high - low + 1)) low (high - low + 1) x (omega arith)
      (omega arith)

pub get_opcode_lem : (x : ℕ) → get_opcode x ≡ x % 2 ^ 7
unfolding get_opcode
get_opcode_lem x = omega (arith, get_bits_lem x 0 6 (omega arith) (omega arith))

pub get_rd_lem : (x : ℕ) → get_rd x ≡ x / 2 ^ 7 % 2 ^ 5
unfolding get_rd
get_rd_lem x = get_bits_lem x 7 11 (omega arith) (omega arith)

get_funct3_lem : (x : ℕ) → get_funct3 x ≡ x / 2 ^ 12 % 2 ^ 3
unfolding get_funct3
get_funct3_lem x = get_bits_lem x 12 14 (omega arith) (omega arith)

pub get_rs1_lem : (x : ℕ) → get_rs1 x ≡ x / 2 ^ 15 % 2 ^ 5
unfolding get_rs1
get_rs1_lem x = get_bits_lem x 15 19 (omega arith) (omega arith)

pub get_rs2_lem : (x : ℕ) → get_rs2 x ≡ x / 2 ^ 20 % 2 ^ 5
unfolding get_rs2
get_rs2_lem x = get_bits_lem x 20 24 (omega arith) (omega arith)

pub get_funct7_lem : (x : ℕ) → get_funct7 x ≡ x / 2 ^ 25 % 2 ^ 7
unfolding get_funct7
get_funct7_lem x = get_bits_lem x 25 31 (omega arith) (omega arith)

-- The six fields of an R-type word, from the high bits down.
abbrev pub encode_r : ℕ → ℕ → ℕ → ℕ → ℕ → ℕ → ℕ
encode_r funct7 rs2 rs1 funct3 rd opcode =
    funct7 * 2 ^ 25 + rs2 * 2 ^ 20 + rs1 * 2 ^ 15 + funct3 * 2 ^ 12 + rd * 2 ^ 7 + opcode

-- The six getters take a 32-bit word apart without loss: put together again in the order of the
-- R format, their results are the word.
pub fields_complete :
    (x : ℕ)
    → x < 2 ^ 32
    → encode_r (get_funct7 x) (get_rs2 x) (get_rs1 x) (get_funct3 x) (get_rd x) (get_opcode x) ≡ x
fields_complete x h = omega (
  arith,
  get_opcode_lem x,
  get_rd_lem x,
  get_funct3_lem x,
  get_rs1_lem x,
  get_rs2_lem x,
  get_funct7_lem x,
)

-- The getters read from an R-type word the fields that it was put together from, each within its
-- width.
pub fields-encode_r :
    (funct7 rs2 rs1 funct3 rd opcode : ℕ)
    → funct7 < 2 ^ 7
    → rs2 < 2 ^ 5
    → rs1 < 2 ^ 5
    → funct3 < 2 ^ 3
    → rd < 2 ^ 5
    → opcode < 2 ^ 7
    → let x = encode_r funct7 rs2 rs1 funct3 rd opcode in
      (get_funct7 x ≡ funct7)
      × (get_rs2 x ≡ rs2)
      × (get_rs1 x ≡ rs1)
      × (get_funct3 x ≡ funct3)
      × (get_rd x ≡ rd)
      × (get_opcode x ≡ opcode)
fields-encode_r funct7 rs2 rs1 funct3 rd opcode h7 h2 h1 h3 hd ho =
    let x = encode_r funct7 rs2 rs1 funct3 rd opcode in
    omega (
      arith,
      get_opcode_lem x,
      get_rd_lem x,
      get_funct3_lem x,
      get_rs1_lem x,
      get_rs2_lem x,
      get_funct7_lem x,
    )
