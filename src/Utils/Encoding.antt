-- ===== src/Utils/Encoding.antt =====
-- The instruction formats with an immediate, as the RISC-V manual lays them out, against `get_imm`.
use risc5_simulator.Common.{ℕ, ◌+◌, ◌*◌, ◌/◌, ◌%◌, ◌^◌, ◌<◌, ◌≡◌, arith, true, sign_extend, Bool}
use risc5_simulator.Utils.{get_imm, is_i, is_s, is_sb, is_u, is_uj}
use risc5_simulator.Utils.Fields.{get_opcode_lem}
use risc5_simulator.Utils.Immediates.{
  get_imm_i_lem, get_imm_s_lem, get_imm_sb_lem, get_imm_u_lem, get_imm_uj_lem,
}

pub data Format : Type 0 where
  i_type s_type sb_type u_type uj_type : Format

-- The registers and the function code beside an immediate; a format ignores what it lacks.
pub record Operands : Type 0 where
  pub rs2 : ℕ
  pub rs1 : ℕ
  pub funct3 : ℕ
  pub rd : ℕ

abbrev IsOperands : Operands → Type 0
IsOperands o = (o.rs2 < 2 ^ 5) × (o.rs1 < 2 ^ 5) × (o.funct3 < 2 ^ 3) × (o.rd < 2 ^ 5)

-- The 32-bit word of a format with immediate bits `imm`.
abbrev pub encode : Format → Operands → ℕ → ℕ → ℕ
encode Format.i_type o imm op =
    imm * 2 ^ 20 + o.rs1 * 2 ^ 15 + o.funct3 * 2 ^ 12 + o.rd * 2 ^ 7 + op
encode Format.s_type o imm op =
    imm / 2 ^ 5 * 2 ^ 25
    + o.rs2 * 2 ^ 20
    + o.rs1 * 2 ^ 15
    + o.funct3 * 2 ^ 12
    + imm % 2 ^ 5 * 2 ^ 7
    + op
encode Format.sb_type o imm op =
    imm / 2 ^ 12 * 2 ^ 31
    + imm / 2 ^ 5 % 2 ^ 6 * 2 ^ 25
    + o.rs2 * 2 ^ 20
    + o.rs1 * 2 ^ 15
    + o.funct3 * 2 ^ 12
    + imm / 2 % 2 ^ 4 * 2 ^ 8
    + imm / 2 ^ 11 % 2 * 2 ^ 7
    + op
encode Format.u_type o imm op = imm / 2 ^ 12 * 2 ^ 12 + o.rd * 2 ^ 7 + op
encode Format.uj_type o imm op =
    imm / 2 ^ 20 * 2 ^ 31
    + imm / 2 % 2 ^ 10 * 2 ^ 21
    + imm / 2 ^ 11 % 2 * 2 ^ 20
    + imm / 2 ^ 12 % 2 ^ 8 * 2 ^ 12
    + o.rd * 2 ^ 7
    + op

-- The width at which a format's immediate is signed.
abbrev imm_width : Format → ℕ
imm_width Format.i_type = 12
imm_width Format.s_type = 12
imm_width Format.sb_type = 13
imm_width Format.u_type = 32
imm_width Format.uj_type = 21

-- What a format can hold: offsets are even, and the immediate of U fills the high 20 bits.
abbrev IsImm : Format → ℕ → Type 0
IsImm Format.i_type imm = imm < 2 ^ 12
IsImm Format.s_type imm = imm < 2 ^ 12
IsImm Format.sb_type imm = (imm < 2 ^ 13) × (imm % 2 ≡ 0)
IsImm Format.u_type imm = (imm < 2 ^ 32) × (imm % 2 ^ 12 ≡ 0)
IsImm Format.uj_type imm = (imm < 2 ^ 21) × (imm % 2 ≡ 0)

-- The opcodes of a format.
abbrev has_format : Format → ℕ → Bool
has_format Format.i_type = is_i
has_format Format.s_type = is_s
has_format Format.sb_type = is_sb
has_format Format.u_type = is_u
has_format Format.uj_type = is_uj

-- From a word of any of the five formats that was put together from an opcode of the format,
-- operands within their widths and an immediate that the format can hold, `get_imm` reads that
-- immediate, sign-extended to 64 bits from the width of the format.
pub get_imm-encode :
    (f : Format) (o : Operands) (imm op : ℕ)
    → IsOperands o
    → IsImm f imm
    → op < 2 ^ 7
    → has_format f op ≡ true
    → get_imm (encode f o imm op) ≡ sign_extend (imm_width f) imm
unfolding get_imm is_i is_s is_sb is_u is_uj
get_imm-encode Format.i_type o imm op ho hi hop h =
    let x = encode Format.i_type o imm op in ground (arith, get_opcode_lem x, get_imm_i_lem x)
get_imm-encode Format.s_type o imm op ho hi hop h =
    let x = encode Format.s_type o imm op in ground (arith, get_opcode_lem x, get_imm_s_lem x)
get_imm-encode Format.sb_type o imm op ho hi hop h =
    let x = encode Format.sb_type o imm op in ground (arith, get_opcode_lem x, get_imm_sb_lem x)
get_imm-encode Format.u_type o imm op ho hi hop h =
    let x = encode Format.u_type o imm op in ground (arith, get_opcode_lem x, get_imm_u_lem x)
get_imm-encode Format.uj_type o imm op ho hi hop h =
    let x = encode Format.uj_type o imm op in ground (arith, get_opcode_lem x, get_imm_uj_lem x)
