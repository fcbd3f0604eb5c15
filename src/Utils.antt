-- ===== src/Utils.antt =====
-- utils.h and utils.c: fields of an instruction word, immediates, and the classes of opcodes.
-- A `uint32_t` or `uint64_t` is a number; what wraps is cut off by `u32` and `u64`.
pub mod Fields
pub mod SignExpand
pub mod Immediates
pub mod Encoding
use risc5_simulator.Common.{
  ℕ, ◌+◌, ◌-◌, ◌^◌, bit_and, bit_or, Bool, ◌||◌, u32, u64, ◌<<<◌, ◌>>>◌, ◌==◌, if◌then◌else◌,
}

abbrev pub load : ℕ
load = 0x03

abbrev pub save : ℕ
save = 0x23

abbrev pub jalr_opcode : ℕ
jalr_opcode = 0x67

abbrev pub jal_opcode : ℕ
jal_opcode = 0x6f

-- `((uint64_t)-1)`
abbrev allmask : ℕ
allmask = 2 ^ 64 - 1

abbrev wordlength : ℕ
wordlength = 32

unfoldable pub get_bits : ℕ → ℕ → ℕ → ℕ
get_bits instruction low high =
    u32 (instruction <<< (wordlength - 1 - high)) >>> (wordlength - (high - low + 1))

unfoldable pub get_opcode : ℕ → ℕ
get_opcode instruction = get_bits instruction 0 6

unfoldable pub get_rd : ℕ → ℕ
get_rd instruction = get_bits instruction 7 11

unfoldable pub get_funct3 : ℕ → ℕ
get_funct3 instruction = get_bits instruction 12 14

unfoldable pub get_rs1 : ℕ → ℕ
get_rs1 instruction = get_bits instruction 15 19

unfoldable pub get_rs2 : ℕ → ℕ
get_rs2 instruction = get_bits instruction 20 24

unfoldable pub get_funct7 : ℕ → ℕ
get_funct7 instruction = get_bits instruction 25 31

-- `1 << bit_num` is computed in `int` and meets a `uint32_t`, so it is bit `bit_num` up to 31.
unfoldable pub sign_expand : ℕ → ℕ → ℕ
sign_expand imm bit_num =
    let msb = bit_and imm (2 ^ bit_num) in
    let mask = u64 (allmask <<< (bit_num + 1)) in if msb == 0 then imm else bit_or mask imm

-- Here `1 << bit_num` meets a `uint64_t`: at bit 31 the `int` is negative and is sign-extended.
int_bit : ℕ → ℕ
int_bit bit_num = if bit_num == 31 then 2 ^ 64 - 2 ^ 31 else 2 ^ bit_num

pub unsign_expand : ℕ → ℕ → ℕ
unfolding int_bit
unsign_expand imm bit_num =
    let msb = bit_and imm (int_bit bit_num) in
    let mask = allmask >>> (63 - bit_num) in if msb == 0 then imm else bit_and mask imm

unfoldable pub get_imm_i : ℕ → ℕ
get_imm_i instruction = let imm = get_bits instruction 20 31 in sign_expand imm 11

pub get_imm_s : ℕ → ℕ
get_imm_s instruction =
    let low_bits = get_bits instruction 7 11 in
    let high_bits = get_bits instruction 25 31 in
    let imm = bit_or (u32 (high_bits <<< 5)) low_bits in sign_expand imm 11

pub get_imm_sb : ℕ → ℕ
get_imm_sb instruction =
    let imm1 = u32 (get_bits instruction 31 31 <<< 12) in
    let imm2 = u32 (get_bits instruction 25 30 <<< 5) in
    let imm3 = u32 (get_bits instruction 8 11 <<< 1) in
    let imm4 = u32 (get_bits instruction 7 7 <<< 11) in
    let imm = bit_or (bit_or (bit_or imm1 imm2) imm3) imm4 in sign_expand imm 12

pub get_imm_u : ℕ → ℕ
get_imm_u instruction =
    let imm = get_bits instruction 12 31 in let imm' = u32 (imm <<< 12) in sign_expand imm' 31

unfoldable pub get_imm_uj : ℕ → ℕ
get_imm_uj instruction =
    let imm1 = u32 (get_bits instruction 31 31 <<< 20) in
    let imm2 = u32 (get_bits instruction 21 30 <<< 1) in
    let imm3 = u32 (get_bits instruction 20 20 <<< 11) in
    let imm4 = u32 (get_bits instruction 12 19 <<< 12) in
    let imm = bit_or (bit_or (bit_or imm1 imm2) imm3) imm4 in sign_expand imm 20

unfoldable pub is_r : ℕ → Bool
is_r opcode = opcode == 0x33 || opcode == 0x3b

unfoldable pub is_i : ℕ → Bool
is_i opcode = opcode == 0x03 || opcode == 0x13 || opcode == 0x1b || opcode == 0x67 || opcode == 0x73

unfoldable pub is_s : ℕ → Bool
is_s opcode = opcode == 0x23

unfoldable pub is_sb : ℕ → Bool
is_sb opcode = opcode == 0x63

unfoldable pub is_u : ℕ → Bool
is_u opcode = opcode == 0x37 || opcode == 0x17

unfoldable pub is_uj : ℕ → Bool
is_uj opcode = opcode == 0x6f

unfoldable pub is_branch : ℕ → Bool
unfolding is_sb
is_branch opcode = is_sb opcode || opcode == jalr_opcode || opcode == jal_opcode

unfoldable pub has_rs1 : ℕ → Bool
unfolding is_r is_i is_s is_sb
has_rs1 opcode = is_r opcode || is_i opcode || is_s opcode || is_sb opcode

unfoldable pub has_rs2 : ℕ → Bool
unfolding is_r is_s is_sb
has_rs2 opcode = is_r opcode || is_s opcode || is_sb opcode

unfoldable pub has_rd : ℕ → Bool
unfolding is_r is_i is_u is_uj
has_rd opcode = is_r opcode || is_i opcode || is_u opcode || is_uj opcode

unfoldable pub has_imm : ℕ → Bool
unfolding is_i is_s is_sb is_uj is_u
has_imm opcode = is_i opcode || is_s opcode || is_sb opcode || is_uj opcode || is_u opcode

unfoldable pub get_imm : ℕ → ℕ
get_imm instruction =
    let opcode = get_opcode instruction in
    if is_i opcode
    then get_imm_i instruction
    else if is_s opcode
    then get_imm_s instruction
    else if is_sb opcode
    then get_imm_sb instruction
    else if is_u opcode
    then get_imm_u instruction
    else if is_uj opcode
    then get_imm_uj instruction
    else 0
