-- ===== src/Tests/Code.antt =====
-- Encoding, decoding and execution of instruction words.
use risc5_simulator.Common.{ℕ, ◌-◌, ◌^◌, ◌≡◌, refl, arith, true, false}
use risc5_simulator.Samples.{typical}
use risc5_simulator.Isa.{AluOp, BranchOp, WordOp}
use risc5_simulator.Utils.{
  get_bits, get_opcode, get_funct3, get_funct7, get_rd, get_rs1, get_rs2, get_imm, sign_expand,
  is_sb,
}
use risc5_simulator.Utils.Fields.{encode_r, get_bits_lem, fields_complete}
use risc5_simulator.Utils.Encoding.{Format, Operands, encode, get_imm-encode}
use risc5_simulator.Executor.Register.{exec_r}
use risc5_simulator.Executor.RegisterLaws.{exec_r-alu, exec_r-word}
use risc5_simulator.Executor.Immediate.{exec_i}
use risc5_simulator.Executor.ImmediateLaws.{
  exec_i-alu, exec_i-sltiu, exec_i-slli, ShiftedRight, exec_i_shift_right,
}
use risc5_simulator.Executor.Control.{exec_sb}
use risc5_simulator.Executor.ControlLaws.{exec_sb-taken}

-- `sub x3, x1, x2` and `addw x3, x1, x2`.
abbrev sub_word : ℕ
sub_word = 0x402081b3

abbrev addw_word : ℕ
addw_word = 0x002081bb

sub_codes : (get_opcode sub_word ≡ 0x33) × (get_funct3 sub_word ≡ 0) × (get_funct7 sub_word ≡ 0x20)
unfolding get_opcode get_funct3 get_funct7 get_bits
sub_codes = (refl, refl, refl)

exec_r-alu_example : exec_r typical sub_word 5 7 ≡ 2 ^ 64 - 2
exec_r-alu_example =
    exec_r-alu typical AluOp.sub sub_word 5 7 sub_codes (omega arith) (omega arith) refl

addw_codes : (get_opcode addw_word ≡ 0x3b) × (get_funct3 addw_word ≡ 0) × (get_funct7 addw_word ≡ 0)
unfolding get_opcode get_funct3 get_funct7 get_bits
addw_codes = (refl, refl, refl)

exec_r-word_example : exec_r typical addw_word (2 ^ 31 - 1) 1 ≡ 2 ^ 31
exec_r-word_example = exec_r-word typical WordOp.addw addw_word (2 ^ 31 - 1) 1 addw_codes refl

-- `slti x1, x2, -1`, `sltiu x1, x2, -1`, `slli x1, x2, 4` and `srai x1, x2, 4`.
abbrev slti_word : ℕ
slti_word = 0xfff12093

abbrev sltiu_word : ℕ
sltiu_word = 0xfff13093

abbrev slli_word : ℕ
slli_word = 0x00411093

abbrev srai_word : ℕ
srai_word = 0x40415093

codes :
    ((get_opcode slti_word ≡ 0x13) × (get_funct3 slti_word ≡ 2))
    × ((get_opcode sltiu_word ≡ 0x13) × (get_funct3 sltiu_word ≡ 3))
    × ((get_opcode slli_word ≡ 0x13) × (get_funct3 slli_word ≡ 1))
    × ((get_opcode srai_word ≡ 0x13) × (get_funct3 srai_word ≡ 5))
unfolding get_opcode get_funct3 get_bits
codes = ((refl, refl), (refl, refl), (refl, refl), (refl, refl))

exec_i-alu_example : exec_i typical slti_word (2 ^ 64 - 5) (2 ^ 64 - 1) ≡ 1
exec_i-alu_example =
    exec_i-alu typical AluOp.slt slti_word (2 ^ 64 - 5) (2 ^ 64 - 1) refl codes.0.0 codes.0.1
      (omega arith) (omega arith)

exec_i-sltiu_example : exec_i typical sltiu_word 5000 (sign_expand 4095 11) ≡ 0
exec_i-sltiu_example = exec_i-sltiu typical sltiu_word 5000 4095 codes.1.0 codes.1.1 (omega arith)

exec_i-slli_example : exec_i typical slli_word 3 4 ≡ 1
exec_i-slli_example =
    exec_i-slli typical slli_word 3 4 codes.2.0 codes.2.1 (omega arith) (omega arith)

exec_i_shift_right_example :
    ShiftedRight typical srai_word 0x120 (exec_i typical srai_word 0x120 (get_imm srai_word))
exec_i_shift_right_example =
    exec_i_shift_right typical srai_word 0x120 (omega arith) codes.3.0 codes.3.1

-- `bge x1, x2, 8` with the first operand greater.
abbrev bge_word : ℕ
bge_word = 0x0020d463

bge_codes : (get_opcode bge_word ≡ 0x63) × (get_funct3 bge_word ≡ 5)
unfolding get_opcode get_funct3 get_bits
bge_codes = (refl, refl)

exec_sb-taken_example : exec_sb bge_word 9 4 ≡ false
exec_sb-taken_example =
    exec_sb-taken BranchOp.bge bge_word 9 4 bge_codes.0 bge_codes.1 (omega arith) (omega arith)

get_bits_example : get_bits sub_word 25 31 ≡ 0x20
get_bits_example = get_bits_lem sub_word 25 31 (omega arith) (omega arith)

fields_complete_example :
    encode_r
      (get_funct7 bge_word)
      (get_rs2 bge_word)
      (get_rs1 bge_word)
      (get_funct3 bge_word)
      (get_rd bge_word)
      (get_opcode bge_word)
    ≡ bge_word
fields_complete_example = fields_complete bge_word (omega arith)

-- `beq x1, x2, -8`
abbrev beq_operands : Operands
beq_operands = record { rs2 = 2; rs1 = 1; funct3 = 0; rd = 0 }

branch_opcode : is_sb 0x63 ≡ true
unfolding is_sb
branch_opcode = refl

get_imm-encode_example : get_imm (encode Format.sb_type beq_operands 0x1ff8 0x63) ≡ 2 ^ 64 - 8
get_imm-encode_example =
    get_imm-encode Format.sb_type beq_operands 0x1ff8 0x63
      (omega arith, omega arith, omega arith, omega arith) (omega arith, refl) (omega arith)
      branch_opcode
