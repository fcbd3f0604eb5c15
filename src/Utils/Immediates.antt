-- ===== src/Utils/Immediates.antt =====
-- The immediates of the five formats: `get_imm` undoes the encodings of the RISC-V manual.
use risc5_simulator.Common.{
  ℕ, ◌+◌, ◌*◌, ◌/◌, ◌%◌, ◌^◌, ◌<◌, ◌≡◌, arith, u32, ◌<<<◌, bit_or, sign_extend,
}
use risc5_simulator.Common.Bits.{bit_or-eq-add, bit_or_between}
use risc5_simulator.Utils.{get_bits, get_imm_i, get_imm_s, get_imm_sb, get_imm_u, get_imm_uj}
use risc5_simulator.Utils.Fields.{get_bits_lem}
use risc5_simulator.Utils.SignExpand.{sign_expand_lem}

pub get_imm_i_lem : (x : ℕ) → x < 2 ^ 32 → get_imm_i x ≡ sign_extend 12 (x / 2 ^ 20)
unfolding get_imm_i
get_imm_i_lem x h =
    let e : x / 2 ^ 20 % 2 ^ 12 ≡ x / 2 ^ 20 = omega arith in
    rw (get_bits_lem x 20 31 (omega arith) (omega arith), e)
      (sign_expand_lem 11 (x / 2 ^ 20) (omega arith) (omega arith))

pub get_imm_s_lem :
    (x : ℕ) → x < 2 ^ 32 → get_imm_s x ≡ sign_extend 12 (x / 2 ^ 25 * 2 ^ 5 + x / 2 ^ 7 % 2 ^ 5)
unfolding get_imm_s
get_imm_s_lem x h = rw pieces (sign_expand_lem 11 _ (omega arith) (omega arith))
  where
    pieces :
        bit_or (u32 (get_bits x 25 31 <<< 5)) (get_bits x 7 11)
        ≡ x / 2 ^ 25 * 2 ^ 5 + x / 2 ^ 7 % 2 ^ 5
    pieces = ground (
      arith,
      get_bits_lem x 25 31,
      get_bits_lem x 7 11,
      bit_or-eq-add 5 (x / 2 ^ 25) (x / 2 ^ 7 % 2 ^ 5),
    )

pub get_imm_u_lem : (x : ℕ) → x < 2 ^ 32 → get_imm_u x ≡ sign_extend 32 (x / 2 ^ 12 * 2 ^ 12)
unfolding get_imm_u
get_imm_u_lem x h = rw pieces (sign_expand_lem 31 _ (omega arith) (omega arith))
  where
    pieces : u32 (get_bits x 12 31 <<< 12) ≡ x / 2 ^ 12 * 2 ^ 12
    pieces = ground (arith, get_bits_lem x 12 31)

-- The 13 bits of a branch offset, gathered from the word.
abbrev sb_bits : ℕ → ℕ
sb_bits x =
    x / 2 ^ 31 * 2 ^ 12
    + x / 2 ^ 7 % 2 * 2 ^ 11
    + x / 2 ^ 25 % 2 ^ 6 * 2 ^ 5
    + x / 2 ^ 8 % 2 ^ 4 * 2

pub get_imm_sb_lem : (x : ℕ) → x < 2 ^ 32 → get_imm_sb x ≡ sign_extend 13 (sb_bits x)
unfolding get_imm_sb
get_imm_sb_lem x h = rw pieces (sign_expand_lem 12 (sb_bits x) (omega arith) (omega arith))
  where
    high :
        bit_or (x / 2 ^ 31 * 2 ^ 12) (x / 2 ^ 25 % 2 ^ 6 * 2 ^ 5)
        ≡ x / 2 ^ 31 * 2 ^ 12 + x / 2 ^ 25 % 2 ^ 6 * 2 ^ 5
    high = bit_or-eq-add 12 (x / 2 ^ 31) (x / 2 ^ 25 % 2 ^ 6 * 2 ^ 5) (omega arith)

    pieces :
        bit_or
          (bit_or
            (bit_or (u32 (get_bits x 31 31 <<< 12)) (u32 (get_bits x 25 30 <<< 5)))
            (u32 (get_bits x 8 11 <<< 1)))
          (u32 (get_bits x 7 7 <<< 11))
        ≡ sb_bits x
    pieces = ground (
      arith,
      get_bits_lem x 31 31,
      get_bits_lem x 25 30,
      get_bits_lem x 8 11,
      get_bits_lem x 7 7,
      high,
      bit_or-eq-add 5 (x / 2 ^ 31 * 2 ^ 7 + x / 2 ^ 25 % 2 ^ 6) (x / 2 ^ 8 % 2 ^ 4 * 2),
      bit_or_between 11 1 (x / 2 ^ 31) (x / 2 ^ 25 % 2 ^ 6 * 2 ^ 5 + x / 2 ^ 8 % 2 ^ 4 * 2)
          (x / 2 ^ 7 % 2),
    )

-- The 21 bits of a jump offset, gathered from the word.
abbrev uj_bits : ℕ → ℕ
uj_bits x =
    x / 2 ^ 31 * 2 ^ 20
    + x / 2 ^ 12 % 2 ^ 8 * 2 ^ 12
    + x / 2 ^ 20 % 2 * 2 ^ 11
    + x / 2 ^ 21 % 2 ^ 10 * 2

pub get_imm_uj_lem : (x : ℕ) → x < 2 ^ 32 → get_imm_uj x ≡ sign_extend 21 (uj_bits x)
unfolding get_imm_uj
get_imm_uj_lem x h = rw pieces (sign_expand_lem 20 (uj_bits x) (omega arith) (omega arith))
  where
    pieces :
        bit_or
          (bit_or
            (bit_or (u32 (get_bits x 31 31 <<< 20)) (u32 (get_bits x 21 30 <<< 1)))
            (u32 (get_bits x 20 20 <<< 11)))
          (u32 (get_bits x 12 19 <<< 12))
        ≡ uj_bits x
    pieces = ground (
      arith,
      get_bits_lem x 31 31,
      get_bits_lem x 21 30,
      get_bits_lem x 20 20,
      get_bits_lem x 12 19,
      bit_or-eq-add 20 (x / 2 ^ 31) (x / 2 ^ 21 % 2 ^ 10 * 2),
      bit_or_between 11 9 (x / 2 ^ 31) (x / 2 ^ 21 % 2 ^ 10 * 2) (x / 2 ^ 20 % 2),
      bit_or_between 12 8 (x / 2 ^ 31) (x / 2 ^ 20 % 2 * 2 ^ 11 + x / 2 ^ 21 % 2 ^ 10 * 2)
          (x / 2 ^ 12 % 2 ^ 8),
    )
