-- ===== src/RoundTrip/Digits.antt =====
-- The text of a line of a dump, as the load of a hex file reads it.
use risc5_simulator.Common.{ℕ, ◌/◌, ◌%◌, ◌<◌, true, ◌≡◌, refl, sym, ap, ◌∙◌, arith, [], ◌∷◌}
use risc5_simulator.Text.{Bytes, scan, is_digit, strtol, digit_char, print_padded}
use risc5_simulator.Text.Digits.{
  print_padded_zero, print_padded-suc, is_digit-digit_char, scan-print_padded,
}
use risc5_simulator.Text.Reading.{strtol_two}
use risc5_simulator.Loader.{verify_base}
use risc5_simulator.Loader.Verify.{verify_base_two}

-- The two digits of a byte.
unfoldable pub two_digits : ℕ → Bytes
two_digits b = digit_char (b / 16) ∷ digit_char (b % 16) ∷ []

pub print_padded_byte : (b : ℕ) → b < 256 → print_padded 16 2 b ≡ two_digits b
unfolding two_digits
print_padded_byte b h =
    let z : b / 16 / 16 ≡ 0 = omega arith in
    let m : b / 16 % 16 ≡ b / 16 = omega arith in
    rw (print_padded-suc 16 1 b, print_padded-suc 16 0 (b / 16), z, m, print_padded_zero 16) refl

pub hex_digit : (d : ℕ) → d < 16 → is_digit 16 (digit_char d) ≡ true
hex_digit d h = is_digit-digit_char 16 d h (omega arith)

pub byte_strtol : (b : ℕ) → b < 256 → strtol 16 (two_digits b) ≡ b
unfolding two_digits
byte_strtol b h =
    strtol_two (digit_char (b / 16)) (digit_char (b % 16)) (hex_digit (b / 16) (omega arith))
      (omega (arith, read))
    ∙ read
  where
    read : scan 16 0 (two_digits b) ≡ b
    read =
        ap (scan 16 0) (sym (print_padded_byte b h))
        ∙ scan-print_padded 16 2 0 b (omega arith) (omega arith) (omega arith)
        ∙ omega arith

pub byte_verify : (b : ℕ) → b < 256 → verify_base 16 (two_digits b) ≡ true
unfolding two_digits
byte_verify b h =
    verify_base_two (digit_char (b / 16)) (digit_char (b % 16)) (hex_digit (b / 16) (omega arith))
      (hex_digit (b % 16) (omega arith))
