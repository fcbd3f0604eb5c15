-- ===== src/Loader/Verify.antt =====
-- What `verify_base` lets through.
use risc5_simulator.Common.{
  ℕ, ◌-◌, ◌^◌, ◌<◌, true, ltb, ◌≡◌, refl, sym, ◌∙◌, arith, [], ◌∷◌, if◌then◌else◌, Bool-cases, inl,
  inr,
}
use risc5_simulator.Text.{Bytes, scan, is_digit, strtol, between}
use risc5_simulator.Text.Digits.{all}
use risc5_simulator.Text.Reading.{strtol_octal_any}
use risc5_simulator.Loader.{verify_base, verify_digits, skip_0x}

-- Two hexadecimal digits.
pub verify_base_two :
    (c d : ℕ) → is_digit 16 c ≡ true → is_digit 16 d ≡ true → verify_base 16 (c ∷ d ∷ []) ≡ true
unfolding verify_base verify_digits skip_0x
verify_base_two c d hc hd = ground arith

skip_8 : (s : Bytes) → skip_0x 8 s ≡ s
unfolding skip_0x
skip_8 [] = refl
skip_8 (c ∷ []) = refl
skip_8 (c ∷ d ∷ s) = refl

octal_digit : (c : ℕ) → is_digit 8 c ≡ between b'0' b'7' c
octal_digit c = ground arith

verify_digits_octal : (s : Bytes) → verify_digits 8 s ≡ all (is_digit 8) s
unfolding verify_digits all
verify_digits_octal [] = refl
verify_digits_octal (c ∷ s) = elim (Bool-cases (between b'0' b'7' c)) [
  | inl e ↦ rw (octal_digit c, e) (verify_digits_octal s)
  | inr e ↦ rw (octal_digit c, e) refl
]

-- `verify_base` for octal numbers lets through the texts of octal digits and no others.
pub verify_base_octal : (s : Bytes) → verify_base 8 s ≡ all (is_digit 8) s
unfolding verify_base
verify_base_octal s = rw (skip_8 s) (verify_digits_octal s)

pub offset_lem :
    (c : ℕ) (s : Bytes)
    → verify_base 8 (c ∷ s) ≡ true
    → (strtol 8 (c ∷ s)
        ≡ (if ltb (scan 8 0 (c ∷ s)) (2 ^ 63) then scan 8 0 (c ∷ s) else 2 ^ 63 - 1))
      × (strtol 8 (c ∷ s) < 2 ^ 63)
offset_lem c s h =
    let digits = sym (verify_base_octal (c ∷ s)) ∙ h in
    let e = strtol_octal_any c s digits in (e, rw e (ground arith))
