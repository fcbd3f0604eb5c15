-- ===== src/Utils/SignExpand.antt =====
-- `sign_expand` and `unsign_expand`.
use native.Mathlib.Nat.{pow-suc, one-le-pow, div-eq_of_lt, mul_comm}
use Prim.Native.Nat.mul
use risc5_simulator.Common.{
  ℕ, zero, suc, ◌+◌, ◌-◌, ◌*◌, ◌%◌, ◌^◌, ◌≤◌, ◌<◌, ◌≡◌, sym, arith, u64, ◌<<<◌, ap, ◌∙◌, bit_and,
  bit_or, ltb, ◌==◌, sign_extend,
}
use risc5_simulator.Common.Bits.{
  bit_and-pow, bit_or-eq-add, bit_and-eq-mod, bit_and_comm, div-mod_unique,
}
use risc5_simulator.Common.Extract.{pow-add, mod-shifted}
use risc5_simulator.Utils.{sign_expand, unsign_expand}

low_half : (b x : ℕ) → x < 2 ^ b → bit_and x (2 ^ b) ≡ 0
low_half b x h = rw (bit_and-pow, div-eq_of_lt h) (omega arith)

high_half : (b x : ℕ) → 2 ^ b ≤ x → x < 2 ^ suc b → bit_and x (2 ^ b) ≡ 2 ^ b
high_half b x h h' =
    rw
      (
        bit_and-pow,
        (div-mod_unique 1 (x - 2 ^ b) (2 ^ b) x (omega arith) (omega (arith, pow-suc 2 b))).0,
      )
      (omega arith)

-- The bit that `sign_expand` tests, for a value of `b + 1` bits.
top_bit : (b x : ℕ) → x < 2 ^ suc b → (bit_and x (2 ^ b) == 0) ≡ ltb x (2 ^ b)
top_bit b x h = ground (arith, low_half b x, high_half b x, one-le-pow b 2)

one_less : (p k : ℕ) → 0 < p → (p - 1) * k + k ≡ p * k
one_less zero k h = absurd (omega arith)
one_less (suc p) k h = let e : suc p - 1 ≡ p = omega arith in rw e (omega (arith, mul.suc p k))

-- The mask of ones from bit `b` on, in a word of `w` bits.
high_mask : (w b k : ℕ) → w ≡ b + k → ((2 ^ w - 1) * 2 ^ b) % 2 ^ w ≡ (2 ^ k - 1) * 2 ^ b
high_mask w b k e = rw (e, mod-shifted b k (2 ^ (b + k) - 1), ones) (mul_comm (2 ^ b) (2 ^ k - 1))
  where
    ones : (2 ^ (b + k) - 1) % 2 ^ k ≡ 2 ^ k - 1
    ones =
        (div-mod_unique (2 ^ b - 1) (2 ^ k - 1) (2 ^ k) (2 ^ (b + k) - 1)
          (rw (pow-add b k) (
            omega (
              arith,
              one_less (2 ^ b) (2 ^ k) (one-le-pow b 2 (omega arith)),
              one-le-pow k 2 (omega arith),
            )))
          (omega (arith, one-le-pow k 2 (omega arith)))).1

-- `mask | imm` in `sign_expand`.
extended : (b x : ℕ) → b < 64 → x < 2 ^ b → bit_or (u64 ((2 ^ 64 - 1) <<< b)) x ≡ x + 2 ^ 64 - 2 ^ b
extended b x h g =
    rw (high_mask 64 b (64 - b) (omega arith), bit_or-eq-add b (2 ^ (64 - b) - 1) x g)
      (omega (arith, one_less (2 ^ (64 - b)) (2 ^ b) (one-le-pow (64 - b) 2 (omega arith)), whole))
  where
    whole : 2 ^ (64 - b) * 2 ^ b ≡ 2 ^ 64
    whole = let e : 64 - b + b ≡ 64 = omega arith in sym (pow-add (64 - b) b) ∙ ap (λ t. 2 ^ t) e

-- For a bit number `b` below 32 and a value of `b + 1` bits, `sign_expand` reads the value as
-- signed, and gives its 64-bit pattern.
pub sign_expand_lem : (b x : ℕ) → b < 32 → x < 2 ^ (b + 1) → sign_expand x b ≡ sign_extend (b + 1) x
unfolding sign_expand
sign_expand_lem b x hb hx =
    let e : b + 1 ≡ suc b = omega arith in ground (arith, e, top_bit b x, extended (b + 1) x)

-- On a 12-bit immediate, `unsign_expand` with bit 11 undoes `sign_expand` with bit 11.
pub unsign_expand-sign_expand : (x : ℕ) → x < 2 ^ 12 → unsign_expand (sign_expand x 11) 11 ≡ x
unfolding unsign_expand
unsign_expand-sign_expand x h = ground (
  arith,
  sign_expand_lem 11 x,
  bit_and-eq-mod 12 (sign_expand x 11),
  bit_and-pow 11 (sign_expand x 11),
  bit_and_comm (2 ^ 12 - 1) (sign_expand x 11),
)
