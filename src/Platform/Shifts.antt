-- ===== src/Platform/Shifts.antt =====
-- The arithmetic shift to the right, as the sign extension of the quotient.
use native.Mathlib.Nat.{one-le-pow, div-add-mod', mod-lt, div-lt_iff_lt-mul}
use risc5_simulator.Common.{
  ℕ, Bool, ◌+◌, ◌-◌, ◌*◌, ◌/◌, ◌%◌, ◌^◌, ◌<◌, ◌≡◌, refl, sym, ap, ◌↔◌, ◌∙◌, arith, true, false,
  sign_extend,
}
use risc5_simulator.Common.Bits.{div-mod_unique}
use risc5_simulator.Common.Extract.{pow-add}
use risc5_simulator.Platform.{arithmetic}

-- The branches of the shifts of the platform.
pub within : (b : Bool) (x y : ℕ) → b ≡ true → elim b [ true ↦ x | false ↦ y ] ≡ x
within true x y e = refl
within false x y e = cc

pub beyond : (b : Bool) (x y : ℕ) → b ≡ false → elim b [ true ↦ x | false ↦ y ] ≡ y
beyond true x y e = cc
beyond false x y e = refl

complement : (w k q r : ℕ) → q < w → r < k → w * k - 1 - (q * k + r) ≡ (w - 1 - q) * k + (k - 1 - r)
complement w k q r h g =
    let e : w ≡ q + 1 + (w - 1 - q) = omega arith in omega (arith, ap (λ (t : ℕ). t * k) e)

-- For a 64-bit pattern and a distance below 64.
pub arithmetic_lem :
    (x k : ℕ) → x < 2 ^ 64 → k < 64 → arithmetic 64 x k ≡ sign_extend (64 - k) (x / 2 ^ k)
arithmetic_lem x k hx hk = rw half_exponent (ground (arith, small, quotient, below_top))
  where
    half_exponent : 64 - k - 1 ≡ 63 - k
    half_exponent = omega arith

    one : 0 < 2 ^ k
    one = one-le-pow k 2 (omega arith)

    top : 2 ^ (64 - k) * 2 ^ k ≡ 2 ^ 64
    top = let e : 64 - k + k ≡ 64 = omega arith in sym (pow-add (64 - k) k) ∙ ap (λ t. 2 ^ t) e

    half : 2 ^ (63 - k) * 2 ^ k ≡ 2 ^ 63
    half = let e : 63 - k + k ≡ 63 = omega arith in sym (pow-add (63 - k) k) ∙ ap (λ t. 2 ^ t) e

    below_top : x / 2 ^ k < 2 ^ (64 - k)
    below_top = (div-lt_iff_lt-mul one).1 (rw top hx)

    small : (x < 2 ^ 63) ↔ (x / 2 ^ k < 2 ^ (63 - k))
    small =
        (λ h. (div-lt_iff_lt-mul one).1 (rw half h), λ h. rw half at ((div-lt_iff_lt-mul one).0 h))

    quotient : (2 ^ 64 - 1 - x) / 2 ^ k ≡ 2 ^ (64 - k) - 1 - x / 2 ^ k
    quotient =
        (div-mod_unique (2 ^ (64 - k) - 1 - x / 2 ^ k) (2 ^ k - 1 - x % 2 ^ k) (2 ^ k)
          (2 ^ 64 - 1 - x)
          (omega (
            arith,
            complement (2 ^ (64 - k)) (2 ^ k) (x / 2 ^ k) (x % 2 ^ k) below_top (mod-lt x one),
            top,
            div-add-mod' x (2 ^ k),
          ))
          (omega (arith, one))).0
