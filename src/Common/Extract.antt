-- ===== src/Common/Extract.antt =====
-- Bit fields cut out of a word by two shifts.
use native.Mathlib.Nat.{
  pow-suc, one-le-pow, mul-div-mul_left, div-add-mod', mod-lt, zero-add, suc-add, mul-add-div,
  div-eq_of_lt, mod-mod_of_dvd, dvd-mul_right,
}
use Prim.Native.Nat.{ℕ, zero, suc, ◌+◌, ◌-◌, ◌≤◌, ◌*◌, ◌/◌, ◌%◌, ◌^◌, ◌<◌}
use mathlib.Core.Path.{◌≡◌, ap}
use native.Mathlib.Omega.{arith}
use risc5_simulator.Common.Bits.{div-mod_unique}

pub pow-add : (a b : ℕ) → 2 ^ (a + b) ≡ 2 ^ a * 2 ^ b
pow-add zero b = rw zero-add (omega arith)
pow-add (suc a) b =
    rw suc-add
      (omega (arith, pow-suc 2 (a + b), ap (λ (t : ℕ). t * 2 ^ b) (pow-suc 2 a), pow-add a b))

scaled-lt : (a r m : ℕ) → r < m → 2 ^ a * r < 2 ^ a * m
scaled-lt a r m h = grind (arith, one-le-pow a 2)

-- Shifting a `w`-bit word left by `a`, so that the bits from `k` on are lost, leaves the low `k`
-- bits, shifted.
pub mod-shifted : (a k x : ℕ) → (x * 2 ^ a) % 2 ^ (a + k) ≡ 2 ^ a * (x % 2 ^ k)
mod-shifted a k x =
    (div-mod_unique (x / 2 ^ k) (2 ^ a * (x % 2 ^ k)) (2 ^ (a + k)) (x * 2 ^ a)
      (rw (pow-add a k) (omega (arith, ap (λ (t : ℕ). t * 2 ^ a) (div-add-mod' x (2 ^ k)))))
      (rw (pow-add a k)
        (scaled-lt a (x % 2 ^ k) (2 ^ k) (mod-lt x (one-le-pow k 2 (omega arith)))))).1

-- Left by `a` in a word of `a + k` bits, then right by `a + lo`: bits `lo` to `k - 1` are left.
shift_out : (a k lo x : ℕ) → (x * 2 ^ a) % 2 ^ (a + k) / 2 ^ (a + lo) ≡ x % 2 ^ k / 2 ^ lo
shift_out a k lo x =
    rw (mod-shifted a k x, pow-add a lo)
      (mul-div-mul_left (x % 2 ^ k) (2 ^ lo) (one-le-pow a 2 (omega arith)))

row-lt : (p q r n : ℕ) → q < n → r < p → p * q + r < p * n
row-lt p q r n h k = grind arith

-- The low `lo + n` bits from bit `lo` on are the `n` bits there.
mod-div-pow : (lo n x : ℕ) → x % 2 ^ (lo + n) / 2 ^ lo ≡ x / 2 ^ lo % 2 ^ n
mod-div-pow lo n x =
    rw (low, mul-add-div low_pos (y % 2 ^ n) (x % 2 ^ lo), div-eq_of_lt rest_lt) (omega arith)
  where
    y : ℕ
    y = x / 2 ^ lo

    low_pos : 0 < 2 ^ lo
    low_pos = one-le-pow lo 2 (omega arith)

    rest_lt : x % 2 ^ lo < 2 ^ lo
    rest_lt = mod-lt x low_pos

    fits : 2 ^ lo * (y % 2 ^ n) + x % 2 ^ lo < 2 ^ (lo + n)
    fits = rw (pow-add lo n) (
        row-lt (2 ^ lo) (y % 2 ^ n) (x % 2 ^ lo) (2 ^ n) (mod-lt y (one-le-pow n 2 (omega arith)))
          rest_lt)

    low : x % 2 ^ (lo + n) ≡ 2 ^ lo * (y % 2 ^ n) + x % 2 ^ lo
    low =
        (div-mod_unique (y / 2 ^ n) (2 ^ lo * (y % 2 ^ n) + x % 2 ^ lo) (2 ^ (lo + n)) x
          (rw (pow-add lo n) (
            omega (
              arith,
              div-add-mod' x (2 ^ lo),
              ap (λ (t : ℕ). t * 2 ^ lo) (div-add-mod' y (2 ^ n)),
            )))
          fits).1

-- Left by `a` in a word of `w` bits, then right by `b`: the `n` bits from bit `lo` on.
pub field_by_shifts :
    (w a b lo n x : ℕ)
    → w ≡ a + (lo + n)
    → b ≡ a + lo
    → (x * 2 ^ a) % 2 ^ w / 2 ^ b ≡ x / 2 ^ lo % 2 ^ n
field_by_shifts w a b lo n x e d = rw (e, d, shift_out a (lo + n) lo x) (mod-div-pow lo n x)

-- The low `k` bits of the low `k + r` bits.
mod-mod-pow : (k r y : ℕ) → y % 2 ^ (k + r) % 2 ^ k ≡ y % 2 ^ k
mod-mod-pow k r y = rw (pow-add k r) (mod-mod_of_dvd (2 ^ k) y (dvd-mul_right (2 ^ k) (2 ^ r)))

-- A byte that a word of `w` bits has is that of the number that the word was cut from.
pub byte_of-word :
    (w k x : ℕ) → 8 * k + 8 ≤ w → x % 2 ^ w / 2 ^ (8 * k) % 2 ^ 8 ≡ x / 2 ^ (8 * k) % 2 ^ 8
byte_of-word w k x h =
    let e : w ≡ 8 * k + (8 + (w - 8 * k - 8)) = omega arith in
    rw e (
      rw (mod-div-pow (8 * k) (8 + (w - 8 * k - 8)) x)
        (mod-mod-pow 8 (w - 8 * k - 8) (x / 2 ^ (8 * k))))
