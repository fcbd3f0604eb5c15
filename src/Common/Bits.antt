-- ===== src/Common/Bits.antt =====
-- Bitwise `|`, `&` and `^` at variables, at every width. The native operations go down the binary
-- digits on fuel; here each gets its equation for the lowest digit, and from these come the sums of
-- disjoint fields, the masks and the bounds.
use Prim.Native.Nat.{
  ℕ, zero, suc, ◌+◌, ◌-◌, ◌*◌, ◌/◌, ◌%◌, ◌^◌, ◌≤◌, ◌<◌, min, max, digits, bit_and, bit_or,
  bit_and-bitwise, bit_or-bitwise,
}
use mathlib.Core.Path.{◌≡◌, refl, ap}
use native.Mathlib.Nat.{
  pow-suc, one-le-pow, div-eq_of_lt-le, mul-add-mod_self_right, mod-eq_of_lt, div-add-mod', mod-lt,
}
use native.Mathlib.Omega.{arith}

module _ (z : ℕ → ℕ) (f : ℕ → ℕ → ℕ) where
  -- Any fuel from the first number on gives the same digits.
  digits_enough : (n m a b : ℕ) → a ≤ n → a ≤ m → digits z f n a b ≡ digits z f m a b
  digits_enough zero zero a b p q = refl
  digits_enough zero (suc m) zero b p q = refl
  digits_enough (suc n) zero zero b p q = refl
  digits_enough (suc n) (suc m) zero b p q = refl
  digits_enough zero (suc m) (suc a) b p q = absurd (omega arith)
  digits_enough (suc n) zero (suc a) b p q = absurd (omega arith)
  digits_enough (suc n) (suc m) (suc a) b p q =
      ap (λ t. t * 2 + f (suc a % 2) (b % 2))
        (digits_enough n m (suc a / 2) (b / 2) (omega arith) (omega arith))

  lowest :
      (a b : ℕ)
      → digits z f (suc a) (suc a) b
        ≡ digits z f (suc a / 2) (suc a / 2) (b / 2) * 2 + f (suc a % 2) (b % 2)
  lowest a b =
      ap (λ t. t * 2 + f (suc a % 2) (b % 2))
        (digits_enough a (suc a / 2) (suc a / 2) (b / 2) (omega arith) (omega arith))

bit_or_digit : (a b : ℕ) → bit_or a b ≡ bit_or (a / 2) (b / 2) * 2 + max (a % 2) (b % 2)
bit_or_digit zero b = omega (arith, bit_or-bitwise 0 b, bit_or-bitwise 0 (b / 2))
bit_or_digit (suc a) b =
    omega
      (arith, bit_or-bitwise (suc a) b, bit_or-bitwise (suc a / 2) (b / 2), lowest (λ y. y) max a b)

bit_and_digit : (a b : ℕ) → bit_and a b ≡ bit_and (a / 2) (b / 2) * 2 + min (a % 2) (b % 2)
bit_and_digit zero b = omega (arith, bit_and-bitwise 0 b, bit_and-bitwise 0 (b / 2))
bit_and_digit (suc a) b =
    omega (
      arith,
      bit_and-bitwise (suc a) b,
      bit_and-bitwise (suc a / 2) (b / 2),
      lowest (λ y. 0) min a b,
    )

-- With `0` on the right, by strong induction in the form of fuel.
or-zero_below : (n a : ℕ) → a ≤ n → bit_or a 0 ≡ a
or-zero_below n zero h = refl
or-zero_below zero (suc a) h = absurd (omega arith)
or-zero_below (suc n) (suc a) h =
    omega (arith, bit_or_digit (suc a) 0, or-zero_below n (suc a / 2) (omega arith))

and-zero_below : (n a : ℕ) → a ≤ n → bit_and a 0 ≡ 0
and-zero_below n zero h = refl
and-zero_below zero (suc a) h = absurd (omega arith)
and-zero_below (suc n) (suc a) h =
    omega (arith, bit_and_digit (suc a) 0, and-zero_below n (suc a / 2) (omega arith))

bit_or-zero : (a : ℕ) → bit_or a 0 ≡ a
bit_or-zero a = or-zero_below a a (omega arith)

pub zero-bit_or : (b : ℕ) → bit_or 0 b ≡ b
zero-bit_or b = bit_or-bitwise 0 b

pub bit_and-zero : (a : ℕ) → bit_and a 0 ≡ 0
bit_and-zero a = and-zero_below a a (omega arith)

and_comm_below : (n a b : ℕ) → a ≤ n → bit_and a b ≡ bit_and b a
and_comm_below n zero b h = omega (arith, bit_and-bitwise 0 b, bit_and-zero b)
and_comm_below zero (suc a) b h = absurd (omega arith)
and_comm_below (suc n) (suc a) b h = omega (
  arith,
  bit_and_digit (suc a) b,
  bit_and_digit b (suc a),
  and_comm_below n (suc a / 2) (b / 2) (omega arith),
)

pub bit_and_comm : (a b : ℕ) → bit_and a b ≡ bit_and b a
bit_and_comm a b = and_comm_below a a b (omega arith)

-- `2 ^ suc k` times a number, with the factor 2 outside.
double : (q k : ℕ) → q * 2 ^ suc k ≡ 2 * (q * 2 ^ k)
double q k = omega (arith, ap (λ (t : ℕ). q * t) (pow-suc 2 k))

-- `|` of a number shifted left and one that fits below it is their sum.
pub bit_or-eq-add : (k q r : ℕ) → r < 2 ^ k → bit_or (q * 2 ^ k) r ≡ q * 2 ^ k + r
bit_or-eq-add zero q r h = ground (arith, bit_or-zero (q * 1))
bit_or-eq-add (suc k) q r h = ground (
  arith,
  bit_or_digit (q * 2 ^ suc k) r,
  double q k,
  pow-suc 2 k,
  bit_or-eq-add k q (r / 2) (omega (arith, pow-suc 2 k)),
)

-- `|` works on the two sides of any cut apart.
pub bit_or_split :
    (k q r q' r' : ℕ)
    → r < 2 ^ k
    → r' < 2 ^ k
    → bit_or (q * 2 ^ k + r) (q' * 2 ^ k + r') ≡ bit_or q q' * 2 ^ k + bit_or r r'
bit_or_split zero q zero q' zero h h' = ground (arith, bit_or-zero 0)
bit_or_split zero q zero q' (suc r') h h' = absurd (omega arith)
bit_or_split zero q (suc r) q' r' h h' = absurd (omega arith)
bit_or_split (suc k) q r q' r' h h' = ground (
  arith,
  bit_or_digit (q * 2 ^ suc k + r) (q' * 2 ^ suc k + r'),
  bit_or_digit r r',
  double q k,
  double q' k,
  double (bit_or q q') k,
  bit_or_split k q (r / 2) q' (r' / 2) (omega (arith, pow-suc 2 k)) (omega (arith, pow-suc 2 k)),
)

-- `|` of a field of `j` bits into a word that has zeros there, from bit `k` on.
pub bit_or_between :
    (k j q r m : ℕ)
    → r < 2 ^ k
    → m < 2 ^ j
    → bit_or (q * 2 ^ j * 2 ^ k + r) (m * 2 ^ k) ≡ (q * 2 ^ j + m) * 2 ^ k + r
bit_or_between k j q r m h g = ground (
  arith,
  bit_or_split k (q * 2 ^ j) r m 0 h (one-le-pow k 2 (omega arith)),
  bit_or-eq-add j q m g,
  bit_or-zero r,
)

-- Quotient and remainder are what they must be.
pub div-mod_unique : (q r m n : ℕ) → n ≡ q * m + r → r < m → (n / m ≡ q) × (n % m ≡ r)
div-mod_unique q r m n e h = (
  div-eq_of_lt-le m (omega arith) (omega arith),
  rw (e, mul-add-mod_self_right q m r) (mod-eq_of_lt h),
)

-- Division and remainder by `2 ^ suc k`, with the lowest digit split off.
div-mod-pow_suc :
    (k a : ℕ) → (a / 2 ^ suc k ≡ a / 2 / 2 ^ k) × (a % 2 ^ suc k ≡ a / 2 % 2 ^ k * 2 + a % 2)
div-mod-pow_suc k a =
    div-mod_unique (a / 2 / 2 ^ k) (a / 2 % 2 ^ k * 2 + a % 2) (2 ^ suc k) a
      (omega (arith, double (a / 2 / 2 ^ k) k, div-add-mod' (a / 2) (2 ^ k)))
      (omega (arith, pow-suc 2 k, mod-lt (a / 2) (one-le-pow k 2 (omega arith))))

half-mask : (k : ℕ) → ((2 ^ suc k - 1) / 2 ≡ 2 ^ k - 1) × ((2 ^ suc k - 1) % 2 ≡ 1)
half-mask k = omega (arith, pow-suc 2 k, one-le-pow k 2 (omega arith))

-- `&` with `k` ones is the remainder by `2 ^ k`.
pub bit_and-eq-mod : (k a : ℕ) → bit_and a (2 ^ k - 1) ≡ a % 2 ^ k
bit_and-eq-mod zero a = omega (arith, bit_and-zero a)
bit_and-eq-mod (suc k) a = ground (
  arith,
  bit_and_digit a (2 ^ suc k - 1),
  half-mask k,
  bit_and-eq-mod k (a / 2),
  div-mod-pow_suc k a,
)

half-pow : (k : ℕ) → (2 ^ suc k / 2 ≡ 2 ^ k) × (2 ^ suc k % 2 ≡ 0)
half-pow k = omega (arith, pow-suc 2 k)

-- `&` with one bit keeps that bit.
pub bit_and-pow : (k a : ℕ) → bit_and a (2 ^ k) ≡ a / 2 ^ k % 2 * 2 ^ k
bit_and-pow zero a = ground (arith, bit_and_digit a 1, bit_and-zero (a / 2))
bit_and-pow (suc k) a = ground (
  arith,
  bit_and_digit a (2 ^ suc k),
  half-pow k,
  bit_and-pow k (a / 2),
  div-mod-pow_suc k a,
  double (a / 2 / 2 ^ k % 2) k,
)

-- No operation leaves the width of its operands.
pub bit_or-lt : (k a b : ℕ) → a < 2 ^ k → b < 2 ^ k → bit_or a b < 2 ^ k
bit_or-lt zero a b p q = ground (arith, bit_or_digit a b)
bit_or-lt (suc k) a b p q = omega (
  arith,
  bit_or_digit a b,
  pow-suc 2 k,
  bit_or-lt k (a / 2) (b / 2) (omega (arith, pow-suc 2 k)) (omega (arith, pow-suc 2 k)),
)

or-one_odd : (q : ℕ) → bit_or q 1 % 2 ≡ 1
or-one_odd q = omega (arith, bit_or_digit q 1)

-- A bit that was set by `|` is found by `&`.
pub bit_and-bit_or_pow : (k a : ℕ) → bit_and (bit_or a (2 ^ k)) (2 ^ k) ≡ 2 ^ k
bit_and-bit_or_pow k a = rw (bit_and-pow, quotient, or-one_odd (a / 2 ^ k)) (omega arith)
  where
    pos : 0 < 2 ^ k
    pos = one-le-pow k 2 (omega arith)

    cut : bit_or a (2 ^ k) ≡ bit_or (a / 2 ^ k) 1 * 2 ^ k + bit_or (a % 2 ^ k) 0
    cut = ground (
      arith,
      bit_or_split k (a / 2 ^ k) (a % 2 ^ k) 1 0 (mod-lt a pos) pos,
      div-add-mod' a (2 ^ k),
    )

    quotient : bit_or a (2 ^ k) / 2 ^ k ≡ bit_or (a / 2 ^ k) 1
    quotient =
        (div-mod_unique (bit_or (a / 2 ^ k) 1) (bit_or (a % 2 ^ k) 0) (2 ^ k) (bit_or a (2 ^ k)) cut
          (rw (bit_or-zero (a % 2 ^ k)) (mod-lt a pos))).0
