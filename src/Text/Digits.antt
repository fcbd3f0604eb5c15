-- ===== src/Text/Digits.antt =====
-- Laws of the digits that `printf` prints and `strtol` reads.
use risc5_simulator.Common.{
  ℕ, zero, suc, ◌+◌, ◌*◌, ◌/◌, ◌%◌, ◌^◌, ◌≤◌, ◌<◌, Bool, true, false, ◌&&◌, ◌≡◌, refl, ap, arith,
  [], ◌∷◌, ◌++◌, length,
}
use native.Mathlib.Nat.{pow-zero, pow-suc, div-add-mod', mod-lt, div-lt_iff_lt-mul}
use risc5_simulator.Text.{Bytes, scan, digit_value, digit_char, is_digit, print_padded}

unfoldable pub all : (ℕ → Bool) → Bytes → Bool
all p [] = true
all p (c ∷ s) = p c && all p s

pub and_split : (a b : Bool) → a && b ≡ true → (a ≡ true) × (b ≡ true)
and_split true b h = (refl, h)
and_split false b h = ground arith

pub all-append :
    (p : ℕ → Bool) (s t : Bytes) → all p s ≡ true → all p t ≡ true → all p (s ++ t) ≡ true
unfolding all
all-append p [] t h k = k
all-append p (x ∷ s) t h k =
    let (hx, hs) = and_split (p x) (all p s) h in rw (hx, all-append p s t hs k) refl

pub all_mono :
    (p q : ℕ → Bool)
    → ((c : ℕ) → p c ≡ true → q c ≡ true)
    → (s : Bytes) → all p s ≡ true
    → all q s ≡ true
unfolding all
all_mono p q imp [] h = refl
all_mono p q imp (x ∷ s) h =
    let (hx, hs) = and_split (p x) (all p s) h in rw (imp x hx, all_mono p q imp s hs) refl

pub digit_value-digit_char : (d : ℕ) → d < 16 → digit_value (digit_char d) ≡ d
digit_value-digit_char d h = ground arith

pub is_digit-digit_char : (base d : ℕ) → d < base → base ≤ 16 → is_digit base (digit_char d) ≡ true
is_digit-digit_char base d h k = rw (digit_value-digit_char d (omega arith)) (ground arith)

pub scan_snoc :
    (base n c : ℕ) (s : Bytes)
    → all (is_digit base) s ≡ true
    → is_digit base c ≡ true
    → scan base n (s ++ c ∷ []) ≡ scan base n s * base + digit_value c
unfolding scan all
scan_snoc base n c [] h hc = rw hc refl
scan_snoc base n c (x ∷ s) h hc =
    let (hx, hs) = and_split (is_digit base x) (all (is_digit base) s) h in
    rw hx (scan_snoc base (n * base + digit_value x) c s hs hc)

pub print_padded_zero : (base : ℕ) → print_padded base 0 0 ≡ []
unfolding print_padded
print_padded_zero base = refl

pub print_padded-suc :
    (base w n : ℕ)
    → print_padded base (suc w) n ≡ print_padded base w (n / base) ++ digit_char (n % base) ∷ []
unfolding print_padded
print_padded-suc base w n = refl

length_snoc : (s : Bytes) (c : ℕ) → length (s ++ c ∷ []) ≡ suc (length s)
length_snoc [] c = refl
length_snoc (x ∷ s) c = ap suc (length_snoc s c)

quotient_lt : (base w n : ℕ) → 1 < base → n < base ^ suc w → n / base < base ^ w
quotient_lt base w n hb h =
    let big : n < base ^ w * base = omega (arith, h, pow-suc base w) in
    (div-lt_iff_lt-mul {k = base} {x = n} {y = base ^ w} (omega arith)).1 big

pub all_one : (p : ℕ → Bool) (c : ℕ) → p c ≡ true → all p (c ∷ []) ≡ true
unfolding all
all_one p c h = rw h refl

-- Printed with `w` digits, a number below `base ^ w` is nothing but `w` digits.
pub print_padded_digits :
    (base w n : ℕ)
    → 1 < base
    → base ≤ 16
    → n < base ^ w
    → (all (is_digit base) (print_padded base w n) ≡ true) × (length (print_padded base w n) ≡ w)
unfolding all
print_padded_digits base zero n hb hc h =
    let z : n ≡ 0 = omega (arith, pow-zero base) in rw (z, print_padded_zero base) (refl, refl)
print_padded_digits base (suc w) n hb hc h =
    let (digits, len) = print_padded_digits base w (n / base) hb hc (quotient_lt base w n hb h) in
    let last = is_digit-digit_char base (n % base) (mod-lt n (omega arith)) hc in
    rw
      (
        print_padded-suc base w n,
        length_snoc (print_padded base w (n / base)) (digit_char (n % base)),
        len,
      )
      (
        all-append (is_digit base) (print_padded base w (n / base)) (digit_char (n % base) ∷ [])
            digits (all_one (is_digit base) (digit_char (n % base)) last),
        refl,
      )

recombine : (base q r m P : ℕ) → (m * P + q) * base + r ≡ m * (P * base) + (q * base + r)
recombine base q r m P = grind arith

-- What is printed in a base is read back in it.
pub scan-print_padded :
    (base w m n : ℕ)
    → 1 < base
    → base ≤ 16
    → n < base ^ w
    → scan base m (print_padded base w n) ≡ m * base ^ w + n
unfolding scan
scan-print_padded base zero m n hb hc h =
    let z : n ≡ 0 = omega (arith, pow-zero base) in
    rw (z, print_padded_zero base) (rw (pow-zero base) (omega arith))
scan-print_padded base (suc w) m n hb hc h =
    let small = quotient_lt base w n hb h in
    let r : n % base < base = mod-lt n (omega arith) in
    let (digits, _) = print_padded_digits base w (n / base) hb hc small in
    rw
      (
        print_padded-suc base w n,
        scan_snoc base m (digit_char (n % base)) (print_padded base w (n / base)) digits
            (is_digit-digit_char base (n % base) r hc),
        scan-print_padded base w m (n / base) hb hc small,
        digit_value-digit_char (n % base) (omega arith),
        recombine base (n / base) (n % base) m (base ^ w),
        pow-suc base w,
      )
      (ap (λ (t : ℕ). m * (base ^ w * base) + t) (div-add-mod' n base))
