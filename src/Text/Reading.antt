-- ===== src/Text/Reading.antt =====
-- Laws of the numbers and words that are read from a text.
use risc5_simulator.Common.{
  ℕ, ◌^◌, ◌<◌, Bool, true, false, ltb, ◌==◌, ◌!=◌, not, ◌≡◌, refl, ◌-◌, arith, [], ◌∷◌, ◌++◌,
  length, if◌then◌else◌,
}
use risc5_simulator.Text.{Bytes, c_string, scan, is_digit, strtol, skip_space, sign, words, tokens}
use risc5_simulator.Text.Digits.{all, and_split}

pub c_string_lem : (s : Bytes) → all (λ c. c != 0) s ≡ true → c_string s ≡ s
unfolding c_string all
c_string_lem [] h = refl
c_string_lem (c ∷ s) h =
    let (hc, hs) = and_split (c != 0) (all (λ x. x != 0) s) h in
    let here : c == 0 ≡ false = ground arith in rw (here, c_string_lem s hs) refl

-- No space and no sign stands in front of a digit.
sign_digit : (c : ℕ) (s : Bytes) → is_digit 16 c ≡ true → sign (skip_space (c ∷ s)) ≡ (false, c ∷ s)
unfolding sign skip_space
sign_digit c s h = ground arith

-- Octal digits are read as they stand, up to the greatest `long`.
pub strtol_octal_any :
    (c : ℕ) (s : Bytes)
    → all (is_digit 8) (c ∷ s) ≡ true
    → strtol 8 (c ∷ s) ≡ (if ltb (scan 8 0 (c ∷ s)) (2 ^ 63) then scan 8 0 (c ∷ s) else 2 ^ 63 - 1)
unfolding strtol all
strtol_octal_any c s digits =
    let (hc, _) = and_split (is_digit 8 c) (all (is_digit 8) s) digits in
    let hc' : is_digit 16 c ≡ true = ground arith in rw (sign_digit c s hc') refl

pub strtol_octal :
    (s : Bytes)
    → 0 < length s
    → all (is_digit 8) s ≡ true
    → scan 8 0 s < 2 ^ 63
    → strtol 8 s ≡ scan 8 0 s
strtol_octal [] h digits small = ground arith
strtol_octal (c ∷ s) h digits small = rw (strtol_octal_any c s digits) (ground arith)

-- Two hexadecimal digits.
pub strtol_two :
    (c d : ℕ)
    → is_digit 16 c ≡ true
    → scan 16 0 (c ∷ d ∷ []) < 2 ^ 63
    → strtol 16 (c ∷ d ∷ []) ≡ scan 16 0 (c ∷ d ∷ [])
unfolding strtol
strtol_two c d h small = rw (sign_digit c (d ∷ []) h) (ground arith)

-- A word stays in one piece up to the next separator.
pub words-append :
    (sep : ℕ → Bool) (w : Bytes) (c : ℕ) (s : Bytes)
    → all (λ x. not (sep x)) w ≡ true
    → sep c ≡ true
    → words sep (w ++ c ∷ s) ≡ (w, tokens sep s)
unfolding words tokens all
words-append sep [] c s h hc = rw hc refl
words-append sep (x ∷ w) c s h hc =
    let (hx, hw) = and_split (not (sep x)) (all (λ y. not (sep y)) w) h in
    let here : sep x ≡ false = ground arith in rw (words-append sep w c s hw hc, here) refl

-- Whether a separator stands in front.
abbrev pub starts : (ℕ → Bool) → Bytes → Bool
starts sep [] = false
starts sep (c ∷ _) = sep c

pub tokens-sep :
    (sep : ℕ → Bool) (c : ℕ) (s : Bytes) → sep c ≡ true → tokens sep (c ∷ s) ≡ tokens sep s
unfolding tokens words
tokens-sep sep c s h = rw h refl

pub tokens_nil : (sep : ℕ → Bool) → tokens sep [] ≡ []
unfolding tokens words
tokens_nil sep = refl

pub tokens_word :
    (sep : ℕ → Bool) (w s : Bytes)
    → 0 < length w
    → all (λ x. not (sep x)) w ≡ true
    → starts sep s ≡ true
    → tokens sep (w ++ s) ≡ w ∷ tokens sep s
unfolding tokens
tokens_word sep [] s hl h hs = ground arith
tokens_word sep (x ∷ w) [] hl h hs = ground arith
tokens_word sep (x ∷ w) (c ∷ s) hl h hs =
    rw (words-append sep (x ∷ w) c s h hs, tokens-sep sep c s hs) refl
