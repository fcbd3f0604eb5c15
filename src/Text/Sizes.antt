-- ===== src/Text/Sizes.antt =====
-- How many words a string has, and how long the lines are that `fgets` reads.
use risc5_simulator.Common.{
  ℕ, ◌+◌, ◌-◌, ◌*◌, ◌≤◌, ◌<◌, Bool, ◌==◌, ◌||◌, arith, Bool-cases, inl, inr, List, [], ◌∷◌, length,
}
use risc5_simulator.Text.{Bytes, c_string, push_word, words, tokens, cut_lines, fgets_all}

length-push_word :
    (w : Bytes) (ws : List Bytes) → 2 * length (push_word w ws) ≤ 2 * length ws + length w + 1
length-push_word [] ws = omega arith
length-push_word (c ∷ w) ws = omega arith

length-words :
    (sep : ℕ → Bool) (s : Bytes) → 2 * length (words sep s).1 + length (words sep s).0 ≤ length s
unfolding words
length-words sep [] = omega arith
length-words sep (c ∷ s) = elim (Bool-cases (sep c)) [
  | inl e ↦
      rw e (omega (arith, length-words sep s, length-push_word (words sep s).0 (words sep s).1))
  | inr e ↦ rw e (omega (arith, length-words sep s))
]

-- Each word takes a letter and all but the last a separator.
pub length-tokens : (sep : ℕ → Bool) (s : Bytes) → 2 * length (tokens sep s) ≤ length s + 1
unfolding tokens
length-tokens sep s =
    omega (arith, length-words sep s, length-push_word (words sep s).0 (words sep s).1)

pub length-c_string : (s : Bytes) → length (c_string s) ≤ length s
unfolding c_string
length-c_string [] = omega arith
length-c_string (c ∷ s) = elim (Bool-cases (c == 0)) [
  | inl e ↦ rw e (omega arith)
  | inr e ↦ rw e (omega (arith, length-c_string s))
]

-- Whether no line is longer than `n` bytes.
pub data Within (n : ℕ) : List Bytes → Type 0 where
  nil : Within n []
  cons :
      {line : Bytes} {lines : List Bytes}
      → length line ≤ n
      → Within n lines
      → Within n (line ∷ lines)

push-Within :
    (n : ℕ) (line : Bytes) (lines : List Bytes)
    → length line ≤ n
    → Within n lines
    → Within n (push_word line lines)
push-Within n [] lines h w = w
push-Within n (c ∷ line) lines h w = Within.cons h w

cut_lines-Within :
    (n left : ℕ) (s : Bytes)
    → 0 < n
    → 0 < left
    → (length (cut_lines n left s).0 ≤ left) × Within n (cut_lines n left s).1
unfolding cut_lines
cut_lines-Within n left [] hn h = (omega arith, Within.nil)
cut_lines-Within n left (c ∷ s) hn h = elim (Bool-cases (c == b'\n' || left == 1)) [
  | inl e ↦
      let (le, w) = cut_lines-Within n n s hn hn in
      rw e (omega arith, push-Within n (cut_lines n n s).0 (cut_lines n n s).1 le w)
  | inr e ↦
      let (le, w) = cut_lines-Within n (left - 1) s hn (ground arith) in rw e (omega (arith, le), w)
]

pub fgets_all-Within : (n : ℕ) (s : Bytes) → 0 < n → Within n (fgets_all n s)
unfolding fgets_all
fgets_all-Within n s h =
    let (le, w) = cut_lines-Within n n s h h in
    push-Within n (cut_lines n n s).0 (cut_lines n n s).1 le w
