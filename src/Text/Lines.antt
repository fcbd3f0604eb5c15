-- ===== src/Text/Lines.antt =====
-- Laws of `fgets`.
use risc5_simulator.Common.{
  ℕ, zero, suc, ◌-◌, ◌≤◌, ◌<◌, true, false, ◌==◌, ◌!=◌, ◌||◌, ◌≡◌, refl, ap, ◌∙◌, arith, [], ◌∷◌,
  ◌++◌, length, append_assoc, Bool-cases, inl, inr,
}
use risc5_simulator.Text.{Bytes, cut_lines, fgets_all, fgets}
use risc5_simulator.Text.Digits.{all, and_split}

cut_line :
    (n left : ℕ) (body s : Bytes)
    → all (λ c. c != b'\n') body ≡ true
    → length body < left
    → cut_lines n left (body ++ b'\n' ∷ s) ≡ (body ++ b'\n' ∷ [], fgets_all n s)
unfolding cut_lines fgets_all all
cut_line n left [] s h k = refl
cut_line n left (c ∷ body) s h k =
    let (hc, hs) = and_split (c != b'\n') (all (λ x. x != b'\n') body) h in
    let ends : (c == b'\n' || left == 1) ≡ false = ground arith in
    let room : length body < left - 1 = omega arith in
    rw (ends, cut_line n (left - 1) body s hs room) refl

-- A line that fits is read as it is, and the next ones after it.
pub fgets_all_line :
    (n : ℕ) (body s : Bytes)
    → all (λ x. x != b'\n') body ≡ true
    → length body < n
    → fgets_all n ((body ++ b'\n' ∷ []) ++ s) ≡ (body ++ b'\n' ∷ []) ∷ fgets_all n s
unfolding fgets_all
fgets_all_line n [] s h k = refl
fgets_all_line n (c ∷ body) s h k =
    ap (fgets_all n) (append_assoc (c ∷ body) (b'\n' ∷ []) s)
    ∙ rw (cut_line n n (c ∷ body) s h k) refl

-- `fgets` leaves no more than there was, and less if it has room for a byte.
fgets_le : (n : ℕ) (s : Bytes) → length (fgets n s).1 ≤ length s
unfolding fgets
fgets_le zero s = omega arith
fgets_le (suc n) [] = omega arith
fgets_le (suc n) (c ∷ s) = elim (Bool-cases (c == b'\n')) [
  | inl e ↦ rw e (omega arith)
  | inr e ↦ rw e (omega (arith, fgets_le n s))
]

pub fgets_lt : (n c : ℕ) (s : Bytes) → length (fgets (suc n) (c ∷ s)).1 ≤ length s
unfolding fgets
fgets_lt n c s = elim (Bool-cases (c == b'\n')) [
  | inl e ↦ rw e (omega arith)
  | inr e ↦ rw e (fgets_le n s)
]
