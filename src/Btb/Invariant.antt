-- ===== src/Btb/Invariant.antt =====
-- No address has two valid entries in the branch target buffer, and what that gives the lookups.
use risc5_simulator.Common.{
  ℕ, zero, suc, ◌+◌, ◌%◌, ◌^◌, ◌≤◌, ◌<◌, ◌≡◌, refl, arith, ◌∙◌, Bool, true, false, ◌&&◌, ◌==◌,
  if◌then◌else◌, List, [], ◌∷◌, length, set, length-set, replicate,
}
use risc5_simulator.Btb.{
  Btb, BtbEntry, entry_num, empty_btb, find_entry, delete_entry, found_btb, update_btb, delete_btb,
}

-- Whether an entry predicts for `pc`.
abbrev predicts : ℕ → BtbEntry → Bool
predicts pc e = e.pc == pc && e.valid

-- How many entries predict for `pc`.
abbrev pub count_valid : ℕ → List BtbEntry → ℕ
count_valid pc [] = 0
count_valid pc (e ∷ rest) = (if predicts pc e then 1 else 0) + count_valid pc rest

-- The table has its 32 entries, the next one to fill is counted in a `uint8_t`, and at most one
-- entry is valid for an address.
pub record IsValid (b : Btb) : Type 0 where
  pub size : length b.entries ≡ entry_num
  pub small : b.idx < 2 ^ 8
  pub unique : (pc : ℕ) → count_valid pc b.entries ≤ 1

found-count :
    (pc d : ℕ) (es : List BtbEntry) → (find_entry pc d es).0 ≡ false → count_valid pc es ≡ 0
unfolding find_entry
found-count pc d [] h = refl
found-count pc d (e ∷ es) h = ground (arith, found-count pc d es)

pub count-found :
    (pc d : ℕ) (es : List BtbEntry) → (find_entry pc d es).0 ≡ true → 0 < count_valid pc es
unfolding find_entry
count-found pc d [] h = cc
count-found pc d (e ∷ es) h = ground (arith, count-found pc d es)

-- One entry is overwritten, by one that is valid for `pc`.
count-set :
    (pc t q i : ℕ) (es : List BtbEntry)
    → count_valid q (set es i (record { pc = pc; predict_pc = t; valid = true }))
      ≤ count_valid q es + (if pc == q then 1 else 0)
count-set pc t q i [] = ground arith
count-set pc t q zero (e ∷ es) = ground arith
count-set pc t q (suc i) (e ∷ es) = ground (arith, count-set pc t q i es)

count-delete :
    (pc q : ℕ) (es : List BtbEntry) → count_valid q (delete_entry pc es) ≤ count_valid q es
unfolding delete_entry
count-delete pc q [] = omega arith
count-delete pc q (e ∷ es) = ground (arith, count-delete pc q es)

length-delete : (pc : ℕ) (es : List BtbEntry) → length (delete_entry pc es) ≡ length es
unfolding delete_entry
length-delete pc [] = refl
length-delete pc (e ∷ es) = ground (arith, length-delete pc es)

abbrev blank : BtbEntry
blank = record { pc = 0; predict_pc = 0; valid = false }

count-blank : (pc n : ℕ) → count_valid pc (replicate n blank) ≡ 0
count-blank pc zero = refl
count-blank pc (suc n) = ground (arith, count-blank pc n)

pub empty-IsValid : IsValid empty_btb
empty-IsValid = record {
  size = refl;
  small = omega arith;
  unique = λ pc. omega (arith, count-blank pc entry_num);
}

-- `update_BTB` keeps the table well formed where it is called: for an address not found.
pub update-IsValid :
    (pc t d : ℕ) {b : Btb} → IsValid b → (found_btb pc d b).0 ≡ false → IsValid (update_btb pc t b)
unfolding update_btb found_btb
update-IsValid pc t d {b} v h = record {
  size = length-set b.entries (b.idx % entry_num) _ ∙ v.size;
  small = omega arith;
  unique = λ q. ground (
    arith,
    count-set pc t q (b.idx % entry_num) b.entries,
    found-count pc d b.entries h,
    v.unique q,
  );
}

pub delete-IsValid : (pc : ℕ) {b : Btb} → IsValid b → IsValid (delete_btb pc b)
unfolding delete_btb
delete-IsValid pc {b} v = record {
  size = length-delete pc b.entries ∙ v.size;
  small = v.small;
  unique = λ q. omega (arith, count-delete pc q b.entries, v.unique q);
}
