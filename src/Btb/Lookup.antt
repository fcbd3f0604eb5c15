-- ===== src/Btb/Lookup.antt =====
-- What `found_BTB` answers after an update and after a deletion.
use risc5_simulator.Common.{
  ℕ, zero, suc, ◌%◌, ◌≤◌, ◌<◌, ◌≡◌, ◌≢◌, refl, arith, not, Bool, true, false, ◌==◌, if◌then◌else◌,
  List, [], ◌∷◌, length, set, get_or, Bool-cases, inl, inr,
}
use risc5_simulator.Btb.{
  Btb, BtbEntry, entry_num, find_entry, delete_entry, found_btb, update_btb, delete_btb,
}
use risc5_simulator.Btb.Invariant.{IsValid, count_valid, count-found}

find-set_self :
    (pc t d i : ℕ) (es : List BtbEntry)
    → i < length es
    → (find_entry pc d es).0 ≡ false
    → find_entry pc d (set es i (record { pc = pc; predict_pc = t; valid = true })) ≡ (true, t)
unfolding find_entry
find-set_self pc t d i [] h f = absurd (omega arith)
find-set_self pc t d zero (e ∷ es) h f = ground arith
find-set_self pc t d (suc i) (e ∷ es) h f = ground (arith, find-set_self pc t d i es)

-- An address that was not found is found with its target after `update_BTB`.
pub found-update :
    (pc t d : ℕ) {b : Btb}
    → IsValid b
    → (found_btb pc d b).0 ≡ false
    → found_btb pc d (update_btb pc t b) ≡ (true, t)
unfolding found_btb update_btb
found-update pc t d {b} v h =
    find-set_self pc t d (b.idx % entry_num) b.entries (omega (arith, v.size)) h

-- Another address is found as before, unless the entry that is overwritten was for it.
find-set_ne :
    (pc t q d i : ℕ) (dflt : BtbEntry) (es : List BtbEntry)
    → pc ≢ q
    → (get_or es i dflt).pc ≢ q
    → find_entry q d (set es i (record { pc = pc; predict_pc = t; valid = true }))
      ≡ find_entry q d es
unfolding find_entry
find-set_ne pc t q d i dflt [] n k = refl
find-set_ne pc t q d zero dflt (e ∷ es) n k = ground arith
find-set_ne pc t q d (suc i) dflt (e ∷ es) n k = ground (arith, find-set_ne pc t q d i dflt es n k)

-- `update_BTB` for one address leaves the lookup of another as it was, unless the entry that it
-- overwrites is for that one.
pub found-update_ne :
    (pc t q d : ℕ) (dflt : BtbEntry) (b : Btb)
    → pc ≢ q
    → (get_or b.entries (b.idx % entry_num) dflt).pc ≢ q
    → found_btb q d (update_btb pc t b) ≡ found_btb q d b
unfolding found_btb update_btb
found-update_ne pc t q d dflt b = find-set_ne pc t q d (b.idx % entry_num) dflt b.entries

-- Whether the first entry for `pc` is invalid.
abbrev pub stale_first : ℕ → List BtbEntry → Bool
stale_first pc [] = false
stale_first pc (e ∷ rest) = if e.pc == pc then not e.valid else stale_first pc rest

find-delete :
    (pc d : ℕ) (es : List BtbEntry)
    → count_valid pc es ≤ 1
    → (find_entry pc d es).0 ≡ true
    → (find_entry pc d (delete_entry pc es)).0 ≡ stale_first pc es
unfolding find_entry delete_entry
find-delete pc d [] c f = refl
find-delete pc d (e ∷ es) c f = elim (Bool-cases (find_entry pc d es).0) [
  | inl found ↦ ground (arith, find-delete pc d es, count-found pc d es found)
  | inr lost ↦ ground (arith, find-delete pc d es)
]

-- `delete_BTB` on an address that is predicted takes its prediction away exactly if the first entry
-- for the address is the valid one; behind a stale entry for the same address the prediction stays.
pub found-delete :
    (pc d : ℕ) {b : Btb}
    → IsValid b
    → (found_btb pc d b).0 ≡ true
    → (found_btb pc d (delete_btb pc b)).0 ≡ stale_first pc b.entries
unfolding found_btb delete_btb
found-delete pc d {b} v f = find-delete pc d b.entries (v.unique pc) f

find-delete_ne :
    (pc q d : ℕ) (es : List BtbEntry)
    → pc ≢ q
    → find_entry q d (delete_entry pc es) ≡ find_entry q d es
unfolding find_entry delete_entry
find-delete_ne pc q d [] n = refl
find-delete_ne pc q d (e ∷ es) n = ground (arith, find-delete_ne pc q d es n)

-- `delete_BTB` for one address leaves the lookup of every other as it was.
pub found-delete_ne :
    (pc q d : ℕ) (b : Btb) → pc ≢ q → found_btb q d (delete_btb pc b) ≡ found_btb q d b
unfolding found_btb delete_btb
found-delete_ne pc q d b = find-delete_ne pc q d b.entries
