-- ===== src/Btb.antt =====
-- The branch target buffer of pipeline.c: 32 entries that are filled in turn.
pub mod Invariant
pub mod Lookup
use risc5_simulator.Common.{
  ℕ, ◌+◌, ◌%◌, Bool, true, false, ◌&&◌, ◌==◌, if◌then◌else◌, u8, List, [], ◌∷◌, set, replicate,
}

abbrev pub entry_num : ℕ
entry_num = 32

pub record BtbEntry : Type 0 where
  pub pc : ℕ
  pub predict_pc : ℕ
  pub valid : Bool

pub record Btb : Type 0 where
  pub entries : List BtbEntry
  pub idx : ℕ

-- The static variable `BTB` starts as zeros.
abbrev pub empty_btb : Btb
empty_btb = record {
  entries = replicate entry_num (record { pc = 0; predict_pc = 0; valid = false });
  idx = 0;
}

-- The loop of `found_BTB`: `predicted_pc` comes in and goes out.
pub find_entry : ℕ → ℕ → List BtbEntry → Bool × ℕ
find_entry pc predicted_pc [] = (false, predicted_pc)
find_entry pc predicted_pc (e ∷ rest) =
    let later = find_entry pc predicted_pc rest in
    if e.pc == pc && e.valid then (true, e.predict_pc) else later

unfoldable pub found_btb : ℕ → ℕ → Btb → Bool × ℕ
unfolding find_entry
found_btb pc predicted_pc btb = find_entry pc predicted_pc btb.entries

unfoldable pub update_btb : ℕ → ℕ → Btb → Btb
update_btb pc predicted_pc btb =
    let idx = btb.idx % entry_num in
    record {
      entries = set btb.entries idx (record { pc = pc; predict_pc = predicted_pc; valid = true });
      idx = u8 (btb.idx + 1);
    }

-- The loop of `delete_BTB`: the first entry for `pc`, valid or not.
pub delete_entry : ℕ → List BtbEntry → List BtbEntry
delete_entry pc [] = []
delete_entry pc (e ∷ rest) =
    let later = delete_entry pc rest in
    if e.pc == pc then record e { valid = false } ∷ rest else e ∷ later

pub delete_btb : ℕ → Btb → Btb
unfolding delete_entry
delete_btb pc btb = record btb { entries = delete_entry pc btb.entries }
