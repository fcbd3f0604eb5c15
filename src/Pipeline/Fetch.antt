-- ===== src/Pipeline/Fetch.antt =====
-- The fetch stage: what it leaves in D and in the program counter.
use risc5_simulator.Common.{ℕ, ◌≡◌, refl, Bool, false, if◌then◌else◌, Bool-cases, inl, inr}
use risc5_simulator.Platform.{Unspecified}
use risc5_simulator.Cache.{found_i_cache}
use risc5_simulator.Machine.{Machine, StageRegD, set_pc}
use risc5_simulator.Stages.{instruction_fetch_stage}
use risc5_simulator.Btb.{found_btb}
use risc5_simulator.Pipeline.{nop, fetch_pc, flush_memory, stage_fetch}
use risc5_simulator.Pipeline.Prediction.{predicted_next}

-- What the fetch stage finds in the instruction cache, after the blocks that have arrived are in it.
abbrev pub fetched : Unspecified → Machine → Bool × ℕ
fetched p s = found_i_cache (fetch_pc s) p.instruction (flush_memory p (fetch_pc s) s).i_cache

-- If the address to fetch from hits the instruction cache, D gets its word and address, and the
-- program counter moves on to what the branch target buffer predicts, or else to the next word; if
-- it misses, D gets a bubble and the program counter stays where it is. Neither changes the
-- registers or the branch target buffer.
pub stage_fetch_lem :
    (p : Unspecified) (d : StageRegD) (s : Machine)
    → let (d', t) = stage_fetch p d s in
      let (found, word) = fetched p s in
      let pc = fetch_pc s in
      (d' ≡ (
        if found
        then record d { stalled = 0; instruction = word; new_pc = pc }
        else record d { instruction = nop; stalled = 1 }))
      × (t.program_counter ≡ (if found then predicted_next pc s.btb else s.program_counter))
      × (t.registers ≡ s.registers)
      × (t.btb ≡ s.btb)
unfolding stage_fetch instruction_fetch_stage flush_memory set_pc
stage_fetch_lem p d s = elim (Bool-cases (fetched p s).0) [
  | inl found ↦ rw found (elim (Bool-cases (found_btb (fetch_pc s) 0 s.btb).0) [
    | inl predict ↦ rw predict (refl, refl, refl, refl)
    | inr plain ↦ rw plain (refl, refl, refl, refl)
  ])
  | inr lost ↦ rw lost (refl, refl, refl, refl)
]

-- A miss.
pub fetch_miss :
    (p : Unspecified) (d : StageRegD) (s : Machine)
    → (fetched p s).0 ≡ false
    → let (d', t) = stage_fetch p d s in
      (d' ≡ record d { instruction = nop; stalled = 1 })
      × (t.program_counter ≡ s.program_counter)
      × (t.registers ≡ s.registers)
fetch_miss p d s lost = let (a, b, c, _) = rw lost at (stage_fetch_lem p d s) in (a, b, c)
