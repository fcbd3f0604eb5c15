-- ===== src/Pipeline/Prediction.antt =====
-- Branch prediction in `stage_execute`: what `resolve` decides, and what it leaves in the branch
-- target buffer.
use risc5_simulator.Common.{
  ℕ, ◌+◌, ◌≡◌, ◌⊎◌, inl, inr, arith, Bool, true, false, if◌then◌else◌, u64, ltb, Bool-cases,
}
use risc5_simulator.Btb
use risc5_simulator.Btb.{found_btb, update_btb, delete_btb}
use risc5_simulator.Btb.Invariant.{IsValid, update-IsValid, delete-IsValid}
use risc5_simulator.Btb.Lookup.{found-update, found-delete, stale_first}
use risc5_simulator.Pipeline.{resolve}

-- Where the fetch stage goes on after `pc`, and where the program goes on.
abbrev pub predicted_next : ℕ → Btb.Btb → ℕ
predicted_next pc btb =
    let (found, target) = found_btb pc 0 btb in if found then target else u64 (pc + 4)

abbrev actual_next : Bool → ℕ → ℕ → ℕ
actual_next branch pc extend_pc = if branch then extend_pc else u64 (pc + 4)

-- A prediction for `pc`, where there is one, is the branch target.
abbrev Agrees : ℕ → ℕ → Btb.Btb → Type 0
Agrees pc extend_pc btb = (found_btb pc 0 btb).0 ≡ true → (found_btb pc 0 btb).1 ≡ extend_pc

-- If a prediction for the branch, where there is one, is its target, `resolve` either raises the
-- control stall and names the address where the program goes on, or raises none and the fetch
-- stage has gone there already.
pub resolve-next :
    (branch : Bool) (pc extend_pc : ℕ) (btb : Btb.Btb)
    → Agrees pc extend_pc btb
    → let r = resolve branch pc extend_pc btb in
      ((r.control_stalled ≡ 1) × (r.new_pc ≡ actual_next branch pc extend_pc))
      ⊎ ((r.control_stalled ≡ 0) × (predicted_next pc btb ≡ actual_next branch pc extend_pc))
unfolding resolve
resolve-next branch pc extend_pc btb h = elim (Bool-cases (found_btb pc 0 btb).0) [
  | inl found ↦ ground (arith, h found)
  | inr lost ↦ ground arith
]

-- `resolve` keeps a well-formed branch target buffer well formed, whether the branch is taken or
-- not.
pub resolve-IsValid :
    (branch : Bool) (pc extend_pc : ℕ) {btb : Btb.Btb}
    → IsValid btb
    → IsValid (resolve branch pc extend_pc btb).btb
unfolding resolve
resolve-IsValid true pc extend_pc {btb} v = elim (Bool-cases (found_btb pc 0 btb).0) [
  | inl found ↦ rw found v
  | inr lost ↦ rw lost (elim (Bool-cases (ltb extend_pc pc)) [
    | inl back ↦ rw back (update-IsValid pc extend_pc 0 v lost)
    | inr ahead ↦ rw ahead v
  ])
]
resolve-IsValid false pc extend_pc {btb} v = elim (Bool-cases (found_btb pc 0 btb).0) [
  | inl found ↦ rw found (delete-IsValid pc v)
  | inr lost ↦ rw lost v
]

-- With a well-formed buffer, a taken branch that was not predicted is predicted with its target
-- afterwards if it goes back; if it does not, its lookup stays as it is.
pub resolve_taken :
    (pc extend_pc : ℕ) {btb : Btb.Btb}
    → IsValid btb
    → (found_btb pc 0 btb).0 ≡ false
    → found_btb pc 0 (resolve true pc extend_pc btb).btb
      ≡ (if ltb extend_pc pc then (true, extend_pc) else found_btb pc 0 btb)
unfolding resolve
resolve_taken pc extend_pc {btb} v lost = rw lost (elim (Bool-cases (ltb extend_pc pc)) [
  | inl back ↦ rw back (found-update pc extend_pc 0 v lost)
  | inr ahead ↦ rw ahead (ground arith)
])

-- With a well-formed buffer, a branch that was predicted and is not taken is predicted afterwards
-- exactly if the first entry for its address is a stale one, which stands in front of the valid
-- entry.
pub resolve_not_taken :
    (pc extend_pc : ℕ) {btb : Btb.Btb}
    → IsValid btb
    → (found_btb pc 0 btb).0 ≡ true
    → (found_btb pc 0 (resolve false pc extend_pc btb).btb).0 ≡ stale_first pc btb.entries
unfolding resolve
resolve_not_taken pc extend_pc v found = rw found (found-delete pc 0 v found)
