-- ===== src/Memory/Slots.antt =====
-- The table of pending operations: filling, polling and retiring its slots.
use risc5_simulator.Common.{
  ℕ, ◌+◌, ◌-◌, ◌≡◌, refl, arith, Bool, true, false, ◌&&◌, ◌||◌, ◌==◌, if◌then◌else◌, ltb, not, List,
  [], ◌∷◌, length,
}
use risc5_simulator.Memory.{
  MemoryOp, Pending, Memory, is_free, is_completed, fill_slot, memory_add_pending, end_of,
}

abbrev is_open : Pending → Bool
is_open pnd = is_free pnd.op || is_completed pnd.op

-- The slots that can be filled.
abbrev pub open_slots : List Pending → ℕ
open_slots [] = 0
open_slots (pnd ∷ rest) = (if is_open pnd then 1 else 0) + open_slots rest

-- No slot holds an operation on the address.
abbrev pub untracked : ℕ → List Pending → Bool
untracked a [] = true
untracked a (pnd ∷ rest) = not (pnd.address == a && not (is_free pnd.op)) && untracked a rest

fill-open :
    (new : Pending) (ps : List Pending)
    → is_open new ≡ false
    → let (done, ps') = fill_slot new ps in
      (done ≡ ltb 0 (open_slots ps))
      × (open_slots ps' ≡ open_slots ps - 1)
      × (length ps' ≡ length ps)
unfolding fill_slot
fill-open new [] h = (refl, omega arith, refl)
fill-open new (pnd ∷ ps) h = ground (arith, fill-open new ps h)

-- `memory_add_pending` of a read or a write succeeds exactly if a slot is free or completed; then it
-- takes one such slot up, and otherwise none. The table keeps its length.
pub add_pending_lem :
    (a n : ℕ) (op : MemoryOp) (m : Memory)
    → (is_free op || is_completed op) ≡ false
    → let (done, m') = memory_add_pending a n op m in
      (done ≡ ltb 0 (open_slots m.pending))
      × (open_slots m'.pending ≡ open_slots m.pending - 1)
      × (length m'.pending ≡ length m.pending)
unfolding memory_add_pending
add_pending_lem a n op m h =
    fill-open (record { address = a; n_bytes = n; end_cycle = end_of op m; op = op }) m.pending h
