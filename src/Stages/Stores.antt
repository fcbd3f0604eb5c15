-- ===== src/Stages/Stores.antt =====
-- The stores of `memory_stage`: what they leave in memory.
use risc5_simulator.Common.{
  ℕ, ◌+◌, ◌-◌, ◌*◌, ◌/◌, ◌%◌, ◌^◌, ◌≤◌, ◌<◌, ◌≡◌, refl, arith, ap, ◌∙◌, Bool-cases, inl, inr, false,
  not, ◌&&◌, if◌then◌else◌, ltb,
}
use risc5_simulator.Common.Extract.{byte_of-word}
use risc5_simulator.Platform.{Unspecified}
use risc5_simulator.Utils.{get_opcode, get_funct3, save}
use risc5_simulator.Isa.{StoreOp, store_funct3, store_size}
use risc5_simulator.Memory.{Memory, memory_write, may_issue, stage_m_bit}
use risc5_simulator.Memory.Access.{is_proper, memory_write-bytes}
use risc5_simulator.Cache.{found_d_cache}
use risc5_simulator.Machine.{Machine}
use risc5_simulator.Stages.{memory_stage, store_hit, store_through}

-- Writing the cached line does not touch the memory.
pub hit-memory :
    (funct3 res reg2 : ℕ) (s : Machine) → (store_hit funct3 res reg2 s).memory ≡ s.memory
unfolding store_hit
hit-memory funct3 res reg2 s = ground arith

-- A store of any size is the `memory_write` of the register cut to the size.
through-write :
    (op : StoreOp) (a v : ℕ) (s : Machine)
    → (store_through (store_funct3 op) a v s).memory
      ≡ (memory_write a (v % 2 ^ (8 * store_size op)) (store_size op) s.memory).1
unfolding store_through
through-write StoreOp.sb a v s = refl
through-write StoreOp.sh a v s = refl
through-write StoreOp.sw a v s = refl
through-write StoreOp.sd a v s = refl

-- The bytes of memory once `n` bytes of `v` were stored at `a`.
abbrev pub stored : ℕ → ℕ → ℕ → ℕ → Memory → ℕ
stored a v n j m =
    if is_proper 8 a n m && may_issue stage_m_bit m && not (ltb j a) && ltb j (a + n)
    then v / 2 ^ (8 * (j - a)) % 2 ^ 8
    else m.bytes j

within_write :
    (a v n j : ℕ) (m : Memory)
    → a + n < 2 ^ 64
    → (memory_write a (v % 2 ^ (8 * n)) n m).1.bytes j ≡ stored a v n j m
within_write a v n j m h = elim (Bool-cases (not (ltb j a) && ltb j (a + n))) [
  | inl inside ↦
      let fits : 8 * (j - a) + 8 ≤ 8 * n = ground (arith, inside) in
      rw (byte_of-word (8 * n) (j - a) v fits) at (memory_write-bytes a (v % 2 ^ (8 * n)) n j m h)
  | inr outside ↦ ground (arith, outside, memory_write-bytes a (v % 2 ^ (8 * n)) n j m h)
]

-- On a word with the codes of a store and an address that its size does not make wrap,
-- `memory_stage` never stalls, and of the bytes of memory it changes those that the size covers
-- from the address on, to those of the register, lowest first, if the access is aligned and within
-- the memory and the stage is M and has issued none yet; otherwise it changes none. What the data
-- cache holds does not matter.
pub store-bytes :
    (p : Unspecified) (op : StoreOp) (i a v j : ℕ) (s : Machine)
    → get_opcode i ≡ save
    → get_funct3 i ≡ store_funct3 op
    → a + store_size op < 2 ^ 64
    → let (stalled, _, t) = memory_stage p i a v s in
      (stalled ≡ false) × (t.memory.bytes j ≡ stored a v (store_size op) j s.memory)
unfolding memory_stage
store-bytes p op i a v j s o f h = elim (Bool-cases (found_d_cache a 0 s.d_cache).0) [
  | inl hit ↦
      rw (o, f, hit)
        (refl, through (store_hit (store_funct3 op) a v s) (hit-memory (store_funct3 op) a v s))
  | inr miss ↦ rw (o, f, miss) (refl, through s refl)
]
  where
    through :
        (t : Machine)
        → t.memory ≡ s.memory
        → (store_through (store_funct3 op) a v t).memory.bytes j
          ≡ stored a v (store_size op) j s.memory
    through t e =
        ap (λ (m : Memory). m.bytes j) (through-write op a v t)
        ∙ within_write a v (store_size op) j t.memory h
        ∙ ap (stored a v (store_size op) j) e
