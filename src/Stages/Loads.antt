-- ===== src/Stages/Loads.antt =====
-- The loads of `memory_stage` that hit the data cache, against RV64I.
use risc5_simulator.Common.{
  ℕ, ◌*◌, ◌/◌, ◌%◌, ◌^◌, ◌<◌, ◌≡◌, arith, ap, Bool, Bool-cases, inl, inr, true, false,
  if◌then◌else◌, ltb, u32,
}
use risc5_simulator.Platform.{Unspecified}
use risc5_simulator.Utils.{get_opcode, get_funct3, load}
use risc5_simulator.Isa.{LoadOp, load_funct3, loaded}
use risc5_simulator.Cache.{Cache, found_d_cache, copy_d_cache}
use risc5_simulator.Cache.Signature.{Unsigned}
use risc5_simulator.Cache.Lines.{found-copy_d}
use risc5_simulator.Machine.{Machine}
use risc5_simulator.Stages.{load_value, memory_stage}

abbrev is_ld : LoadOp → Bool
is_ld LoadOp.ld = true
is_ld _ = false

-- Of a 32-bit word, every load but `ld` takes what it takes of the doubleword.
load_value_lem :
    (op : LoadOp) (x v : ℕ)
    → load_value (load_funct3 op) (u32 x) v ≡ (if is_ld op then u32 x else loaded op x)
unfolding load_value
load_value_lem LoadOp.lb x v = ground arith
load_value_lem LoadOp.lh x v = ground arith
load_value_lem LoadOp.lw x v = ground arith
load_value_lem LoadOp.ld x v = ground arith
load_value_lem LoadOp.lbu x v = ground arith
load_value_lem LoadOp.lhu x v = ground arith
load_value_lem LoadOp.lwu x v = ground arith

-- The data cache finds the word of a block that was copied for the same address.
copied :
    (a block : ℕ) (c : Cache)
    → Unsigned c
    → a < 2 ^ 14
    → a % 4 ≡ 0
    → found_d_cache a 0 (copy_d_cache a block c) ≡ (true, u32 (block / 2 ^ (8 * (a % 8))))
copied a block c u near aligned = elim (Bool-cases (ltb (a % 8) 4)) [
  | inl low ↦
      let e : a % 8 ≡ 0 = ground arith in
      rw e (ground (arith, found-copy_d a a 0 block c, u (a / 8 % 2048)))
  | inr high ↦
      let e : a % 8 ≡ 4 = ground arith in
      rw e (ground (arith, found-copy_d a a 0 block c, u (a / 8 % 2048)))
]

-- A load from an address below 16384 that is a multiple of four, once its block was copied into a
-- data cache without signatures, does not stall and leaves the machine as it is. Its value is what
-- the manual says of the block, for all loads but `ld`, which gets the low 32 bits alone.
pub load_copied :
    (p : Unspecified) (op : LoadOp) (i a reg2 block : ℕ) (s : Machine)
    → get_opcode i ≡ load
    → get_funct3 i ≡ load_funct3 op
    → Unsigned s.d_cache
    → a < 2 ^ 14
    → a % 4 ≡ 0
    → let t = record s { d_cache = copy_d_cache a block s.d_cache } in
      let x = block / 2 ^ (8 * (a % 8)) in
      memory_stage p i a reg2 t ≡ (false, (if is_ld op then x % 2 ^ 32 else loaded op x), t)
unfolding memory_stage
load_copied p op i a reg2 block s o f u near aligned =
    rw (o, f, copied a block s.d_cache u near aligned)
      (ap (λ (v : ℕ). (false, v, t)) (load_value_lem op _ a))
  where
    t : Machine
    t = record s { d_cache = copy_d_cache a block s.d_cache }
