-- ===== src/Cache/Signature.antt =====
-- No operation stores a signature, so the lines keep the one that they start with, which is 0: only
-- the first 8 KB of addresses ever hit the instruction cache, and the first 16 KB the data cache.
use risc5_simulator.Common.{ℕ, ◌^◌, ◌≤◌, ◌<◌, ◌≡◌, arith, false, Bool-cases, inl, inr, u64, ◌<<<◌}
use risc5_simulator.Platform.{Unspecified}
use risc5_simulator.Memory.{Memory, memory_status}
use risc5_simulator.Cache.{
  Cache, get_64bits, word32, word64, found_i_cache, copy_i_cache, update_i_cache, copy_d_cache,
  write_d_cache, update_d_cache,
}
use risc5_simulator.Cache.Index.{i_parts}

abbrev pub Unsigned : Cache → Type 0
Unsigned c = (n : ℕ) → (c n).sig ≡ 0

module _ (c : Cache) (u : Unsigned c) where
  pub copy_i-Unsigned : (addr : ℕ) (block : ℕ → ℕ) → Unsigned (copy_i_cache addr block c)
  unfolding copy_i_cache
  copy_i-Unsigned addr block n = ground (arith, u n, u (get_64bits addr 4 12))

  pub copy_d-Unsigned : (addr block : ℕ) → Unsigned (copy_d_cache addr block c)
  unfolding copy_d_cache
  copy_d-Unsigned addr block n = ground (arith, u n, u (get_64bits addr 3 13))

  pub write_d-Unsigned : (addr val size : ℕ) → Unsigned (write_d_cache addr val size c).1
  unfolding write_d_cache
  write_d-Unsigned addr val size n = ground (arith, u n, u (get_64bits addr 3 13))

  pub update_i-Unsigned :
      (p : Unspecified) (addr : ℕ) (m : Memory) → Unsigned (update_i_cache p addr m c).2
  unfolding update_i_cache
  update_i-Unsigned p addr m = elim (Bool-cases (memory_status block_addr p.i_value m).0) [
    | inl e ↦ rw e (copy_i-Unsigned addr (word32 (memory_status block_addr p.i_value m).1))
    | inr e ↦ rw e u
  ]
    where
      block_addr : ℕ
      block_addr = u64 (get_64bits addr 4 63 <<< 4)

  pub update_d-Unsigned :
      (p : Unspecified) (addr : ℕ) (m : Memory) → Unsigned (update_d_cache p addr m c).2
  unfolding update_d_cache
  update_d-Unsigned p addr m = elim (Bool-cases (memory_status block_addr p.d_value m).0) [
    | inl e ↦ rw e (copy_d-Unsigned addr (word64 (memory_status block_addr p.d_value m).1))
    | inr e ↦ rw e u
  ]
    where
      block_addr : ℕ
      block_addr = u64 (get_64bits addr 3 63 <<< 3)

  -- An address from 8192 on is not found in an instruction cache without signatures.
  pub far_i_miss :
      (addr i : ℕ) → addr < 2 ^ 64 → 2 ^ 13 ≤ addr → found_i_cache addr i c ≡ (false, i)
  unfolding found_i_cache
  far_i_miss addr i h far = ground (arith, i_parts addr, u (get_64bits addr 4 12))
