-- ===== src/Simulator/Caches.antt =====
-- The caches and the program counter through the stages, the cycle and the loop.
use risc5_simulator.Common.{ℕ, arith, Bool-cases, inl, inr, u64, ◌<<<◌}
use risc5_simulator.Platform.{Unspecified}
use risc5_simulator.Utils.{get_funct3}
use risc5_simulator.Memory.{memory_read}
use risc5_simulator.Cache.{get_64bits, word32, word64, found_i_cache, update_i_cache}
use risc5_simulator.Cache.Signature.{
  Unsigned, copy_i-Unsigned, copy_d-Unsigned, write_d-Unsigned, update_i-Unsigned,
  update_d-Unsigned,
}
use risc5_simulator.Machine.{Machine, StageRegD, StageRegM, StageRegW, set_pc}
use risc5_simulator.Stages.{
  instruction_fetch_stage, memory_stage, load_miss, store_hit, store_through,
}
use risc5_simulator.Pipeline.{
  fetch_pc, flush_memory, stage_fetch, stage_execute, stage_memory, stage_writeback,
}
use risc5_simulator.Simulator.Squash.{stage_writeback_frame}

-- No line of either cache has a signature.
abbrev pub UnsignedCaches : Machine → Type 0
UnsignedCaches s = Unsigned s.i_cache × Unsigned s.d_cache

module _ (p : Unspecified) where
  pub flush-Unsigned :
      (pc : ℕ) (s : Machine) → UnsignedCaches s → UnsignedCaches (flush_memory p pc s)
  unfolding flush_memory
  flush-Unsigned pc s (i, d) = (
    update_i-Unsigned s.i_cache i p pc s.memory,
    update_d-Unsigned s.d_cache d p s.w_reg.memory (update_i_cache p pc s.memory s.i_cache).1,
  )

  fetch_stage-Unsigned :
      (pc i : ℕ) (s : Machine)
      → UnsignedCaches s
      → UnsignedCaches (instruction_fetch_stage p pc i s).2
  unfolding instruction_fetch_stage
  fetch_stage-Unsigned pc i s u = elim (Bool-cases (found_i_cache pc i s.i_cache).0) [
    | inl found ↦ rw found u
    | inr lost ↦ rw lost (elim (Bool-cases (memory_read block_addr p.i_block 16 s.memory).0) [
      | inl now ↦ rw now (
        copy_i-Unsigned s.i_cache u.0 block_addr
            (word32 (memory_read block_addr p.i_block 16 s.memory).1),
        u.1,
      )
      | inr later ↦ rw later u
    ])
  ]
    where
      block_addr : ℕ
      block_addr = u64 (get_64bits pc 4 63 <<< 4)

  pub stage_fetch-Unsigned :
      (d : StageRegD) (s : Machine) → UnsignedCaches s → UnsignedCaches (stage_fetch p d s).1
  unfolding stage_fetch set_pc
  stage_fetch-Unsigned d s u =
      let v =
        fetch_stage-Unsigned (fetch_pc s) p.instruction (flush_memory p (fetch_pc s) s)
          (flush-Unsigned (fetch_pc s) s u) in
      (λ n. ground (arith, v.0 n), λ n. ground (arith, v.1 n))

  load_miss-Unsigned :
      (res : ℕ) (s : Machine) → UnsignedCaches s → UnsignedCaches (load_miss p res s)
  unfolding load_miss
  load_miss-Unsigned res s u = elim (Bool-cases (memory_read block_addr p.d_block 16 s.memory).0) [
    | inl now ↦ rw now (
      u.0,
      copy_d-Unsigned s.d_cache u.1 res (word64 (memory_read block_addr p.d_block 16 s.memory).1),
    )
    | inr later ↦ rw later u
  ]
    where
      block_addr : ℕ
      block_addr = u64 (get_64bits res 3 63 <<< 3)

  store_hit-Unsigned :
      (funct3 res reg2 : ℕ) (s : Machine)
      → UnsignedCaches s
      → UnsignedCaches (store_hit funct3 res reg2 s)
  unfolding store_hit
  store_hit-Unsigned funct3 res reg2 s u = (
    λ n. ground (arith, u.0 n),
    λ n. ground (
      arith,
      u.1 n,
      write_d-Unsigned s.d_cache u.1 res reg2 1 n,
      write_d-Unsigned s.d_cache u.1 res reg2 2 n,
      write_d-Unsigned s.d_cache u.1 res reg2 4 n,
      write_d-Unsigned s.d_cache u.1 res reg2 8 n,
    ),
  )

  through-Unsigned :
      (funct3 res reg2 : ℕ) (s : Machine)
      → UnsignedCaches s
      → UnsignedCaches (store_through funct3 res reg2 s)
  unfolding store_through
  through-Unsigned funct3 res reg2 s u = (λ n. ground (arith, u.0 n), λ n. ground (arith, u.1 n))

  memory_stage-Unsigned :
      (i res reg2 : ℕ) (s : Machine)
      → UnsignedCaches s
      → UnsignedCaches (memory_stage p i res reg2 s).2
  unfolding memory_stage
  memory_stage-Unsigned i res reg2 s u =
      let funct3 = get_funct3 i in
      let miss = load_miss-Unsigned res s u in
      let hit = store_hit-Unsigned funct3 res reg2 s u in
      let through = through-Unsigned funct3 res reg2 s u in
      let both = through-Unsigned funct3 res reg2 (store_hit funct3 res reg2 s) hit in
      (
        λ n. ground (arith, u.0 n, miss.0 n, hit.0 n, through.0 n, both.0 n),
        λ n. ground (arith, u.1 n, miss.1 n, hit.1 n, through.1 n, both.1 n),
      )

  pub stage_memory-Unsigned :
      (w : StageRegW) (s : Machine) → UnsignedCaches s → UnsignedCaches (stage_memory p w s).1
  unfolding stage_memory
  stage_memory-Unsigned w s u =
      let m = s.m_reg in
      let v = memory_stage-Unsigned m.instruction m.res m.reg2 s u in
      (λ n. ground (arith, u.0 n, v.0 n), λ n. ground (arith, u.1 n, v.1 n))

  pub stage_execute-Unsigned :
      (m : StageRegM) (s : Machine) → UnsignedCaches s → UnsignedCaches (stage_execute p m s).1
  unfolding stage_execute
  stage_execute-Unsigned m s u = (λ n. ground (arith, u.0 n), λ n. ground (arith, u.1 n))

pub writeback-Unsigned : (s : Machine) → UnsignedCaches s → UnsignedCaches (stage_writeback s)
writeback-Unsigned s u = rw (stage_writeback_frame s) u
