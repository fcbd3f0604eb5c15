-- ===== src/Simulator/Unpipelined.antt =====
-- The build without a pipeline, which enters no stage.
use risc5_simulator.Common.{
  ℕ, zero, suc, ◌≡◌, refl, ap, arith, ◌∙◌, Bool, true, false, ◌==◌, Bool-cases, inl, inr, bit_and,
  bit_or, u8, u16, u32, u64,
}
use risc5_simulator.Common.Bits.{bit_and_comm, bit_and-zero}
use risc5_simulator.Platform.{Unspecified}
use risc5_simulator.Utils.{get_funct3}
use risc5_simulator.Memory.{
  Memory, Buffer, memory_read, memory_write, may_issue, improper, stage_f_bit, stage_m_bit,
}
use risc5_simulator.Cache.{found_i_cache, word32}
use risc5_simulator.Registers.{register_reset_cycle}
use risc5_simulator.Machine.{Machine, set_pc, get_pc}
use risc5_simulator.Stages.{
  instruction_fetch_stage, memory_stage, load_miss, store_hit, store_through, write_back_stage,
  execute_single_instruction,
}
use risc5_simulator.Stages.Stores.{hit-memory}
use risc5_simulator.Simulator.{execute_unpipelined, read_inst, ebreak}

no_stage : (stages : ℕ) (m : Memory) → m.current_stage ≡ 0 → may_issue stages m ≡ false
unfolding may_issue
no_stage stages m h =
    let none_set : bit_and 0 stages ≡ 0 = bit_and_comm 0 stages ∙ bit_and-zero stages in
    rw (h, none_set) refl

read-idle :
    (a n : ℕ) (value : Buffer) (m : Memory)
    → may_issue (bit_or stage_f_bit stage_m_bit) m ≡ false
    → (memory_read a value n m).2 ≡ m
unfolding memory_read
read-idle a n value m h = elim (Bool-cases (improper 16 a n m)) [
  | inl bad ↦ rw bad refl
  | inr ok ↦ rw (ok, h) refl
]

write-idle :
    (a v n : ℕ) (m : Memory) → may_issue stage_m_bit m ≡ false → (memory_write a v n m).1 ≡ m
unfolding memory_write
write-idle a v n m h = elim (Bool-cases (improper 8 a n m)) [
  | inl bad ↦ rw bad refl
  | inr ok ↦ rw (ok, h) refl
]

module _ (p : Unspecified) (s : Machine) (h : s.memory.current_stage ≡ 0) where
  fetch-memory : (pc i : ℕ) → (instruction_fetch_stage p pc i s).2.memory ≡ s.memory
  unfolding instruction_fetch_stage
  fetch-memory pc i = elim (Bool-cases (found_i_cache pc i s.i_cache).0) [
    | inl found ↦ rw found refl
    | inr lost ↦ rw lost (read-idle _ 16 p.i_block s.memory (no_stage _ s.memory h))
  ]

  miss-memory : (res : ℕ) → (load_miss p res s).memory ≡ s.memory
  unfolding load_miss
  miss-memory res = read-idle _ 16 p.d_block s.memory (no_stage _ s.memory h)

through-memory :
    (funct3 res reg2 : ℕ) (s : Machine)
    → s.memory.current_stage ≡ 0
    → (store_through funct3 res reg2 s).memory ≡ s.memory
unfolding store_through
through-memory funct3 res reg2 s h = ground (
  arith,
  write-idle res (u8 reg2) 1 s.memory (no_stage stage_m_bit s.memory h),
  write-idle res (u16 reg2) 2 s.memory (no_stage stage_m_bit s.memory h),
  write-idle res (u32 reg2) 4 s.memory (no_stage stage_m_bit s.memory h),
  write-idle res (u64 reg2) 8 s.memory (no_stage stage_m_bit s.memory h),
)

access-memory :
    (p : Unspecified) (i res reg2 : ℕ) (s : Machine)
    → s.memory.current_stage ≡ 0
    → (memory_stage p i res reg2 s).2.memory ≡ s.memory
unfolding memory_stage
access-memory p i res reg2 s h =
    let f = get_funct3 i in
    let e = hit-memory f res reg2 s in
    let h' = ap (λ (m : Memory). m.current_stage) e ∙ h in
    ground (
      arith,
      miss-memory p s h res,
      through-memory f res reg2 s h,
      through-memory f res reg2 (store_hit f res reg2 s) h',
      e,
    )

write_back-memory : (i v : ℕ) (s : Machine) → (write_back_stage i v s).memory ≡ s.memory
unfolding write_back_stage
write_back-memory i v s = ground arith

single-memory :
    (p : Unspecified) (pc : ℕ) (s : Machine)
    → s.memory.current_stage ≡ 0
    → (execute_single_instruction p pc s).1.memory ≡ s.memory
unfolding execute_single_instruction
single-memory p pc s h =
    let fetched = fetch-memory p s h pc p.instruction in
    let h' = ap (λ (m : Memory). m.current_stage) fetched ∙ h in
    write_back-memory _ _ _
    ∙ access-memory p _ _ _ (instruction_fetch_stage p pc p.instruction s).2 h'
    ∙ fetched

-- Whichever way the loop goes on.
keeps :
    (b : Bool) (x y : Machine) (m : Memory)
    → x.memory ≡ m
    → y.memory ≡ m
    → (elim b as (λ (_ : Bool). Machine) [ true ↦ x | false ↦ y ]).memory ≡ m
keeps true x y m g h = g
keeps false x y m g h = h

-- If no stage is current, as in the build without a pipeline, which never sets one, the memory
-- stays as it is however long the loop of that build runs: its bytes, its counters and its table
-- of pending operations.
pub unpipelined-memory :
    (us : ℕ → Unspecified) (n : ℕ) (inst : Buffer) (s : Machine)
    → s.memory.current_stage ≡ 0
    → (execute_unpipelined us n inst s).memory ≡ s.memory
unfolding execute_unpipelined set_pc
unpipelined-memory us zero inst s h = refl
unpipelined-memory us (suc n) inst s h =
    keeps (word32 (read_inst inst s) 0 == ebreak) s
      (execute_unpipelined us n (read_inst inst s) (set_pc (next (us n)).0 (next (us n)).1))
      s.memory refl
      (unpipelined-memory us n (read_inst inst s) (set_pc (next (us n)).0 (next (us n)).1)
          (ap (λ (m : Memory). m.current_stage) (stepped (us n)) ∙ h)
        ∙ stepped (us n))
  where
    started : Machine
    started = record s { registers = register_reset_cycle s.registers }

    next : Unspecified → ℕ × Machine
    next p = execute_single_instruction p (get_pc s) started

    stepped : (p : Unspecified) → (next p).1.memory ≡ s.memory
    stepped p = single-memory p (get_pc s) started h
