-- ===== src/Memory/Access.antt =====
-- Which accesses `memory_read` and `memory_write` allow, and what they do to the bytes.
use risc5_simulator.Common.{
  ℕ, zero, suc, ◌+◌, ◌-◌, ◌*◌, ◌/◌, ◌%◌, ◌^◌, ◌<◌, ◌≡◌, refl, arith, Bool, true, false, ◌&&◌, ◌||◌,
  ◌==◌, if◌then◌else◌, ltb, not, u64, Bool-cases, inl, inr, ap, ◌∙◌, bit_and, bit_or,
}
use risc5_simulator.Common.Bits.{bit_and-bit_or_pow}
use native.Mathlib.Nat.{one-le-pow}
use risc5_simulator.Memory.{
  Memory, Buffer, memory_read, memory_write, improper, may_issue, popcount, stage_m_bit,
  stage_f_bit,
}

-- Over a small range, every value is checked by evaluation.
agree_below : ℕ → (ℕ → Bool) → (ℕ → Bool) → Bool
agree_below zero p q = true
agree_below (suc n) p q = (if p n then q n else not (q n)) && agree_below n p q

agree_below_sound : (n : ℕ) (p q : ℕ → Bool) (x : ℕ) → agree_below n p q ≡ true → x < n → p x ≡ q x
unfolding agree_below
agree_below_sound zero p q x h lt = absurd (omega arith)
agree_below_sound (suc n) p q x h lt = ground (arith, agree_below_sound n p q x)

abbrev is_power : ℕ → Bool
is_power n = n == 1 || n == 2 || n == 4 || n == 8 || n == 16

one_bit : (n : ℕ) → n < 17 → (popcount 64 n == 1) ≡ is_power n
one_bit n h = agree_below_sound 17 (λ n. popcount 64 n == 1) is_power n table h
  where
    table : agree_below 17 (λ n. popcount 64 n == 1) is_power ≡ true
    table = unfold agree_below popcount in refl

-- An access of a power of two bytes, up to `max_bytes`, aligned to its size and inside the memory.
abbrev pub is_proper : ℕ → ℕ → ℕ → Memory → Bool
is_proper max_bytes a n m =
    is_power n && not (ltb max_bytes n) && not (ltb m.mem_size (a + n)) && a % n == 0

-- The test of the code is that one, where the address does not wrap.
improper_lem :
    (max a n : ℕ) (m : Memory)
    → max < 17
    → a + n < 2 ^ 64
    → improper max a n m ≡ not (is_proper max a n m)
unfolding improper
improper_lem max a n m hm h = elim (Bool-cases (ltb max n)) [
  | inl large ↦ ground arith
  | inr small ↦ ground (arith, one_bit n)
]

-- What a proper access gives: its test is passed, and so is that of `memory_load` and `memory_dump`.
proper-tests :
    (max a n : ℕ) (m : Memory)
    → max < 17
    → a + n < 2 ^ 64
    → is_proper max a n m ≡ true
    → (improper max a n m ≡ false) × (ltb m.mem_size (u64 (a + n)) ≡ false)
proper-tests max a n m hm h ok = (improper_lem max a n m hm h ∙ ap not ok, ground arith)

improper-test :
    (max a n : ℕ) (m : Memory)
    → max < 17
    → a + n < 2 ^ 64
    → is_proper max a n m ≡ false
    → improper max a n m ≡ true
improper-test max a n m hm h bad = improper_lem max a n m hm h ∙ ap not bad

-- `memory_write` of `n` bytes at `a`, whose sum does not wrap, writes the low bytes of the value,
-- lowest first, if the access is proper with at most 8 bytes and the stage is M and has issued none
-- yet; in every other case, and at every other address, the memory stays as it is.
pub memory_write-bytes :
    (a v n i : ℕ) (m : Memory)
    → a + n < 2 ^ 64
    → (memory_write a v n m).1.bytes i ≡ (
        if is_proper 8 a n m && may_issue stage_m_bit m && not (ltb i a) && ltb i (a + n)
        then v / 2 ^ (8 * (i - a)) % 2 ^ 8
        else m.bytes i)
unfolding memory_write
memory_write-bytes a v n i m h = elim (Bool-cases (is_proper 8 a n m)) [
  | inl ok ↦
      let (imp, fits) = proper-tests 8 a n m (omega arith) h ok in
      elim (Bool-cases (may_issue stage_m_bit m)) [
        | inl go ↦ elim (Bool-cases (m.write_latency == 0)) [
          | inl now ↦ rw (imp, ok, go, now, fits) refl
          | inr late ↦ rw (imp, ok, go, late, fits) refl
        ]
        | inr stop ↦ rw (imp, ok, stop) refl
      ]
  | inr bad ↦ rw (improper-test 8 a n m (omega arith) h bad, bad) refl
]

-- `memory_read` of `n` bytes at `a`, whose sum does not wrap: what it returns and what it leaves in
-- each byte of the buffer. An improper access clears the first byte only; otherwise all `n` bytes are
-- set, to those of memory if there is no latency and the stage is F or M and has issued no access
-- yet, and else to 0. It returns false exactly if the access has to wait.
pub memory_read_lem :
    (a n i : ℕ) (value : Buffer) (m : Memory)
    → a + n < 2 ^ 64
    → let (status, value', _) = memory_read a value n m in
      let proper = is_proper 16 a n m in
      let allowed = may_issue (bit_or stage_f_bit stage_m_bit) m in
      (status ≡ not (proper && allowed && not (m.read_latency == 0)))
      × (value' i ≡ (
          if not proper
          then (if i == 0 then 0 else value i)
          else if not (ltb i n)
          then value i
          else if allowed && m.read_latency == 0
          then m.bytes (a + i)
          else 0))
unfolding memory_read
memory_read_lem a n i value m h = elim (Bool-cases (is_proper 16 a n m)) [
  | inl ok ↦
      let (imp, fits) = proper-tests 16 a n m (omega arith) h ok in
      elim (Bool-cases (may_issue (bit_or stage_f_bit stage_m_bit) m)) [
        | inl go ↦ elim (Bool-cases (m.read_latency == 0)) [
          | inl now ↦ rw (imp, ok, go, now, fits) (refl, ground arith)
          | inr late ↦ rw (imp, ok, go, late) (refl, ground arith)
        ]
        | inr stop ↦ rw (imp, ok, stop) (refl, ground arith)
      ]
  | inr bad ↦ rw (improper-test 16 a n m (omega arith) h bad, bad) (refl, ground arith)
]

-- A stage whose bit is set in `memory_accesses_issued` issues nothing.
spent :
    (x k stages : ℕ) (m : Memory)
    → m.current_stage ≡ 2 ^ k
    → m.accesses_issued ≡ bit_or x (2 ^ k)
    → may_issue stages m ≡ false
unfolding may_issue
spent x k stages m e d =
    let kept : bit_and m.accesses_issued m.current_stage ≡ 2 ^ k =
      rw (e, d) (bit_and-bit_or_pow k x) in
    ground (arith, kept, one-le-pow k 2 (omega arith))

module _ (a v n : ℕ) (value : Buffer) (m : Memory) (h : a + n < 2 ^ 64) where
  write-issued :
      is_proper 8 a n m ≡ true
      → may_issue stage_m_bit m ≡ true
      → let m' = (memory_write a v n m).1 in
        (m'.current_stage ≡ m.current_stage)
        × (m'.accesses_issued ≡ bit_or m.accesses_issued m.current_stage)
  unfolding memory_write
  write-issued ok go =
      let (imp, fits) = proper-tests 8 a n m (omega arith) h ok in
      elim (Bool-cases (m.write_latency == 0)) [
        | inl now ↦ rw (imp, go, now, fits) (refl, refl)
        | inr late ↦ rw (imp, go, late, fits) (refl, refl)
      ]

  read-issued :
      is_proper 16 a n m ≡ true
      → may_issue (bit_or stage_f_bit stage_m_bit) m ≡ true
      → let m' = (memory_read a value n m).2 in
        (m'.current_stage ≡ m.current_stage)
        × (m'.accesses_issued ≡ bit_or m.accesses_issued m.current_stage)
  unfolding memory_read
  read-issued ok go =
      let (imp, fits) = proper-tests 16 a n m (omega arith) h ok in
      elim (Bool-cases (m.read_latency == 0)) [
        | inl now ↦ rw (imp, go, now) (refl, refl)
        | inr late ↦ rw (imp, go, late) (refl, refl)
      ]

-- Where the current stage is one bit and allows both accesses, and `n` bytes at `a` do not wrap
-- and are a proper access for a write and for a read, then after the write and after the read no
-- further access is allowed in the stage, whatever stages it is meant for.
pub one_access_per_stage :
    (a v n k stages : ℕ) (value : Buffer) (m : Memory)
    → m.current_stage ≡ 2 ^ k
    → a + n < 2 ^ 64
    → is_proper 8 a n m ≡ true
    → is_proper 16 a n m ≡ true
    → may_issue stage_m_bit m ≡ true
    → may_issue (bit_or stage_f_bit stage_m_bit) m ≡ true
    → (may_issue stages (memory_write a v n m).1 ≡ false)
      × (may_issue stages (memory_read a value n m).2 ≡ false)
one_access_per_stage a v n k stages value m e h ok ok' go go' =
    let (w, wi) = write-issued a v n value m h ok go in
    let (r, ri) = read-issued a v n value m h ok' go' in
    (
      spent m.accesses_issued k stages (memory_write a v n m).1 (w ∙ e)
          (wi ∙ ap (bit_or m.accesses_issued) e),
      spent m.accesses_issued k stages (memory_read a value n m).2 (r ∙ e)
          (ri ∙ ap (bit_or m.accesses_issued) e),
    )
