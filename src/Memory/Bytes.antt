-- ===== src/Memory/Bytes.antt =====
-- A value written to memory and read back.
use risc5_simulator.Common.{
  ℕ, ◌+◌, ◌-◌, ◌*◌, ◌/◌, ◌%◌, ◌^◌, ◌<◌, ◌≡◌, refl, arith, true, false, ltb, bit_or, ap, ◌∙◌,
}
use risc5_simulator.Memory.{
  Memory, Buffer, memory_read, memory_write, may_issue, stage_f_bit, stage_m_bit,
}
use risc5_simulator.Memory.Access.{is_proper, memory_write-bytes, memory_read_lem}

-- The doubleword in the first eight bytes of a buffer, lowest first.
abbrev pub doubleword : Buffer → ℕ
doubleword b =
    b 0
    + b 1 * 2 ^ 8
    + b 2 * 2 ^ 16
    + b 3 * 2 ^ 24
    + b 4 * 2 ^ 32
    + b 5 * 2 ^ 40
    + b 6 * 2 ^ 48
    + b 7 * 2 ^ 56

-- A 64-bit value that a proper access of 8 bytes in stage M has written, at an address where 8
-- more do not wrap, is what a proper access without latency that its stage allows reads back, in
-- any state with the bytes that the write has left.
pub read-write :
    (a v : ℕ) (value : Buffer) (m later : Memory)
    → v < 2 ^ 64
    → a + 8 < 2 ^ 64
    → is_proper 8 a 8 m ≡ true
    → may_issue stage_m_bit m ≡ true
    → later.bytes ≡ (memory_write a v 8 m).1.bytes
    → is_proper 16 a 8 later ≡ true
    → may_issue (bit_or stage_f_bit stage_m_bit) later ≡ true
    → later.read_latency ≡ 0
    → doubleword (memory_read a value 8 later).1 ≡ v
read-write a v value m later hv ha ok go e ok' go' now = omega (
  arith,
  byte 0 (omega arith),
  byte 1 (omega arith),
  byte 2 (omega arith),
  byte 3 (omega arith),
  byte 4 (omega arith),
  byte 5 (omega arith),
  byte 6 (omega arith),
  byte 7 (omega arith),
)
  where
    stored : (i : ℕ) → i < 8 → later.bytes (a + i) ≡ v / 2 ^ (8 * i) % 2 ^ 8
    stored i h =
        let low : ltb (a + i) a ≡ false = ground arith in
        let high : ltb (a + i) (a + 8) ≡ true = ground arith in
        let back : a + i - a ≡ i = omega arith in
        ap (λ f. f (a + i)) e
        ∙ rw (memory_write-bytes a v 8 (a + i) m ha, ok, go, low, high, back) refl

    byte : (i : ℕ) → i < 8 → (memory_read a value 8 later).1 i ≡ v / 2 ^ (8 * i) % 2 ^ 8
    byte i h =
        let short : ltb i 8 ≡ true = ground arith in
        rw ((memory_read_lem a 8 i value later ha).1, ok', short, go', now) (stored i h)
