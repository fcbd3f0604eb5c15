-- ===== src/Cache/Lines.antt =====
-- What a lookup finds after a block was copied in.
use native.Mathlib.Nat.{div-one, div-le_self}
use risc5_simulator.Common.{
  ℕ, ◌+◌, ◌-◌, ◌*◌, ◌/◌, ◌%◌, ◌^◌, ◌≤◌, ◌<◌, ◌≡◌, arith, true, false, ◌==◌, if◌then◌else◌, ltb, u32,
  u64, ap, ◌∙◌, ◌>>>◌, ◌<<<◌, bit_or,
}
use risc5_simulator.Common.Bits.{bit_or-eq-add, zero-bit_or, bit_or_split, bit_or-lt}
use risc5_simulator.Common.Extract.{field_by_shifts}
use risc5_simulator.Cache.{
  Cache, found_i_cache, copy_i_cache, found_d_cache, copy_d_cache, write_d_cache,
}
use risc5_simulator.Cache.Index.{i_parts, d_parts}

-- After `copy_i_cache` for one address, a lookup of another is answered from the copied block
-- exactly if it has the line of the first and the signature that the line has kept; an address of
-- another line is looked up as before.
pub found-copy_i :
    (a b i : ℕ) (block : ℕ → ℕ) (c : Cache)
    → found_i_cache b i (copy_i_cache a block c) ≡ (
        if b / 16 % 512 == a / 16 % 512
        then (if (c (a / 16 % 512)).sig == b / 2 ^ 13 % 2 ^ 51
            then (true, block (b % 16 / 4))
            else (false, i))
        else found_i_cache b i c)
unfolding found_i_cache copy_i_cache
found-copy_i a b i block c = ground (arith, i_parts a, i_parts b)

-- After `copy_d_cache` for one address, a lookup of another is answered from the block exactly if
-- it has the line of the first and the signature that the line has kept, with the low half of the
-- block at offsets below four and the high half above; an address of another line is looked up as
-- before.
pub found-copy_d :
    (a b v block : ℕ) (c : Cache)
    → found_d_cache b v (copy_d_cache a block c) ≡ (
        if b / 8 % 2048 == a / 8 % 2048
        then (if (c (a / 8 % 2048)).sig == b / 2 ^ 14 % 2 ^ 50
            then (true, (if ltb (b % 8) 4 then u32 block else u32 (block / 2 ^ 32)))
            else (false, v))
        else found_d_cache b v c)
unfolding found_d_cache copy_d_cache
found-copy_d a b v block c = ground (arith, d_parts a, d_parts b)

-- The value that `write_d_cache` merges in: the low bytes of the register.
low_bytes :
    (val size : ℕ)
    → size ≤ 8
    → u64 (val <<< (64 - size * 8)) >>> (64 - size * 8) ≡ val % 2 ^ (size * 8)
low_bytes val size h =
    field_by_shifts 64 (64 - size * 8) (64 - size * 8) 0 (size * 8) val (omega arith) (omega arith)
    ∙ ap (λ t. t % 2 ^ (size * 8)) (div-one val)

low_bytes-lt : (val size : ℕ) → size ≤ 8 → val % 2 ^ (size * 8) < 2 ^ 64
low_bytes-lt val size h =
    omega (
      arith,
      low_bytes val size h,
      div-le_self (u64 (val <<< (64 - size * 8))) (2 ^ (64 - size * 8)),
    )

-- The doubleword that `write_d_cache` forms of the line, merged with a value of 64 bits.
merged :
    (w0 w1 v : ℕ)
    → w0 < 2 ^ 32
    → w1 < 2 ^ 32
    → v < 2 ^ 64
    → bit_or (bit_or (bit_or 0 (u64 (w0 <<< 32))) w1) v
      ≡ bit_or w0 (v / 2 ^ 32) * 2 ^ 32 + bit_or w1 (v % 2 ^ 32)
merged w0 w1 v h0 h1 hv = ground (
  arith,
  zero-bit_or (w0 * 2 ^ 32),
  bit_or-eq-add 32 w0 w1,
  bit_or_split 32 w0 w1 (v / 2 ^ 32) (v % 2 ^ 32),
)

-- `write_d_cache` of at most eight bytes to a line of two 32-bit words leaves in its first word
-- the second one merged by `|` with the low half of the bytes written, and in its second word the
-- first one merged with their high half: the words change places, and the offset of the address
-- does not matter.
pub write_d_words :
    (addr val size : ℕ) (c : Cache)
    → size ≤ 8
    → (c (addr / 8 % 2048)).block 0 < 2 ^ 32
    → (c (addr / 8 % 2048)).block 1 < 2 ^ 32
    → let line = c (addr / 8 % 2048) in
      let line' = (write_d_cache addr val size c).1 (addr / 8 % 2048) in
      let v = val % 2 ^ (size * 8) in
      (line'.block 0 ≡ bit_or (line.block 1) (v % 2 ^ 32))
      × (line'.block 1 ≡ bit_or (line.block 0) (v / 2 ^ 32))
unfolding write_d_cache
write_d_words addr val size c h h0 h1 =
    rw ((d_parts addr).0, low_bytes val size h, merged w0 w1 v h0 h1 (low_bytes-lt val size h))
      (ground (arith, low, high), ground (arith, low, high))
  where
    w0 : ℕ
    w0 = (c (addr / 8 % 2048)).block 0

    w1 : ℕ
    w1 = (c (addr / 8 % 2048)).block 1

    v : ℕ
    v = val % 2 ^ (size * 8)

    low : bit_or w1 (v % 2 ^ 32) < 2 ^ 32
    low = bit_or-lt 32 w1 (v % 2 ^ 32) h1 (omega arith)

    high : bit_or w0 (v / 2 ^ 32) < 2 ^ 32
    high = bit_or-lt 32 w0 (v / 2 ^ 32) h0 (omega (arith, low_bytes-lt val size h))
