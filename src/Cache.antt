-- ===== src/Cache.antt =====
-- cache.h and cache.c: the direct-mapped instruction cache of 512 lines of four words, and the data
-- cache of 2048 lines of two words. The lines are functions of the line number. The field `idx` of
-- both caches, which no code reads or writes, is left out.
pub mod Index
pub mod Signature
pub mod Lines
pub mod Arrival
use risc5_simulator.Common.{
  ℕ, ◌+◌, ◌-◌, ◌*◌, ◌/◌, ◌^◌, Bool, true, false, ◌&&◌, ◌==◌, if◌then◌else◌, u32, u64, ◌<<<◌, ◌>>>◌,
  bit_or, update,
}
use risc5_simulator.Platform.{Unspecified}
use risc5_simulator.Memory.{Memory, Buffer, memory_status}

abbrev pub i_cache_lines : ℕ
i_cache_lines = 512

abbrev pub d_cache_lines : ℕ
d_cache_lines = 2048

abbrev doubleword : ℕ
doubleword = 64

-- `i_cache_line` and `d_cache_line`: `block` has four words in the first and two in the second.
pub record CacheLine : Type 0 where
  pub sig : ℕ
  pub block : ℕ → ℕ
  pub valid : Bool

abbrev pub Cache : Type 0
Cache = ℕ → CacheLine

-- Word `j` of a buffer, and its first eight bytes, on the little-endian machines that the
-- framework asks for.
abbrev pub word32 : Buffer → ℕ → ℕ
word32 b j = b (4 * j) + b (4 * j + 1) * 2 ^ 8 + b (4 * j + 2) * 2 ^ 16 + b (4 * j + 3) * 2 ^ 24

abbrev pub word64 : Buffer → ℕ
word64 b = word32 b 0 + word32 b 1 * 2 ^ 32

unfoldable pub get_64bits : ℕ → ℕ → ℕ → ℕ
get_64bits addr low high =
    u64 (addr <<< (doubleword - 1 - high)) >>> (doubleword - (high - low + 1))

-- `*instruction` comes in as `instruction` and goes out in the result.
unfoldable pub found_i_cache : ℕ → ℕ → Cache → Bool × ℕ
found_i_cache addr instruction i_cache =
    let line_num = get_64bits addr 4 12 in
    let sig = get_64bits addr 13 63 in
    let offset = get_64bits addr 0 3 in
    if (i_cache line_num).valid && (i_cache line_num).sig == sig
    then (true, (i_cache line_num).block (offset / 4))
    else (false, instruction)

-- `memcpy` of the four words; `sig` is left as it is.
unfoldable pub copy_i_cache : ℕ → (ℕ → ℕ) → Cache → Cache
copy_i_cache addr block i_cache =
    let line_num = get_64bits addr 4 12 in
    update i_cache line_num (record (i_cache line_num) { block = block; valid = true })

unfoldable pub update_i_cache : Unspecified → ℕ → Memory → Cache → Bool × Memory × Cache
update_i_cache p addr memory i_cache =
    let block_addr = u64 (get_64bits addr 4 63 <<< 4) in
    let (status, value, memory') = memory_status block_addr p.i_value memory in
    if status
    then (true, memory', copy_i_cache addr (word32 value) i_cache)
    else (false, memory', i_cache)

unfoldable pub found_d_cache : ℕ → ℕ → Cache → Bool × ℕ
found_d_cache addr value d_cache =
    let line_num = get_64bits addr 3 13 in
    let sig = get_64bits addr 14 63 in
    let offset = get_64bits addr 0 2 in
    if (d_cache line_num).valid && (d_cache line_num).sig == sig
    then (true, (d_cache line_num).block (offset / 4))
    else (false, value)

-- `val` keeps its low bytes by a shift to the left and one back.
pub write_d_cache : ℕ → ℕ → ℕ → Cache → Bool × Cache
write_d_cache addr val size_of_bytes d_cache =
    let line_num = get_64bits addr 3 13 in
    let high = (d_cache line_num).block 0 in
    let low = (d_cache line_num).block 1 in
    let block = bit_or (bit_or 0 (u64 (high <<< 32))) low in
    let val' =
      u64 (val <<< (doubleword - size_of_bytes * 8)) >>> (doubleword - size_of_bytes * 8) in
    let block' = bit_or block val' in
    let words = update (update (d_cache line_num).block 0 (u32 block')) 1 (u32 (block' >>> 32)) in
    (true, update d_cache line_num (record (d_cache line_num) { block = words }))

pub copy_d_cache : ℕ → ℕ → Cache → Cache
copy_d_cache addr block d_cache =
    let line_num = get_64bits addr 3 13 in
    let words = update (update (d_cache line_num).block 0 (u32 block)) 1 (u32 (block >>> 32)) in
    update d_cache line_num (record (d_cache line_num) { block = words; valid = true })

-- `value` is eight bytes long: of the sixteen that a read of the M stage may bring, the first eight
-- land in it.
unfoldable pub update_d_cache : Unspecified → ℕ → Memory → Cache → Bool × Memory × Cache
update_d_cache p addr memory d_cache =
    let block_addr = u64 (get_64bits addr 3 63 <<< 3) in
    let (status, value, memory') = memory_status block_addr p.d_value memory in
    if status
    then (true, memory', copy_d_cache addr (word64 value) d_cache)
    else (false, memory', d_cache)
