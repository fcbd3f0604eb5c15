-- ===== src/Memory.antt =====
-- The memory of riscv_sim_pipeline_framework.c: its bytes, latencies, counters and the table of
-- pending operations. A buffer that C passes by pointer is the function of its bytes by offset, and
-- a call that fills one returns it. `bytes` at an index from `mem_size` on stands for what lies
-- outside the array `riscv_mem`.
pub mod Copy
pub mod Slots
pub mod Bytes
pub mod Access
use risc5_simulator.Common.{
  ℕ, zero, suc, ◌+◌, ◌-◌, ◌*◌, ◌/◌, ◌%◌, ◌^◌, Bool, true, false, ◌||◌, ◌&&◌, not, ltb, ◌==◌, ◌!=◌,
  if◌then◌else◌, u64, bit_and, bit_or, List, [], ◌∷◌, replicate, update, Option, none, some, map,
}

-- `memory_pending_t.op`; `free` is MEMORY_OP_NONE.
pub data MemoryOp : Type 0 where
  free read write completed : MemoryOp

abbrev pub is_free : MemoryOp → Bool
is_free MemoryOp.free = true
is_free _ = false

abbrev pub is_read : MemoryOp → Bool
is_read MemoryOp.read = true
is_read _ = false

abbrev is_write : MemoryOp → Bool
is_write MemoryOp.write = true
is_write _ = false

abbrev pub is_completed : MemoryOp → Bool
is_completed MemoryOp.completed = true
is_completed _ = false

pub record Pending : Type 0 where
  pub address : ℕ
  pub n_bytes : ℕ
  pub end_cycle : ℕ
  pub op : MemoryOp

pub record Memory : Type 0 where
  pub bytes : ℕ → ℕ
  pub mem_size : ℕ
  pub read_latency : ℕ
  pub write_latency : ℕ
  pub cycle_counter : ℕ
  pub read_counter : ℕ
  pub read_bytes : ℕ
  pub write_counter : ℕ
  pub write_bytes : ℕ
  pub pending : List Pending
  pub current_stage : ℕ
  pub accesses_issued : ℕ

abbrev memory_max_size : ℕ
memory_max_size = 32 * 1024 * 1024

abbrev memory_page_size : ℕ
memory_page_size = 4096

abbrev memory_max_pending : ℕ
memory_max_pending = 4

abbrev memory_max_read_bytes : ℕ
memory_max_read_bytes = 16

abbrev pub stage_f_bit : ℕ
stage_f_bit = 1

abbrev pub stage_d_bit : ℕ
stage_d_bit = 2

abbrev pub stage_x_bit : ℕ
stage_x_bit = 4

abbrev pub stage_m_bit : ℕ
stage_m_bit = 8

abbrev pub stage_w_bit : ℕ
stage_w_bit = 16

abbrev pub Buffer : Type 0
Buffer = ℕ → ℕ

-- `memcpy (dst + base, src, size)`
abbrev pub copy : Buffer → ℕ → Buffer → ℕ → Buffer
copy dst base src size i = if not (ltb i base) && ltb i (base + size) then src (i - base) else dst i

-- `memset (dst, 0, size)`
abbrev clear : Buffer → ℕ → Buffer
clear dst size i = if ltb i size then 0 else dst i

abbrev pub free_slot : Pending
free_slot = record { address = 0; n_bytes = 0; end_cycle = 0; op = MemoryOp.free }

unfoldable pub memory_initialize_pending : Memory → Memory
memory_initialize_pending m = record m { pending = replicate memory_max_pending free_slot }

-- `none` is `exit(1)`. The argument says whether `malloc` returned a block.
unfoldable pub memory_initialize : Bool → ℕ → Memory → Option Memory
memory_initialize allocated size_in_bytes m =
    if ltb memory_max_size size_in_bytes || size_in_bytes % memory_page_size != 0
    then none
    else if not allocated
    then none
    else some (record m { bytes = λ _. 0; mem_size = size_in_bytes })

unfoldable pub memory_load : Buffer → ℕ → ℕ → Memory → Bool × Memory
memory_load region base size m =
    if ltb m.mem_size (u64 (base + size))
    then (false, m)
    else (true, record m { bytes = copy m.bytes base region size })

unfoldable pub memory_dump : Buffer → ℕ → ℕ → Memory → Bool × Buffer
memory_dump region base size m =
    if ltb m.mem_size (u64 (base + size))
    then (false, region)
    else (true, copy region 0 (λ i. m.bytes (base + i)) size)

-- `pnd->end_cycle = cycle_counter; pnd->end_cycle += latency`
unfoldable pub end_of : MemoryOp → Memory → ℕ
end_of op m = u64 (m.cycle_counter + (if is_write op then m.write_latency else m.read_latency))

-- The loop of `memory_add_pending`: the first slot that is free or completed is filled.
pub fill_slot : Pending → List Pending → Bool × List Pending
fill_slot new [] = (false, [])
fill_slot new (pnd ∷ rest) =
    let (done, rest') = fill_slot new rest in
    if is_free pnd.op || is_completed pnd.op then (true, new ∷ rest) else (done, pnd ∷ rest')

pub memory_add_pending : ℕ → ℕ → MemoryOp → Memory → Bool × Memory
unfolding fill_slot end_of
memory_add_pending address size_in_bytes op m =
    let new : Pending = record {
      address = address;
      n_bytes = size_in_bytes;
      end_cycle = end_of op m;
      op = op;
    } in
    let (done, slots) = fill_slot new m.pending in (done, record m { pending = slots })

-- `__builtin_popcountll`, over the number of bits that are left.
unfoldable pub popcount : ℕ → ℕ → ℕ
popcount zero n = 0
popcount (suc bits) n = n % 2 + popcount bits (n / 2)

-- The checks on an access that `memory_read` and `memory_write` share but for the largest size.
unfoldable pub improper : ℕ → ℕ → ℕ → Memory → Bool
improper max_bytes address size_in_bytes m =
    ltb max_bytes size_in_bytes
    || popcount 64 size_in_bytes != 1
    || ltb m.mem_size (u64 (address + size_in_bytes))
    || address % size_in_bytes != 0

-- Whether the current stage is one of `stages` and has issued no access yet in this cycle.
unfoldable pub may_issue : ℕ → Memory → Bool
may_issue stages m =
    not (bit_and m.current_stage stages == 0 || bit_and m.accesses_issued m.current_stage != 0)

unfoldable pub memory_read : ℕ → Buffer → ℕ → Memory → Bool × Buffer × Memory
unfolding memory_dump memory_add_pending
memory_read address value size_in_bytes m =
    let issued : Memory = record m {
      read_counter = u64 (m.read_counter + 1);
      read_bytes = u64 (m.read_bytes + size_in_bytes);
      accesses_issued = bit_or m.accesses_issued m.current_stage;
    } in
    let (_, dumped) = memory_dump value address size_in_bytes issued in
    let (_, waiting) = memory_add_pending address size_in_bytes MemoryOp.read issued in
    if improper memory_max_read_bytes address size_in_bytes m
    then (true, update value 0 0, m)
    else if not (may_issue (bit_or stage_f_bit stage_m_bit) m)
    then (true, clear value size_in_bytes, m)
    else if m.read_latency == 0
    then (true, dumped, issued)
    else (false, clear value size_in_bytes, waiting)

-- The bytes of a `uint64_t` in memory, lowest first.
abbrev bytes_of : ℕ → Buffer
bytes_of value i = value / 2 ^ (8 * i) % 2 ^ 8

unfoldable pub memory_write : ℕ → ℕ → ℕ → Memory → Bool × Memory
unfolding memory_load memory_add_pending
memory_write address value size_in_bytes m =
    let issued : Memory = record m { accesses_issued = bit_or m.accesses_issued m.current_stage } in
    let (_, loaded) = memory_load (bytes_of value) address size_in_bytes issued in
    let counted : Memory = record loaded {
      write_counter = u64 (loaded.write_counter + 1);
      write_bytes = u64 (loaded.write_bytes + size_in_bytes);
    } in
    let (_, waiting) = memory_add_pending address size_in_bytes MemoryOp.write counted in
    if improper 8 address size_in_bytes m
    then (true, m)
    else if not (may_issue stage_m_bit m)
    then (true, m)
    else if m.write_latency == 0
    then (true, counted)
    else (false, waiting)

-- What the loop of `memory_status` finds: no slot for the address; the first one, not due in this
-- cycle; or the first one, due, with its operation and size and the table that has it completed.
pub data Poll : Type 0 where
  absent waiting : Poll
  due : MemoryOp → ℕ → List Pending → Poll

-- `pnd` stays in front of the slots that were looked at later.
abbrev behind : Pending → Poll → Poll
behind pnd Poll.absent = Poll.absent
behind pnd Poll.waiting = Poll.waiting
behind pnd (Poll.due op n slots) = Poll.due op n (pnd ∷ slots)

unfoldable pub poll : ℕ → ℕ → List Pending → Poll
poll address now [] = Poll.absent
poll address now (pnd ∷ rest) =
    let later = poll address now rest in
    if pnd.address == address && not (is_free pnd.op)
    then (if pnd.end_cycle == now
        then Poll.due pnd.op pnd.n_bytes (record pnd { op = MemoryOp.completed } ∷ rest)
        else Poll.waiting)
    else behind pnd later

-- What `memory_status` does with that.
answer : ℕ → Buffer → Memory → Poll → Bool × Buffer × Memory
answer address value m Poll.absent = (false, value, m)
answer address value m Poll.waiting = (false, value, m)
answer address value m (Poll.due op n slots) =
    let (_, dumped) = memory_dump value address n m in
    (true, (if is_read op then dumped else value), record m { pending = slots })

unfoldable pub memory_status : ℕ → Buffer → Memory → Bool × Buffer × Memory
unfolding answer
memory_status address value m = answer address value m (poll address m.cycle_counter m.pending)

pub retire : Pending → Pending
retire pnd = if is_completed pnd.op then record pnd { op = MemoryOp.free } else pnd

unfoldable pub memory_retire_completed : Memory → Memory
unfolding retire
memory_retire_completed m = record m { pending = map retire m.pending; accesses_issued = 0 }
