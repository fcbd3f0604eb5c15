-- ===== src/Tests/Store.antt =====
-- The memory, the caches, the branch target buffer and the registers.
use risc5_simulator.Common.{ℕ, ◌+◌, ◌*◌, ◌^◌, ◌≡◌, refl, arith, true, false, bit_or, update}
use risc5_simulator.Samples.{memory_with, zero_registers, empty_cache, adding}
use risc5_simulator.Memory.{
  Memory, MemoryOp, may_issue, stage_m_bit, stage_f_bit, memory_read, memory_write,
  memory_add_pending,
}
use risc5_simulator.Memory.Access.{memory_write-bytes, memory_read_lem, one_access_per_stage}
use risc5_simulator.Memory.Bytes.{doubleword, read-write}
use risc5_simulator.Cache.{Cache, write_d_cache}
use risc5_simulator.Cache.Lines.{write_d_words}
use risc5_simulator.Btb.{Btb, BtbEntry, empty_btb, found_btb, update_btb, delete_btb}
use risc5_simulator.Btb.Invariant.{IsValid, empty-IsValid, update-IsValid}
use risc5_simulator.Btb.Lookup.{stale_first, found-update, found-delete}
use risc5_simulator.Registers.{register_read, register_write, register_reset_cycle}
use risc5_simulator.Registers.Laws.{register_read-write}

-- A memory without latency in the M stage, and one that answers reads after three cycles, in F.
abbrev quick : Memory
quick = record (memory_with adding 0) { current_stage = 8 }

abbrev slow : Memory
slow = record (memory_with adding 3) { current_stage = 1 }

may_write : may_issue stage_m_bit quick ≡ true
unfolding may_issue
may_write = refl

may_read : may_issue (bit_or stage_f_bit stage_m_bit) quick ≡ true
unfolding may_issue
may_read = refl

memory_write-bytes_example : (memory_write 64 0x1234 2 quick).1.bytes 65 ≡ 0x12
unfolding may_issue
memory_write-bytes_example = memory_write-bytes 64 0x1234 2 65 quick (omega arith)

memory_read_example :
    ((memory_read 0 (λ _. 7) 16 quick).0 ≡ true) × ((memory_read 0 (λ _. 7) 16 quick).1 2 ≡ 0x50)
unfolding may_issue
memory_read_example = let r = memory_read_lem 0 16 2 (λ _. 7) quick (omega arith) in (r.0, r.1)

one_access_per_stage_example :
    (may_issue stage_m_bit (memory_write 64 0x1234 2 quick).1 ≡ false)
    × (may_issue stage_m_bit (memory_read 64 (λ _. 0) 2 quick).2 ≡ false)
one_access_per_stage_example =
    one_access_per_stage 64 0x1234 2 3 stage_m_bit (λ _. 0) quick refl (omega arith) refl refl
      may_write may_read

-- The memory of the next cycle, in which the M stage may issue an access again.
abbrev next_cycle : Memory
next_cycle = record ((memory_write 64 0x1122334455667788 8 quick).1) {
  mem_size = 2 ^ 23;
  read_latency = 0;
  current_stage = 8;
  accesses_issued = 0;
}

may_read_next : may_issue (bit_or stage_f_bit stage_m_bit) next_cycle ≡ true
unfolding may_issue
may_read_next = refl

read-write_example : doubleword (memory_read 64 (λ _. 0) 8 next_cycle).1 ≡ 0x1122334455667788
read-write_example =
    read-write 64 0x1122334455667788 (λ _. 0) quick next_cycle (omega arith) (omega arith) refl
      may_write refl refl may_read_next refl

-- Three cycles after the read was added.
abbrev arrived : Memory
arrived = record slow {
  pending = (memory_add_pending 0 16 MemoryOp.read slow).1.pending;
  cycle_counter = 3;
}

-- A line with signature 0 in a cache of any contents.
abbrev block : ℕ → ℕ
block j = 0x1111 * (j + 1)

abbrev one_line : Cache
one_line = update empty_cache 4 (record { sig = 0; block = update (λ _. 0) 1 0x55; valid = true })

write_d_words_example :
    (((write_d_cache 0x24 0xaa 1 one_line).1 4).block 0 ≡ 0xff)
    × (((write_d_cache 0x24 0xaa 1 one_line).1 4).block 1 ≡ 0)
write_d_words_example = write_d_words 0x24 0xaa 1 one_line (omega arith) (omega arith) (omega arith)

not_found : (found_btb 40 0 empty_btb).0 ≡ false
unfolding found_btb
not_found = refl

found-update_example : found_btb 40 0 (update_btb 40 16 empty_btb) ≡ (true, 16)
found-update_example = found-update 40 16 0 empty-IsValid not_found

abbrev blank : BtbEntry
blank = record { pc = 0; predict_pc = 0; valid = false }

-- The buffer once a branch from 40 to 16 has been taken.
abbrev trained : Btb
trained = update_btb 40 16 empty_btb

trained-IsValid : IsValid trained
trained-IsValid = update-IsValid 40 16 0 empty-IsValid not_found

trained_found : (found_btb 40 0 trained).0 ≡ true
unfolding found_btb update_btb
trained_found = refl

found-delete_example : (found_btb 40 0 (delete_btb 40 trained)).0 ≡ stale_first 40 trained.entries
found-delete_example = found-delete 40 0 trained-IsValid trained_found

register_read-write_example :
    register_read (register_write (register_reset_cycle zero_registers) 3 9) 3 0 ≡ (9, 0)
register_read-write_example = register_read-write zero_registers 3 9 3 0
