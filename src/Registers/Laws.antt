-- ===== src/Registers/Laws.antt =====
-- Reading the register file after a write.
use risc5_simulator.Common.{ℕ, ◌%◌, ◌≡◌, arith, ◌==◌, if◌then◌else◌}
use risc5_simulator.Registers.{
  RegisterFile, register_read_one, register_read, register_write, register_reset_cycle,
}

-- After a write to register `d` at the start of a cycle, a read of two registers gives for each
-- the value if it is `d` among the 32 and not register 0, which reads as 0 whatever is written to
-- it; any other reads as before.
pub register_read-write :
    (f : RegisterFile) (d v r q : ℕ)
    → register_read (register_write (register_reset_cycle f) d v) r q ≡ (
      (if r % 32 == 0 then 0 else if d % 32 == r % 32 then v else register_read_one f r),
      (if q % 32 == 0 then 0 else if d % 32 == q % 32 then v else register_read_one f q),
    )
unfolding register_read register_write register_read_one register_reset_cycle
register_read-write f d v r q = ground arith
