-- ===== src/Commands/Registers.antt =====
-- The commands that write and read a register.
use risc5_simulator.Common.{
  ℕ, ◌%◌, ◌<◌, ◌==◌, ◌≡◌, ap, arith, Bool, true, ltb, if◌then◌else◌, update, List, ◌∷◌,
}
use risc5_simulator.Text.{Bytes, strtol, strtoul}
use risc5_simulator.Registers.{RegisterFile, num_registers, register_read_one}
use risc5_simulator.Session.{Session, Message, say}
use risc5_simulator.Commands.{Reply, readreg, writereg}

-- After `writereg r v`, the command `readreg q` shows the value for the register that was written,
-- the value from before for another one, and 0 for register 0 whatever was written to it; each of
-- the two words spells the number of a register.
pub readreg-writereg :
    (is_hex : Bool) (r v q : Bytes) (us ts : List Bytes) (s : Session)
    → strtoul 0 r < num_registers
    → strtol 0 q < num_registers
    → let t = writereg (r ∷ v ∷ us) s in
      let n = strtol 0 q in
      readreg is_hex (q ∷ ts) t
      ≡ Reply.go_on (
          say
            (Message.register_is n
              (if n == 0
                then 0
                else if strtoul 0 r == n
                then strtol 0 v
                else s.machine.registers.register_file n)
              is_hex)
            t)
unfolding readreg writereg register_read_one
readreg-writereg is_hex r v q us ts s hr hq =
    rw (okr, okq)
      (ap (λ (x : ℕ). Reply.go_on (say (Message.register_is (strtol 0 q) x is_hex) t)) value)
  where
    okr : ltb (strtoul 0 r) num_registers ≡ true
    okr = ground arith

    okq : ltb (strtol 0 q) num_registers ≡ true
    okq = ground arith

    f : RegisterFile
    f = s.machine.registers

    written : RegisterFile
    written = record f { register_file = update f.register_file (strtoul 0 r) (strtol 0 v) }

    t : Session
    t = record s { machine = record (s.machine) { registers = written } }

    value : register_read_one written (strtol 0 q) ≡ (
        if strtol 0 q == 0
        then 0
        else if strtoul 0 r == strtol 0 q
        then strtol 0 v
        else f.register_file (strtol 0 q))
    value = let low : strtol 0 q % 32 ≡ strtol 0 q = omega arith in rw low (ground arith)
