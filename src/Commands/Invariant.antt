-- ===== src/Commands/Invariant.antt =====
-- What every command keeps.
use risc5_simulator.Common.{
  ℕ, ◌-◌, ◌≤◌, ◌≡◌, arith, Bool, not, ◌||◌, ltb, either, Option, none, some, List, [], ◌∷◌, length,
}
use risc5_simulator.Text.{Bytes, strtol, codes, same_text, c_string, is_cmdsep, tokens}
use risc5_simulator.Registers.{num_registers}
use risc5_simulator.Machine.{set_pc}
use risc5_simulator.Memory.{memory_initialize_pending}
use risc5_simulator.Simulator.{initialize_state}
use risc5_simulator.Session.{Session, Message, say, Chance}
use risc5_simulator.Simulator.Invariant.{WellFormed, simulate-WellFormed}
use risc5_simulator.Loader.{load_text, load_data_from_file}
use risc5_simulator.Dumper.{dump_data_to_file}
use risc5_simulator.Commands.{
  Reply, sim_max_line, check_for_hex, load_from, dump_from, readreg, writereg, run, setpc,
  memorystats, execute_command, copied_line, execute_line,
}

-- A session that has of the other's machine all but the memory, and no more to read than it.
abbrev Frame : Session → Session → Type 0
Frame t s =
    (t.machine.btb ≡ s.machine.btb)
    × (t.machine.i_cache ≡ s.machine.i_cache)
    × (t.machine.d_cache ≡ s.machine.d_cache)
    × (t.machine.registers ≡ s.machine.registers)
    × (length t.stdin ≤ length s.stdin)

load_text-Frame : (addr : ℕ) (text : Bytes) (s : Session) → Frame (load_text addr text s).1 s
unfolding load_text
load_text-Frame addr text s = ground arith

dump-Frame :
    (f : Option Bytes) (h : Bool) (a len : ℕ) (s : Session)
    → Frame (dump_data_to_file f h a len s).1 s
unfolding dump_data_to_file
dump-Frame f h a len s = ground arith

load-Frame :
    (f : Option Bytes) (h : Bool) (a : ℕ) (s : Session) → Frame (load_data_from_file f h a s).1 s
unfolding load_data_from_file
load-Frame none h a s =
    ground (arith, load_text-Frame a s.stdin (record (say (Message.loading a h) s) { stdin = [] }))
load-Frame (some name) h a s =
    grind (arith, λ (text : Bytes). load_text-Frame a text (say (Message.loading a h) s))

Frame-WellFormed : (t s : Session) → Frame t s → WellFormed s.machine → WellFormed t.machine
Frame-WellFormed t s (b, i, d, r, _) w = rw (b, i, d, r) w

load_from-Frame : (h : Bool) (ts : List Bytes) (s : Session) → Frame (load_from h ts s) s
unfolding load_from
load_from-Frame h [] s = ground arith
load_from-Frame h (t ∷ []) s = ground (arith, load-Frame none h (strtol 0 t) s)
load_from-Frame h (t ∷ f ∷ ts) s = ground (arith, load-Frame (some f) h (strtol 0 t) s)

dump_from-Frame : (h : Bool) (ts : List Bytes) (s : Session) → Frame (dump_from h ts s) s
unfolding dump_from
dump_from-Frame h [] s = ground arith
dump_from-Frame h (t ∷ []) s = ground arith
dump_from-Frame h (t ∷ l ∷ []) s = ground (arith, dump-Frame none h (strtol 0 t) (strtol 0 l) s)
dump_from-Frame h (t ∷ l ∷ f ∷ ts) s =
    ground (arith, dump-Frame (some f) h (strtol 0 t) (strtol 0 l) s)

-- What holds of a session of which no more than `n` bytes are left to read.
abbrev pub Sound : ℕ → Session → Type 0
Sound n s = WellFormed s.machine × (length s.stdin ≤ n)

abbrev pub Holds : (Session → Type 0) → Reply → Type 0
Holds P (Reply.go_on s) = P s
Holds P (Reply.leave s) = P s
Holds P Reply.crash = Unit {0}

Frame-Sound : (n : ℕ) (t s : Session) → Frame t s → Sound n s → Sound n t
Frame-Sound n t s f (w, le) = (Frame-WellFormed t s f w, omega (arith, f.4))

writereg-Sound : (n : ℕ) (ts : List Bytes) (s : Session) → Sound n s → Sound n (writereg ts s)
unfolding writereg
writereg-Sound n ts s h = ground arith

setpc-Frame : (ts : List Bytes) (s : Session) → Frame (setpc ts s) s
unfolding setpc set_pc
setpc-Frame ts s = ground arith

run-Sound :
    (chance : Chance) (n : ℕ) (ts : List Bytes) (s : Session)
    → Sound n s
    → Sound n (run chance ts s)
unfolding run
run-Sound chance n [] s h = h
run-Sound chance n (t ∷ ts) s (w, le) =
    let k = strtol 0 t in
    either (Sound n) (ltb k 1 || ltb 100000000 k) (w, le)
      (simulate-WellFormed chance.rounds k chance.locals s.machine w, le)

readreg-Sound :
    (n : ℕ) (h : Bool) (ts : List Bytes) (s : Session)
    → Sound n s
    → Holds (Sound n) (readreg h ts s)
unfolding readreg
readreg-Sound n h [] s g = tt
readreg-Sound n h (t ∷ ts) s g = either (Holds (Sound n)) (not (ltb (strtol 0 t) num_registers)) g g

-- A command keeps the machine well formed and puts nothing back on standard input.
execute_command-Sound :
    (chance : Chance) (cmd : Bytes) (ts : List Bytes) (n : ℕ) (s : Session)
    → Sound n s
    → Holds (Sound n) (execute_command chance cmd ts s)
unfolding execute_command initialize_state memory_initialize_pending memorystats
execute_command-Sound chance cmd ts n s h =
    either P (same_text (codes "load") cmd)
      (Frame-Sound n (load_from is_hex args s) s (load_from-Frame is_hex args s) h)
      (either P (same_text (codes "dump") cmd)
        (Frame-Sound n (dump_from is_hex args s) s (dump_from-Frame is_hex args s) h)
        (either P (same_text (codes "readreg") cmd) (readreg-Sound n is_hex args s h) (
          either P (same_text (codes "writereg") cmd) (writereg-Sound n ts s h) (
            either P (same_text (codes "run") cmd) (run-Sound chance n ts s h) (
              either P (same_text (codes "setpc") cmd)
                (Frame-Sound n (setpc ts s) s (setpc-Frame ts s) h)
                (either P (same_text (codes "initialize") cmd) h (
                  either P (same_text (codes "getpc") cmd) h (
                    either P (same_text (codes "getcycles") cmd) h (
                      either P (same_text (codes "memorystats") cmd) h
                        (either P (same_text (codes "exit") cmd) h h))))))))))
  where
    P : Reply → Type 0
    P = Holds (Sound n)

    is_hex : Bool
    is_hex = (check_for_hex ts).0

    args : List Bytes
    args = (check_for_hex ts).1

-- A line, whatever it says, keeps the machine well formed and leaves no more on standard input than
-- there was.
pub execute_line-Sound :
    (chance : Chance) (l : Bytes) (n : ℕ) (s : Session)
    → Sound n s
    → Holds (Sound n) (execute_line chance l s)
unfolding execute_line
execute_line-Sound chance l n s h =
    go (tokens is_cmdsep (copied_line (sim_max_line - 1) (c_string l)))
  where
    go :
        (ts : List Bytes)
        → Holds (Sound n) (elim ts as (λ (_ : List Bytes). Reply) [
          | [] ↦ Reply.go_on s
          | cmd ∷ args ↦ execute_command chance cmd args s
        ])
    go [] = h
    go (cmd ∷ args) = execute_command-Sound chance cmd args n s h
