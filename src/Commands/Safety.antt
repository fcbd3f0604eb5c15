-- ===== src/Commands/Safety.antt =====
-- What the commands leave alone.
use risc5_simulator.Common.{
  ℕ, ◌≤◌, ◌||◌, ◌≡◌, refl, arith, Bool, false, not, ltb, either, Option, List, [], ◌∷◌, Bool-cases,
  inl, inr,
}
use risc5_simulator.Text.{Bytes, codes, same_text, strtol}
use risc5_simulator.Session.{Session, memory_size, Chance}
use risc5_simulator.Loader.{verify_base, load_data_from_file}
use risc5_simulator.Loader.Safety.{SameOutside, load-SameOutside}
use risc5_simulator.Registers.{num_registers}
use risc5_simulator.Dumper.{dump_data_to_file}
use risc5_simulator.Commands.{
  Reply, next_token, check_for_hex, load_from, dump_from, readreg, memorystats, execute_command,
}

-- `load`, with whatever words behind it and whatever the file says, changes no byte outside the
-- memory, and not its size: the bytes beyond the end of the array stay as they are.
pub load_from-SameOutside :
    (is_hex : Bool) (ts : List Bytes) (s : Session)
    → SameOutside (load_from is_hex ts s).machine.memory s.machine.memory
unfolding load_from
load_from-SameOutside is_hex [] s = (refl, λ j le. refl)
load_from-SameOutside is_hex (t ∷ ts) s =
    either P (not (verify_base 16 t)) (refl, λ j le. refl)
      (elim (Bool-cases (ltb memory_size (strtol 0 t))) [
        | inl e ↦ rw e (refl, λ j le. refl)
        | inr e ↦ rw e (
            either P (load_data_from_file (next_token ts) is_hex (strtol 0 t) s).0
              (same (ground arith)) (same (ground arith)))
      ])
  where
    P : Session → Type 0
    P t' = SameOutside t'.machine.memory s.machine.memory

    same :
        strtol 0 t ≤ memory_size → P (load_data_from_file (next_token ts) is_hex (strtol 0 t) s).1
    same h = load-SameOutside (next_token ts) is_hex (strtol 0 t) s (omega arith)

-- Whether a word is one of the five commands that change the machine.
abbrev pub changes : Bytes → Bool
changes cmd =
    same_text (codes "load") cmd
    || same_text (codes "writereg") cmd
    || same_text (codes "run") cmd
    || same_text (codes "setpc") cmd
    || same_text (codes "initialize") cmd

abbrev pub SameMachine : Session → Reply → Type 0
SameMachine s (Reply.go_on t) = t.machine ≡ s.machine
SameMachine s (Reply.leave t) = t.machine ≡ s.machine
SameMachine s Reply.crash = Unit {0}

dump_machine :
    (f : Option Bytes) (is_hex : Bool) (a len : ℕ) (s : Session)
    → (dump_data_to_file f is_hex a len s).1.machine ≡ s.machine
unfolding dump_data_to_file
dump_machine f is_hex a len s = ground arith

dump_from_machine :
    (is_hex : Bool) (ts : List Bytes) (s : Session) → (dump_from is_hex ts s).machine ≡ s.machine
unfolding dump_from
dump_from_machine is_hex [] s = refl
dump_from_machine is_hex (t ∷ []) s = refl
dump_from_machine is_hex (t ∷ l ∷ ts) s =
    ground (arith, dump_machine (next_token ts) is_hex (strtol 0 t) (strtol 0 l) s)

readreg-SameMachine :
    (is_hex : Bool) (ts : List Bytes) (s : Session) → SameMachine s (readreg is_hex ts s)
unfolding readreg
readreg-SameMachine is_hex [] s = tt
readreg-SameMachine is_hex (t ∷ ts) s =
    either (SameMachine s) (not (ltb (strtol 0 t) num_registers)) refl refl

-- A command whose word is none of the five that change the machine, an unknown one included, leaves
-- the machine as it is.
pub execute_command-SameMachine :
    (chance : Chance) (cmd : Bytes) (ts : List Bytes) (s : Session)
    → changes cmd ≡ false
    → SameMachine s (execute_command chance cmd ts s)
unfolding execute_command memorystats
execute_command-SameMachine chance cmd ts s h =
    let load : same_text (codes "load") cmd ≡ false = ground arith in
    let writereg : same_text (codes "writereg") cmd ≡ false = ground arith in
    let run : same_text (codes "run") cmd ≡ false = ground arith in
    let setpc : same_text (codes "setpc") cmd ≡ false = ground arith in
    let initialize : same_text (codes "initialize") cmd ≡ false = ground arith in
    rw (load, writereg, run, setpc, initialize)
      (either P (same_text (codes "dump") cmd) (dump_from_machine is_hex args s) (
        either P (same_text (codes "readreg") cmd) (readreg-SameMachine is_hex args s) (
          either P (same_text (codes "getpc") cmd) refl (
            either P (same_text (codes "getcycles") cmd) refl (
              either P (same_text (codes "memorystats") cmd) refl
                (either P (same_text (codes "exit") cmd) refl refl))))))
  where
    P : Reply → Type 0
    P = SameMachine s

    is_hex : Bool
    is_hex = (check_for_hex ts).0

    args : List Bytes
    args = (check_for_hex ts).1
