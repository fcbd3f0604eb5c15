-- ===== src/Tests/Console.antt =====
-- The commands, the hex files and whole sessions.
use risc5_simulator.Common.{◌+◌, ◌≡◌, refl, arith, true, none, some, List, [], ◌∷◌, ◌++◌}
use risc5_simulator.Samples.{typical, boot, zero_locals, adding}
use risc5_simulator.Registers.{register_read_one}
use risc5_simulator.Memory.Copy.{pasted}
use risc5_simulator.Text.{Bytes, codes, same_text, scan, strtol, strtoul, c_string, tokens, fgets}
use risc5_simulator.Session.{Session, Message, Chance, say}
use risc5_simulator.Loader.{load_text, load_data_from_file}
use risc5_simulator.Loader.Bounds.{membuf_bounds}
use risc5_simulator.Loader.Safety.{SameOutside}
use risc5_simulator.Dumper.{dump_data_to_file}
use risc5_simulator.RoundTrip.Files.{load-dump}
use risc5_simulator.Commands.{
  Reply, load_from, readreg, writereg, check_for_hex, copied_line, execute_command, execute_line,
}
use risc5_simulator.Commands.Safety.{
  load_from-SameOutside, SameMachine, execute_command-SameMachine,
}
use risc5_simulator.Commands.Registers.{readreg-writereg}
use risc5_simulator.Entry.{Ending, run_typed}

-- A session of which no file exists and every file can be written.
abbrev console : Bytes → Session
console typed = record {
  machine = boot adding 0;
  files = λ _. none;
  writable = λ _. true;
  stdin = typed;
  stdout = [];
  membuf = λ _. 0;
  buf = λ _. 0;
  log = [];
}

abbrev chance : Chance
chance = record { rounds = λ _. typical; locals = zero_locals }

-- Two lines: the byte 0x13 for address 0, and an offset that is no octal number.
abbrev two_lines : List Bytes
two_lines = (codes "0 13" ++ 10 ∷ []) ∷ (codes "9 1" ++ 10 ∷ []) ∷ []

abbrev typed_lines : Bytes
typed_lines =
    codes "writereg 1 5" ++ 10 ∷ (codes "run 3" ++ 10 ∷ (codes "readreg /x 1" ++ 10 ∷ codes "exit"))

abbrev reloading : Session
reloading = record (console []) {
  files = (dump_data_to_file (some (codes "image")) true 0 20 (console [])).1.files;
}

load-dump_example :
    ((dump_data_to_file (some (codes "image")) true 0 20 (console [])).0 ≡ true)
    × ((load_data_from_file (some (codes "image")) true 64 reloading).0 ≡ true)
    × ((load_data_from_file (some (codes "image")) true 64 reloading).1.machine
        ≡ record (reloading.machine) {
          memory = pasted (λ i. adding (0 + i)) (64 + 0) 20 reloading.machine.memory;
        })
load-dump_example =
    load-dump (codes "image") 64 0 20 (console []) reloading refl (omega arith) (omega arith)
      (λ i. omega arith) (λ i. omega arith) refl (omega arith) (omega arith)

membuf_bounds_example : (load_text 0 (codes "0 13 00 00 00") (console [])).1.membuf 2048 ≡ 0
membuf_bounds_example = membuf_bounds 0 (codes "0 13 00 00 00") (console []) 2048 (omega arith)

load_from-SameOutside_example :
    SameOutside
      (load_from true (codes "0" ∷ []) (console (codes "77777777 ff"))).machine.memory
      (boot adding 0).memory
load_from-SameOutside_example =
    load_from-SameOutside true (codes "0" ∷ []) (console (codes "77777777 ff"))

execute_command-SameMachine_example :
    SameMachine
      (console [])
      (execute_command chance (codes "DUMP") (codes "0" ∷ codes "4" ∷ []) (console []))
unfolding same_text
execute_command-SameMachine_example =
    execute_command-SameMachine chance (codes "DUMP") (codes "0" ∷ codes "4" ∷ []) (console []) refl

readreg-writereg_example :
    readreg true (codes "0x1f" ∷ []) (writereg (codes "31" ∷ codes "77" ∷ []) (console []))
    ≡ Reply.go_on (
        say (Message.register_is 31 77 true) (writereg (codes "31" ∷ codes "77" ∷ []) (console [])))
unfolding strtoul scan strtol
readreg-writereg_example =
    readreg-writereg true (codes "31") (codes "77") (codes "0x1f") [] [] (console []) (omega arith)
      (omega arith)

shown : Ending → List Message
shown (Ending.finished s) = s.log
shown _ = []

abbrev register_lines : Bytes
register_lines = codes "writereg 1 5" ++ 10 ∷ (codes "READREG /X 1" ++ 10 ∷ codes "exit")

typed_registers :
    shown (run_typed (λ _. chance) 40 (console register_lines)) ≡ Message.register_is 1 5 true ∷ []
unfolding run_typed shown fgets execute_line execute_command c_string tokens copied_line same_text
    check_for_hex writereg readreg strtol strtoul scan register_read_one
typed_registers = refl
