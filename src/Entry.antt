-- ===== src/Entry.antt =====
-- `main`, `readline` and `usage_and_exit` of riscv_sim_pipeline_framework.c.
pub mod Termination
use risc5_simulator.Common.{
  ℕ, zero, suc, ◌+◌, Bool, true, false, ltb, ◌==◌, if◌then◌else◌, Option, none, some, List, [], ◌∷◌,
  length,
}
use risc5_simulator.Text.{Bytes, strtol, fgets, fgets_all}
use risc5_simulator.Memory.{Memory, memory_initialize}
use risc5_simulator.Machine.{Machine}
use risc5_simulator.Simulator.{initialize_state}
use risc5_simulator.Session.{Session, Chance, memory_size}
use risc5_simulator.Commands.{Reply, go_on, leave, crash, execute_line}

-- How the program ends, or `stuck` where the fuel runs out.
pub data Ending : Type 0 where
  finished : Session → Ending  -- a return from `main`, or `exit (0)`
  failed crashed stuck : Ending  -- `exit (1)`, a NULL pointer read, no fuel

-- The lines of a command file, each with what its run finds.
unfoldable pub run_file : (ℕ → Chance) → ℕ → List Bytes → Session → Ending
run_file chances i [] s = Ending.finished s
run_file chances i (line ∷ lines) s = elim (execute_line (chances i) line s) [
  | go_on s' ↦ run_file chances (i + 1) lines s'
  | leave s' ↦ Ending.finished s'
  | crash ↦ Ending.crashed
]

-- The lines that are typed, with the fuel that is left.
unfoldable pub run_typed : (ℕ → Chance) → ℕ → Session → Ending
run_typed chances zero s = Ending.stuck
run_typed chances (suc fuel) s = elim (s.stdin) [
  | [] ↦ Ending.finished s
  | c ∷ text ↦
      let (line, rest) = fgets 8190 (c ∷ text) in
      elim (execute_line (chances fuel) line (record s { stdin = rest })) [
        | go_on s' ↦ run_typed chances fuel s'
        | leave s' ↦ Ending.finished s'
        | crash ↦ Ending.crashed
      ]
]

-- What the options have set. `commands` is the text of the command file, `none` if commands are typed.
pub record Options : Type 0 where
  pub commands : Option Bytes
  pub read_latency : ℕ
  pub write_latency : ℕ
  pub run_unit_tests : Bool

-- The loop over what `getopt` returns, letter and argument; `none` is `usage_and_exit`.
unfoldable pub parse_options : (Bytes → Option Bytes) → List (ℕ × Bytes) → Options → Option Options
parse_options files [] o = some o
parse_options files ((ch, optarg) ∷ rest) o =
    let go = parse_options files rest in
    if ch == b'f'
    then elim (files optarg) [ none ↦ none | some text ↦ go (record o { commands = some text }) ]
    else if ch == b'r'
    then go (record o { read_latency = strtol 10 optarg })
    else if ch == b'w'
    then go (record o { write_latency = strtol 10 optarg })
    else if ch == b'u'
    then go (record o { run_unit_tests = true })
    else none

abbrev no_options : Options
no_options = record { commands = none; read_latency = 0; write_latency = 0; run_unit_tests = false }

-- `memory_initialize (memory_size); initialize_state ()` after the options are set.
unfoldable pub start : Bool → Options → Session → Option Session
start allocated o s =
    let set : Memory = record (s.machine.memory) {
      read_latency = o.read_latency;
      write_latency = o.write_latency;
    } in
    elim (memory_initialize allocated memory_size set) [
      | none ↦ none
      | some m ↦ some (record s { machine = initialize_state (record (s.machine) { memory = m }) })
    ]

-- What comes after that.
unfoldable pub command_loop : (ℕ → Chance) → ℕ → Options → Session → Ending
command_loop chances fuel o s = if o.run_unit_tests then Ending.finished s else elim (o.commands) [
  | none ↦ run_typed chances fuel s
  | some text ↦ run_file chances 0 (fgets_all 1022 text) s
]

-- The program, on a session in which the static variables are zeros: the loops run on fuel.
unfoldable pub main : (ℕ → Chance) → Bool → List (ℕ × Bytes) → ℕ → Session → Ending
main chances allocated argv fuel s = elim (parse_options s.files argv no_options) [
  | none ↦ Ending.failed
  | some o ↦ elim (start allocated o s) [
    | none ↦ Ending.failed
    | some s' ↦ command_loop chances fuel o s'
  ]
]
