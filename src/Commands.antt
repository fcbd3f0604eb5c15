-- ===== src/Commands.antt =====
-- `check_for_hex` and `execute_line` of riscv_sim_pipeline_framework.c: one function for each command,
-- on the tokens behind the command's word.
pub mod Invariant
pub mod Safety
pub mod Registers
use risc5_simulator.Common.{
  ℕ, zero, suc, ◌+◌, ◌-◌, ◌*◌, ◌%◌, ◌^◌, Bool, true, false, not, ◌&&◌, ◌||◌, ltb, ◌==◌, ◌!=◌,
  if◌then◌else◌, u64, update, Option, none, some, List, [], ◌∷◌,
}
use risc5_simulator.Text.{Bytes, codes, c_string, same_text, is_cmdsep, tokens, strtol, strtoul}
use risc5_simulator.Registers.{num_registers, register_read_one}
use risc5_simulator.Machine.{Machine, set_pc, get_pc}
use risc5_simulator.Simulator.{simulator_execute_instructions, initialize_state}
use risc5_simulator.Session.{Session, Message, say, Chance, memory_size}
use risc5_simulator.Loader.{verify_base, load_data_from_file}
use risc5_simulator.Dumper.{dump_data_to_file}

-- `SIM_MAX_LINE`
abbrev pub sim_max_line : ℕ
sim_max_line = 4096

-- Whether `/x` comes next, and the tokens that are left: `*token` is the first of them, or NULL.
unfoldable pub check_for_hex : List Bytes → Bool × List Bytes
check_for_hex [] = (false, [])
check_for_hex (t ∷ ts) = if same_text t (codes "/x") then (true, ts) else (false, t ∷ ts)

abbrev pub next_token : List Bytes → Option Bytes
next_token [] = none
next_token (t ∷ ts) = some t

-- How a line ends: with a result of true or false, or with a NULL pointer that is read.
pub data Reply : Type 0 where
  go_on leave : Session → Reply
  crash : Reply

unfoldable pub load_from : Bool → List Bytes → Session → Session
load_from is_hex [] s = say Message.load_usage s
load_from is_hex (t ∷ ts) s =
    let address = strtol 0 t in
    let (good, s') = load_data_from_file (next_token ts) is_hex address s in
    if not (verify_base 16 t)
    then say Message.load_usage s
    else if ltb memory_size address
    then say (Message.address_out_of_range address) s
    else if good
    then s'
    else say Message.load_failed s'

unfoldable pub dump_from : Bool → List Bytes → Session → Session
dump_from is_hex [] s = say Message.dump_usage s
dump_from is_hex (t ∷ []) s = say Message.dump_usage s
dump_from is_hex (t ∷ l ∷ ts) s =
    let address = strtol 0 t in
    let length = strtol 0 l in
    let (good, s') = dump_data_to_file (next_token ts) is_hex address length s in
    if ltb memory_size (u64 (address + length)) || ltb memory_size length
    then say (Message.dump_out_of_range address length) s
    else if good
    then s'
    else say Message.dump_failed s'

-- The usage line is not followed by a `break`: without a register the NULL is read.
unfoldable pub readreg : Bool → List Bytes → Session → Reply
readreg is_hex [] s = Reply.crash
readreg is_hex (t ∷ ts) s =
    let reg_num = strtol 0 t in
    if not (ltb reg_num num_registers)
    then Reply.go_on (say (Message.bad_register reg_num) s)
    else Reply.go_on
        (say (Message.register_is reg_num (register_read_one s.machine.registers reg_num) is_hex) s)

unfoldable pub writereg : List Bytes → Session → Session
writereg [] s = say Message.writereg_usage s
writereg (t ∷ ts) s =
    let reg_num = strtoul 0 t in
    if not (ltb reg_num num_registers) then say (Message.bad_register reg_num) s else elim ts [
      | [] ↦ say Message.no_value s
      | v ∷ _ ↦
          let f = s.machine.registers in
          let written = record f { register_file = update f.register_file reg_num (strtol 0 v) } in
          record s { machine = record (s.machine) { registers = written } }
    ]

unfoldable pub run : Chance → List Bytes → Session → Session
run chance [] s = say Message.run_usage s
run chance (t ∷ ts) s =
    let n_steps = strtol 0 t in
    let (_, after) = simulator_execute_instructions chance.rounds n_steps chance.locals s.machine in
    if ltb n_steps 1 || ltb 100000000 n_steps
    then say (Message.bad_steps n_steps) s
    else record s { machine = after }

-- A program counter outside the memory is complained about, and set all the same.
unfoldable pub setpc : List Bytes → Session → Session
setpc [] s = say Message.setpc_usage s
setpc (t ∷ ts) s =
    let prog_start = strtoul 0 t in
    let s' = if ltb memory_size prog_start then say (Message.pc_outside prog_start) s else s in
    if prog_start % 4 != 0
    then say (Message.pc_unaligned prog_start) s'
    else record s' { machine = set_pc prog_start s'.machine }

unfoldable pub memorystats : Session → Session
memorystats s =
    let m = s.machine.memory in
    say (Message.stats m.read_counter m.read_bytes m.write_counter m.write_bytes) s

unfoldable pub execute_command : Chance → Bytes → List Bytes → Session → Reply
execute_command chance cmd ts s =
    let (is_hex, args) = check_for_hex ts in
    if same_text (codes "load") cmd
    then Reply.go_on (load_from is_hex args s)
    else if same_text (codes "dump") cmd
    then Reply.go_on (dump_from is_hex args s)
    else if same_text (codes "readreg") cmd
    then readreg is_hex args s
    else if same_text (codes "writereg") cmd
    then Reply.go_on (writereg ts s)
    else if same_text (codes "run") cmd
    then Reply.go_on (run chance ts s)
    else if same_text (codes "setpc") cmd
    then Reply.go_on (setpc ts s)
    else if same_text (codes "initialize") cmd
    then Reply.go_on (record (say Message.setting_state s) { machine = initialize_state s.machine })
    else if same_text (codes "getpc") cmd
    then Reply.go_on (say (Message.pc_is (get_pc s.machine)) s)
    else if same_text (codes "getcycles") cmd
    then Reply.go_on (say (Message.cycles_are s.machine.memory.cycle_counter) s)
    else if same_text (codes "memorystats") cmd
    then Reply.go_on (memorystats s)
    else if same_text (codes "exit") cmd
    then Reply.leave s
    else Reply.go_on (say Message.unrecognized s)

-- `strncpy` of so many bytes, and the NUL that is put behind them.
unfoldable pub copied_line : ℕ → Bytes → Bytes
copied_line zero s = []
copied_line (suc n) [] = []
copied_line (suc n) (c ∷ s) = c ∷ copied_line n s

unfoldable pub execute_line : Chance → Bytes → Session → Reply
execute_line chance l s = elim (tokens is_cmdsep (copied_line (sim_max_line - 1) (c_string l))) [
  | [] ↦ Reply.go_on s
  | cmd ∷ ts ↦ execute_command chance cmd ts s
]
