-- ===== src/Lib.antt =====
-- A model of risc5-simulator, a simulator of a five-stage RISC-V pipeline in C, with theorems about it.
--
-- The program. riscv_sim_pipeline_framework.c keeps the memory with its latency, the register file
-- and the program counter, and runs one cycle after another: the stages from the last to the first,
-- each of which reads the current pipeline registers and fills the next one of its own. pipeline.c has
-- the five stages with hazards, forwarding and branch prediction; stages.c what each stage does with
-- one instruction; executor.c the operations; utils.c the fields of an instruction word; cache.c an
-- instruction cache and a data cache in front of the memory.
--
-- The files.
--   Common: shared names; C integers as natural numbers with their wrap-around written out (u8, u16,
--     u32, u64), bit operations, sign extension, arrays.
--   Platform: what C leaves open and the code runs into, as one parameter: shifts by the width or
--     more, and local variables read before they are written. Theorems hold for every choice of it.
--   Utils: utils.c. Utils/Fields, Utils/SignExpand, Utils/Immediates and Utils/Encoding are its laws.
--   Isa: RV64I as the manual states it, which executor.c is compared with.
--   Executor: executor.c by instruction format, in Executor/Register, Executor/Immediate and
--     Executor/Control; their laws are in the files named ...Laws.
--   Memory: memory_initialize, memory_load, memory_dump, memory_read, memory_write, memory_status,
--     memory_add_pending and memory_retire_completed. The loops over the four pending slots are
--     recursions on the list of slots, so no fuel is needed. Laws in Memory/Slots, Memory/Access,
--     Memory/Bytes and Memory/Copy.
--   Registers: register_read, register_write, register_reset_cycle.
--   Cache: cache.c; the lines are functions of the line number. Laws in Cache/Index, Cache/Lines,
--     Cache/Signature and Cache/Arrival.
--   Btb: the branch target buffer of pipeline.c. Laws in Btb/Invariant and Btb/Lookup.
--   Machine: the state that the stages share, passed from one to the next and returned.
--   Stages: stages.c. Laws of its memory stage in Stages/Loads and Stages/Stores.
--   Pipeline: pipeline.c, with stage_decode and stage_execute cut into the steps that they take in
--     order. Laws in Pipeline/Fetch, Pipeline/Forwarding, Pipeline/Operands and Pipeline/Prediction.
--   Simulator: simulator_execute_instructions of both builds and initialize_state. The loop recurses
--     on the number of steps that is left, as n_steps bounds it in C. Simulator/Invariant has what
--     every cycle keeps, Simulator/Caches what the caches keep, Simulator/Squash a control hazard,
--     Simulator/Waiting a pipeline that has run dry, Simulator/Unpipelined the other build.
--   Straight: the pipeline against a machine that executes one instruction after another, for programs
--     of register instructions without jumps: the abstraction and what every cycle keeps; the proof by
--     stages (Straight/Stages, Straight/Stall, Straight/Issue, Straight/Decode), by cycle
--     (Straight/Cycle, Straight/Next) and for the loop (Straight/Refinement, Straight/Progress).
--   Text: what the commands use of the C library: strtok_r, strtol, strtoul, strcasecmp, fgets and
--     the number formats of fprintf. A string is the list of its bytes before the NUL. strtok_r is
--     the list of the words that its calls return one after another, fgets over a whole file the
--     list of the lines. Laws in Text/Digits, Text/Reading, Text/Lines and Text/Sizes.
--   Session: what the commands keep beside the machine: the files, standard input and output, the
--     static buffers of load and dump, and the messages that were printed.
--   Loader: verify_base and load_data_from_file. Laws in Loader/Verify, Loader/Lines, Loader/Bounds
--     and Loader/Safety.
--   Dumper: dump_data_to_file. Its loop runs on fuel, one unit for a line of 16 bytes and one for
--     the last test.
--   RoundTrip: a dump that is loaded again. RoundTrip/Digits is about a byte, RoundTrip/Row about a
--     line, RoundTrip/Reads about its load, RoundTrip/Rows about all lines and RoundTrip/Files about
--     the two functions.
--   Commands: check_for_hex and execute_line, with one function for each command on the words behind
--     it. Laws in Commands/Invariant, Commands/Safety and Commands/Registers.
--   Entry: main, with readline as it is without the readline library, and usage_and_exit. getopt is
--     the list of what it returns. The loop over typed lines runs on fuel: each line takes at least
--     one byte of standard input, so one more than its length is enough.
--   Samples and Tests: a small program in memory, runs and instances.
--
-- Bytes, registers and addresses are natural numbers. A pointer that a function writes through is a
-- value that comes in and goes out in the result. Registers start with any contents, so the theorems
-- do not bound them unless they say so.
--
-- A file is read as it is when it is opened: a file that a command writes while it is read is not
-- covered. Uninitialised memory that a run of the pipeline finds comes in as a parameter for each
-- line of commands (Chance).
--
-- Not modelled: the wording of the messages, the prompts and the trace that the pipeline prints; the
-- test stubs unit_test and unit_tests, which are empty; the assembly programs under instructions/.
-- `malloc` is a parameter of memory_initialize. The fields of a structure that no code uses are left
-- out.
pub mod Common
pub mod Platform
pub mod Utils
pub mod Isa
pub mod Executor
pub mod Memory
pub mod Registers
pub mod Cache
pub mod Btb
pub mod Machine
pub mod Stages
pub mod Pipeline
pub mod Simulator
pub mod Text
pub mod Session
pub mod Loader
pub mod Dumper
pub mod Commands
pub mod Straight
pub mod RoundTrip
pub mod Entry
pub mod Samples
mod Tests
