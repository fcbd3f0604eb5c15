-- ===== src/Loader.antt =====
-- `verify_base` and `load_data_from_file` of riscv_sim_pipeline_framework.c.
pub mod Verify
pub mod Lines
pub mod Bounds
pub mod Safety
use risc5_simulator.Common.{
  ℕ, ◌+◌, ◌^◌, Bool, true, false, not, ◌&&◌, ◌||◌, ltb, ◌==◌, if◌then◌else◌, u8, u32, u64, update,
  Option, none, some, List, [], ◌∷◌,
}
use risc5_simulator.Text.{Bytes, c_string, between, is_xdigit, is_sep, tokens, strtol, fgets_all}
use risc5_simulator.Memory.{Memory, Buffer, memory_load}
use risc5_simulator.Machine.{Machine}
use risc5_simulator.Session.{Session, Message, say}

-- The loop of `verify_base`.
verify_digits : ℕ → Bytes → Bool
verify_digits base [] = true
verify_digits base (c ∷ s) =
    let rest = verify_digits base s in
    if base == 8 && not (between b'0' b'7' c)
    then false
    else if base == 16 && not (is_xdigit c)
    then false
    else rest

-- Skip past `0x` if it is present.
skip_0x : ℕ → Bytes → Bytes
skip_0x base (z ∷ x ∷ s) =
    if base == 16 && z == b'0' && (x == b'x' || x == b'X') then s else z ∷ x ∷ s
skip_0x base s = s

unfoldable pub verify_base : ℕ → Bytes → Bool
unfolding verify_digits skip_0x
verify_base base s = verify_digits base (skip_0x base s)

-- The bytes of a line, from `membuf[n]` on: whether all are good, their number and the buffer. `int`
-- keeps the low 32 bits of what `strtol` returns.
unfoldable pub load_bytes : Buffer → ℕ → List Bytes → Bool × ℕ × Buffer
load_bytes membuf n [] = (true, n, membuf)
load_bytes membuf n (tok ∷ rest) =
    let b = u32 (strtol 16 tok) in
    let more = load_bytes (update membuf n (u8 b)) (n + 1) rest in
    if ltb 255 b || not (verify_base 16 tok) then (false, n, membuf) else more

-- What the loop over the lines changes.
pub record Loading : Type 0 where
  pub membuf : Buffer
  pub memory : Memory

-- The tokens of one line of a hex file: `none`, or a complaint. A load that does not fit the memory
-- is ignored.
unfoldable pub load_tokens : ℕ → ℕ → List Bytes → Loading → Option Message × Loading
load_tokens addr lineno [] l = (none, l)
load_tokens addr lineno (tok ∷ rest) l =
    let offset = strtol 8 tok in
    let (good, n, membuf) = load_bytes l.membuf 0 rest in
    let loaded = (memory_load membuf (u64 (addr + offset)) n l.memory).1 in
    if not (verify_base 8 tok)
    then (some (Message.bad_offset lineno), l)
    else if not good
    then (some (Message.bad_byte lineno), record l { membuf = membuf })
    else (none, record { membuf = membuf; memory = if ltb 0 n then loaded else l.memory })

unfoldable pub load_line : ℕ → ℕ → Bytes → Loading → Option Message × Loading
load_line addr lineno line l = load_tokens addr lineno (tokens is_sep (c_string line)) l

-- The loop over the lines that are left, `lineno` of them read before.
unfoldable pub load_lines : ℕ → ℕ → List Bytes → Loading → Option Message × Loading
load_lines addr lineno [] l = (none, l)
load_lines addr lineno (line ∷ lines) l =
    let (problem, l') = load_line addr (lineno + 1) line l in
    let more = load_lines addr (lineno + 1) lines l' in
    elim problem [ none ↦ more | some why ↦ (some why, l') ]

-- The size that the load gives to `fgets`, less the NUL.
abbrev pub line_room : ℕ
line_room = 4094

-- A load from standard input reads it to its end, or closes it at a bad line: either way no more
-- of it is read.
unfoldable pub load_text : ℕ → Bytes → Session → Bool × Session
load_text addr text s =
    let l : Loading = record { membuf = s.membuf; memory = s.machine.memory } in
    let (problem, l') = load_lines addr 0 (fgets_all line_room text) l in
    let s' : Session = record s {
      membuf = l'.membuf;
      machine = record (s.machine) { memory = l'.memory };
    } in
    elim problem [ none ↦ (true, s') | some why ↦ (false, say why s') ]

unfoldable pub load_data_from_file : Option Bytes → Bool → ℕ → Session → Bool × Session
load_data_from_file filename is_hex addr s =
    let announced = say (Message.loading addr is_hex) s in
    elim filename [
      | none ↦
          if is_hex
          then load_text addr s.stdin (record announced { stdin = [] })
          else (false, say Message.binary_load announced)
      | some name ↦ elim (s.files name) [
        | none ↦ (false, say (Message.open_failed 0) s)
        | some text ↦
            if is_hex
            then load_text addr text announced
            else (false, say Message.binary_load announced)
      ]
    ]
