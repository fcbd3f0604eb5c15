-- ===== src/Dumper.antt =====
-- `dump_data_to_file` of riscv_sim_pipeline_framework.c.
use risc5_simulator.Common.{
  ℕ, zero, suc, ◌+◌, ◌-◌, ◌/◌, Bool, true, false, not, ltb, ◌==◌, ◌&&◌, if◌then◌else◌, u64, Option,
  none, some, [], ◌∷◌, ◌++◌,
}
use risc5_simulator.Text.{Bytes, print_padded}
use risc5_simulator.Memory.{Memory, Buffer, memory_dump}
use risc5_simulator.Session.{Session, Message, say}

-- `bpl`
abbrev pub bytes_per_line : ℕ
bytes_per_line = 16

-- `" %02x"` of the next bytes of the buffer, from index `i` on.
unfoldable pub print_bytes : ℕ → ℕ → Buffer → Bytes
print_bytes zero i buf = []
print_bytes (suc k) i buf = b' ' ∷ (print_padded 16 2 (buf i) ++ print_bytes k (i + 1) buf)

abbrev pub actual_bytes : ℕ → ℕ → ℕ
actual_bytes offset length =
    if ltb (length - offset) bytes_per_line then length - offset else bytes_per_line

-- One line: its text.
unfoldable pub print_row : ℕ → ℕ → Buffer → Bytes
print_row address count buf = print_padded 8 12 address ++ (print_bytes count 0 buf ++ b'\n' ∷ [])

-- The loop from `offset` on, with fuel for its rounds: the text, and what is left in the buffer.
unfoldable pub print_rows : ℕ → ℕ → ℕ → ℕ → Buffer → Memory → Bytes × Buffer
print_rows zero addr offset length buf m = ([], buf)
print_rows (suc f) addr offset length buf m =
    let count = actual_bytes offset length in
    let buf' = (memory_dump buf (u64 (addr + offset)) count m).1 in
    let (more, last) = print_rows f addr (u64 (offset + bytes_per_line)) length buf' m in
    if ltb offset length
    then (print_row (u64 (addr + offset)) count buf' ++ more, last)
    else ([], buf)

-- Two names of a file.
unfoldable pub same_name : Bytes → Bytes → Bool
same_name [] [] = true
same_name (a ∷ s) (b ∷ t) = a == b && same_name s t
same_name _ _ = false

abbrev pub with_file : Bytes → Bytes → (Bytes → Option Bytes) → Bytes → Option Bytes
with_file name text files n = if same_name name n then some text else files n

-- The rounds that a dump of `length` bytes takes, and the last test.
abbrev pub rounds : ℕ → ℕ
rounds length = length / 16 + 2

unfoldable pub dump_data_to_file : Option Bytes → Bool → ℕ → ℕ → Session → Bool × Session
dump_data_to_file filename is_hex addr length s =
    let announced = say (Message.dumping addr length is_hex) s in
    let (text, buf) = print_rows (rounds length) addr 0 length s.buf s.machine.memory in
    elim filename [
      | none ↦
          if is_hex
          then (true, record announced { buf = buf; stdout = s.stdout ++ text })
          else (false, say Message.binary_dump announced)
      | some name ↦
          if not (s.writable name)
          then (false, say Message.dump_open_failed s)
          else if is_hex
          then (true, record announced { buf = buf; files = with_file name text s.files })
          else (
            false,
            say Message.binary_dump (record announced { files = with_file name [] s.files }),
          )
    ]
