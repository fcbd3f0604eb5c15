-- ===== src/RoundTrip/Files.antt =====
-- A dump to a file and a later load of the file.
use risc5_simulator.Common.{
  ℕ, ◌+◌, ◌^◌, ◌≤◌, ◌<◌, true, ◌==◌, ◌≡◌, refl, ap₂, ◌∙◌, arith, [], ◌∷◌, some,
}
use native.Mathlib.Nat.{add-zero}
use risc5_simulator.Text.{Bytes}
use risc5_simulator.Memory.{Buffer, Memory}
use risc5_simulator.Memory.Copy.{pasted}
use risc5_simulator.Session.{Session, Message, say}
use risc5_simulator.Loader.{load_text, load_data_from_file, Loading}
use risc5_simulator.Dumper.{print_rows, rounds, same_name, dump_data_to_file}
use risc5_simulator.RoundTrip.Reads.{Reads}
use risc5_simulator.RoundTrip.Rows.{Reads-rows, dump_pasted}

same_name_refl : (name : Bytes) → same_name name name ≡ true
unfolding same_name
same_name_refl [] = refl
same_name_refl (c ∷ s) = let same : c == c ≡ true = ground arith in rw (same, same_name_refl s) refl

-- The text that a dump writes.
dump_text : ℕ → ℕ → Session → Bytes
dump_text a len s = (print_rows (rounds len) a 0 len s.buf s.machine.memory).0

dump_lem :
    (name : Bytes) (a len : ℕ) (s : Session)
    → s.writable name ≡ true
    → let r = dump_data_to_file (some name) true a len s in
      (r.0 ≡ true) × (r.1.files name ≡ some (dump_text a len s))
unfolding dump_data_to_file dump_text
dump_lem name a len s w = rw (w, same_name_refl name) (refl, refl)

load_text-Reads :
    (addr : ℕ) (text : Bytes) (s : Session) (m : Memory)
    → Reads addr 0 text (record { membuf = s.membuf; memory = s.machine.memory }) m
    → ((load_text addr text s).0 ≡ true)
      × ((load_text addr text s).1.machine ≡ record (s.machine) { memory = m })
unfolding load_text
load_text-Reads addr text s m (good, e) = rw (load_text, good, e) (refl, refl)

load_lem :
    (name text : Bytes) (addr : ℕ) (s : Session)
    → s.files name ≡ some text
    → load_data_from_file (some name) true addr s
      ≡ load_text addr text (say (Message.loading addr true) s)
unfolding load_data_from_file
load_lem name text addr s e = rw (load_data_from_file, e) refl

dump_text-Reads :
    (d a len : ℕ) (s later : Session)
    → a + len ≤ s.machine.memory.mem_size
    → s.machine.memory.mem_size < 2 ^ 36
    → ((i : ℕ) → s.machine.memory.bytes i < 256)
    → ((i : ℕ) → s.buf i < 256)
    → d + a + len ≤ later.machine.memory.mem_size
    → later.machine.memory.mem_size < 2 ^ 63
    → Reads d 0
        (dump_text a len s)
        (record { membuf = later.membuf; memory = later.machine.memory })
        (pasted (λ i. s.machine.memory.bytes (a + i)) (d + a) len later.machine.memory)
unfolding dump_text
dump_text-Reads d a len s later ha hm hb hbuf hd hl = let (good, e) = rows in (good, e ∙ from_zero)
  where
    l : Loading
    l = record { membuf = later.membuf; memory = later.machine.memory }

    rows :
        Reads d 0
          (print_rows (rounds len) a 0 len s.buf s.machine.memory).0
          l
          (dump_pasted d a 0 len s.machine.memory later.machine.memory)
    rows =
        Reads-rows (rounds len) a 0 len d 0 s.buf s.machine.memory l (omega arith) ha hm hd hl hb
          hbuf

    from_zero :
        dump_pasted d a 0 len s.machine.memory later.machine.memory
        ≡ pasted (λ i. s.machine.memory.bytes (a + i)) (d + a) len later.machine.memory
    from_zero =
        ap₂
          (λ (t k : ℕ). pasted (λ i. s.machine.memory.bytes (t + i)) (d + t) k later.machine.memory)
          (add-zero a) (omega arith)

-- A file that a hex dump of `len` bytes from `a` on has written, if the file can be written and the
-- bytes are in a memory below 2^36 bytes, is read without a complaint by every later hex load, and
-- the bytes come to stand from `d + a` on in the memory of that time if they fit it, where `d` is the
-- address of the load. Nothing else of the machine changes.
pub load-dump :
    (name : Bytes) (d a len : ℕ) (s later : Session)
    → s.writable name ≡ true
    → a + len ≤ s.machine.memory.mem_size
    → s.machine.memory.mem_size < 2 ^ 36
    → ((i : ℕ) → s.machine.memory.bytes i < 256)
    → ((i : ℕ) → s.buf i < 256)
    → later.files name ≡ (dump_data_to_file (some name) true a len s).1.files name
    → d + a + len ≤ later.machine.memory.mem_size
    → later.machine.memory.mem_size < 2 ^ 63
    → let loaded = load_data_from_file (some name) true d later in
      let from_a : Buffer = λ i. s.machine.memory.bytes (a + i) in
      ((dump_data_to_file (some name) true a len s).0 ≡ true)
      × (loaded.0 ≡ true)
      × (loaded.1.machine
          ≡ record (later.machine) { memory = pasted from_a (d + a) len later.machine.memory })
load-dump name d a len s later w ha hm hb hbuf file hd hl =
    let (ok, written) = dump_lem name a len s w in
    let (good, machine) =
      load_text-Reads d (dump_text a len s) (say (Message.loading d true) later)
        (pasted (λ i. s.machine.memory.bytes (a + i)) (d + a) len later.machine.memory)
        (dump_text-Reads d a len s later ha hm hb hbuf hd hl) in
    rw (load_lem name (dump_text a len s) d later (file ∙ written)) (ok, good, machine)
