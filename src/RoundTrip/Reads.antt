-- ===== src/RoundTrip/Reads.antt =====
-- One line of a dump as the load of a hex file reads it.
use risc5_simulator.Common.{
  ℕ, zero, suc, ◌+◌, ◌^◌, ◌≤◌, ◌<◌, true, ltb, ◌!=◌, ◌≡◌, refl, sym, ap, ◌∙◌, arith, [], ◌∷◌, ◌++◌,
  u64, update, none,
}
use native.Mathlib.Nat.{zero-add}
use risc5_simulator.Text.{Bytes, fgets_all}
use risc5_simulator.Text.Lines.{fgets_all_line}
use risc5_simulator.Memory.{Buffer, Memory}
use risc5_simulator.Memory.Copy.{pasted, pasted_same, pasted_none, memory_load_fits}
use risc5_simulator.Loader.{load_lines, line_room, Loading}
use risc5_simulator.Loader.Lines.{load_lines_good}
use risc5_simulator.Dumper.{print_row}
use risc5_simulator.RoundTrip.Row.{
  filled, row_body, print_row_body, all_row, row_loaded, load_line_row,
}

filled_below : (k i n j : ℕ) (membuf buf : Buffer) → j < n → filled membuf n i k buf j ≡ membuf j
unfolding filled
filled_below zero i n j membuf buf h = refl
filled_below (suc k) i n j membuf buf h =
    filled_below k (i + 1) (n + 1) j (update membuf n (buf i)) buf (omega arith) ∙ ground arith

filled_lem :
    (k i n j : ℕ) (membuf buf : Buffer) → j < k → filled membuf n i k buf (n + j) ≡ buf (i + j)
unfolding filled
filled_lem zero i n j membuf buf h = ground arith
filled_lem (suc k) i n zero membuf buf h =
    filled_below k (i + 1) (n + 1) (n + 0) (update membuf n (buf i)) buf (omega arith)
    ∙ ground arith
filled_lem (suc k) i n (suc j) membuf buf h =
    let at : n + 1 + j ≡ n + suc j = omega arith in
    let from : i + 1 + j ≡ i + suc j = omega arith in
    ap (filled (update membuf n (buf i)) (n + 1) (i + 1) k buf) (sym at)
    ∙ filled_lem k (i + 1) (n + 1) j (update membuf n (buf i)) buf (omega arith)
    ∙ ap buf from

from_zero : (k j : ℕ) (membuf buf : Buffer) → j < k → filled membuf 0 0 k buf j ≡ buf j
from_zero k j membuf buf h =
    ap (filled membuf 0 0 k buf) (sym (zero-add j))
    ∙ filled_lem k 0 0 j membuf buf h
    ∙ ap buf (zero-add j)

-- The memory after the load of one line.
pub row_memory :
    (addr address count : ℕ) (buf : Buffer) (l : Loading)
    → addr + address + count ≤ l.memory.mem_size
    → l.memory.mem_size < 2 ^ 64
    → (row_loaded addr address count buf l).memory ≡ pasted buf (addr + address) count l.memory
unfolding row_loaded
row_memory addr address zero buf l h k = sym (pasted_none buf (addr + address) l.memory)
row_memory addr address (suc c) buf l h k =
    let here : u64 (addr + address) ≡ addr + address = omega arith in
    let some_bytes : ltb 0 (suc c) ≡ true = ground arith in
    rw
      (
        some_bytes,
        here,
        memory_load_fits (filled l.membuf 0 0 (suc c) buf) (addr + address) (suc c) l.memory h k,
      )
      (pasted_same (filled l.membuf 0 0 (suc c) buf) buf (addr + address) (suc c) l.memory
        (λ j hj. from_zero (suc c) j l.membuf buf hj))

-- The first line of a text that starts with a line of a dump.
fgets_all_row :
    (address count : ℕ) (buf : Buffer) (s : Bytes)
    → address < 8 ^ 12
    → count ≤ 16
    → ((j : ℕ) → buf j < 256)
    → fgets_all line_room (print_row address count buf ++ s)
      ≡ print_row address count buf ∷ fgets_all line_room s
fgets_all_row address count buf s ha hc h =
    let (line, len) =
      all_row (λ c. c != b'\n') refl (λ c hc. ground arith) address count buf ha h in
    rw (print_row_body address count buf)
      (fgets_all_line line_room (row_body address count buf) s line (omega (arith, len)))

-- The text of a hex file from line `lineno` on is loaded without a complaint and leaves the memory.
abbrev pub Reads : ℕ → ℕ → Bytes → Loading → Memory → Type 0
Reads addr lineno text l m =
    let r = load_lines addr lineno (fgets_all line_room text) l in (r.0 ≡ none) × (r.1.memory ≡ m)

pub Reads-nothing : (addr lineno : ℕ) (l : Loading) → Reads addr lineno [] l l.memory
unfolding load_lines fgets_all
Reads-nothing addr lineno l = (refl, refl)

pub Reads-row :
    (addr lineno address count : ℕ) (buf : Buffer) (text : Bytes) (l : Loading) (m : Memory)
    → address < 8 ^ 12
    → count ≤ 16
    → ((j : ℕ) → buf j < 256)
    → Reads addr (lineno + 1) text (row_loaded addr address count buf l) m
    → Reads addr lineno (print_row address count buf ++ text) l m
Reads-row addr lineno address count buf text l m ha hc hb r =
    rw
      (
        fgets_all_row address count buf text ha hc hb,
        load_lines_good addr lineno (print_row address count buf) (fgets_all line_room text) l
            (row_loaded addr address count buf l)
            (load_line_row addr (lineno + 1) address count buf l ha hb),
      )
      r
