-- ===== src/RoundTrip/Rows.antt =====
-- All lines of a dump as the load of a hex file reads them.
use risc5_simulator.Common.{
  ℕ, zero, suc, ◌+◌, ◌-◌, ◌*◌, ◌^◌, ◌≤◌, ◌<◌, true, false, ltb, ◌≡◌, refl, sym, ap, ◌∙◌, arith, [],
  ◌++◌, u64, Bool-cases, inl, inr, ltb→lt,
}
use risc5_simulator.Memory.{Buffer, Memory, copy}
use risc5_simulator.Memory.Copy.{pasted, pasted_none, pasted-pasted, memory_dump_fits}
use risc5_simulator.Loader.{Loading}
use risc5_simulator.Dumper.{print_row, print_rows, actual_bytes}
use risc5_simulator.RoundTrip.Row.{row_loaded}
use risc5_simulator.RoundTrip.Reads.{Reads, Reads-nothing, Reads-row, row_memory}

-- The buffer of a dump after the line from offset `off` on.
dumped : ℕ → ℕ → ℕ → Buffer → Memory → Buffer
dumped a off len buf m = copy buf 0 (λ i. m.bytes (a + off + i)) (actual_bytes off len)

print_rows_round :
    (f a off len : ℕ) (buf : Buffer) (m : Memory)
    → off < len
    → a + len ≤ m.mem_size
    → m.mem_size < 2 ^ 36
    → (print_rows (suc f) a off len buf m).0
      ≡ print_row (a + off) (actual_bytes off len) (dumped a off len buf m)
        ++ (print_rows f a (off + 16) len (dumped a off len buf m) m).0
unfolding print_rows dumped
print_rows_round f a off len buf m h ha hm =
    let more : ltb off len ≡ true = ground arith in
    let here : u64 (a + off) ≡ a + off = omega arith in
    let next : u64 (off + 16) ≡ off + 16 = omega arith in
    let n = actual_bytes off len in
    let fits : a + off + n ≤ m.mem_size = ground arith in
    rw (more, here, next, memory_dump_fits buf (a + off) n m fits (omega arith)) refl

print_rows_end :
    (f a off len : ℕ) (buf : Buffer) (m : Memory)
    → len ≤ off
    → (print_rows f a off len buf m).0 ≡ []
unfolding print_rows
print_rows_end zero a off len buf m h = refl
print_rows_end (suc f) a off len buf m h =
    let done : ltb off len ≡ false = ground arith in rw done refl

Reads-end :
    (f a off len d lineno : ℕ) (buf : Buffer) (m : Memory) (l : Loading)
    → len ≤ off
    → Reads d lineno
        (print_rows f a off len buf m).0
        l
        (pasted (λ i. m.bytes (a + off + i)) (d + (a + off)) (len - off) l.memory)
Reads-end f a off len d lineno buf m l h =
    let z : len - off ≡ 0 = omega arith in
    rw
      (
        z,
        pasted_none (λ i. m.bytes (a + off + i)) (d + (a + off)) l.memory,
        print_rows_end f a off len buf m h,
      )
      (Reads-nothing d lineno l)

-- What a dump of `len` bytes of `m` from `a` on, from offset `off` on, makes of a memory if it is
-- loaded at `d`.
abbrev pub dump_pasted : ℕ → ℕ → ℕ → ℕ → Memory → Memory → Memory
dump_pasted d a off len m = pasted (λ i. m.bytes (a + off + i)) (d + (a + off)) (len - off)

dumped_byte :
    (a off len : ℕ) (buf : Buffer) (m : Memory)
    → ((i : ℕ) → m.bytes i < 256)
    → ((i : ℕ) → buf i < 256)
    → (j : ℕ) → dumped a off len buf m j < 256
unfolding dumped
dumped_byte a off len buf m bytes hb j = ground (arith, bytes (a + off + (j - 0)), hb j)

dump_pasted_round :
    (d a off len : ℕ) (buf : Buffer) (m m' : Memory)
    → off < len
    → dump_pasted d a
        (off + 16)
        len
        m
        (pasted (dumped a off len buf m) (d + (a + off)) (actual_bytes off len) m')
      ≡ dump_pasted d a off len m m'
unfolding dumped
dump_pasted_round d a off len buf m m' h =
    pasted-pasted (dumped a off len buf m) (λ i. m.bytes (a + (off + 16) + i))
      (λ i. m.bytes (a + off + i)) (d + (a + off)) (d + (a + (off + 16))) n (len - (off + 16)) m'
      (ground arith) first second
    ∙ ap (λ (k : ℕ). pasted (λ i. m.bytes (a + off + i)) (d + (a + off)) k m') (ground arith)
  where
    n : ℕ
    n = actual_bytes off len

    first : (i : ℕ) → i < n → dumped a off len buf m i ≡ m.bytes (a + off + i)
    first i hi =
        let whole : i - 0 ≡ i = omega arith in
        ground (arith, ap (λ (t : ℕ). m.bytes (a + off + t)) whole)

    second :
        (i : ℕ) → i < len - (off + 16) → m.bytes (a + (off + 16) + i) ≡ m.bytes (a + off + (n + i))
    second i hi = ap m.bytes (ground arith)

Reads-round :
    (f a off len d lineno : ℕ) (buf : Buffer) (m : Memory) (l : Loading)
    → off < len
    → a + len ≤ m.mem_size
    → m.mem_size < 2 ^ 36
    → d + a + len ≤ l.memory.mem_size
    → l.memory.mem_size < 2 ^ 63
    → ((i : ℕ) → m.bytes i < 256)
    → ((i : ℕ) → buf i < 256)
    → ((l' : Loading)
        → l'.memory.mem_size ≡ l.memory.mem_size
        → Reads d
            (lineno + 1)
            (print_rows f a (off + 16) len (dumped a off len buf m) m).0
            l'
            (dump_pasted d a (off + 16) len m l'.memory))
    → Reads d lineno (print_rows (suc f) a off len buf m).0 l (dump_pasted d a off len m l.memory)
Reads-round f a off len d lineno buf m l h ha hm hd hl bytes hb next =
    rw (print_rows_round f a off len buf m h ha hm, sym target)
      (Reads-row d lineno (a + off) n buf' (print_rows f a (off + 16) len buf' m).0 l
        (dump_pasted d a (off + 16) len m l'.memory) (omega arith) (ground arith)
        (dumped_byte a off len buf m bytes hb) (next l' (ap (λ (t : Memory). t.mem_size) after)))
  where
    n : ℕ
    n = actual_bytes off len

    buf' : Buffer
    buf' = dumped a off len buf m

    l' : Loading
    l' = row_loaded d (a + off) n buf' l

    fits : d + (a + off) + n ≤ l.memory.mem_size
    fits = ground arith

    after : l'.memory ≡ pasted buf' (d + (a + off)) n l.memory
    after = row_memory d (a + off) n buf' l fits (omega arith)

    target : dump_pasted d a (off + 16) len m l'.memory ≡ dump_pasted d a off len m l.memory
    target =
        ap (dump_pasted d a (off + 16) len m) after ∙ dump_pasted_round d a off len buf m l.memory h

-- The lines of a dump, from offset `off` on, are all good, and what is pasted is the bytes of `m`.
pub Reads-rows :
    (f a off len d lineno : ℕ) (buf : Buffer) (m : Memory) (l : Loading)
    → len ≤ off + 16 * f
    → a + len ≤ m.mem_size
    → m.mem_size < 2 ^ 36
    → d + a + len ≤ l.memory.mem_size
    → l.memory.mem_size < 2 ^ 63
    → ((i : ℕ) → m.bytes i < 256)
    → ((i : ℕ) → buf i < 256)
    → Reads d lineno (print_rows f a off len buf m).0 l (dump_pasted d a off len m l.memory)
Reads-rows zero a off len d lineno buf m l hf ha hm hd hl bytes hb =
    Reads-end zero a off len d lineno buf m l (omega arith)
Reads-rows (suc f) a off len d lineno buf m l hf ha hm hd hl bytes hb =
    elim (Bool-cases (ltb off len)) [
      | inr e ↦ Reads-end (suc f) a off len d lineno buf m l (ground arith)
      | inl e ↦
          Reads-round f a off len d lineno buf m l (ltb→lt off len e) ha hm hd hl bytes hb
            (λ l' same.
              Reads-rows f a (off + 16) len d (lineno + 1) (dumped a off len buf m) m l'
                (omega arith) ha hm (omega (arith, same)) (omega (arith, same)) bytes
                (dumped_byte a off len buf m bytes hb))
    ]
