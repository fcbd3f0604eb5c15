-- ===== src/Loader/Safety.antt =====
-- The load of a hex file stays within the memory.
use risc5_simulator.Common.{
  ℕ, ◌+◌, ◌^◌, ◌≤◌, ◌<◌, Bool, true, false, not, ltb, ◌≡◌, refl, ◌∙◌, arith, Bool-cases, either,
  inl, inr, List, [], ◌∷◌, length, if◌then◌else◌, u8, u32, u64, update, Option, none, some,
}
use risc5_simulator.Text.{Bytes, c_string, is_sep, tokens, strtol, scan, fgets_all}
use risc5_simulator.Text.Sizes.{Within, length-tokens, length-c_string, fgets_all-Within}
use risc5_simulator.Memory.{Buffer, Memory, memory_load}
use risc5_simulator.Session.{Session, Message, say}
use risc5_simulator.Loader.{
  verify_base, load_bytes, Loading, load_tokens, load_line, load_lines, line_room, load_text,
  load_data_from_file,
}
use risc5_simulator.Loader.Verify.{offset_lem}

-- A memory of the same size as another's, and the same outside of it.
abbrev pub SameOutside : Memory → Memory → Type 0
SameOutside m' m = (m'.mem_size ≡ m.mem_size) × ((j : ℕ) → m.mem_size ≤ j → m'.bytes j ≡ m.bytes j)

memory_load-SameOutside :
    (region : Buffer) (base size : ℕ) (m : Memory)
    → base + size < 2 ^ 64
    → SameOutside (memory_load region base size m).1 m
unfolding memory_load
memory_load-SameOutside region base size m h = (ground arith, λ j k. ground arith)

SameOutside-trans : (a b c : Memory) → SameOutside a b → SameOutside b c → SameOutside a c
SameOutside-trans a b c (e, f) (e', f') = (e ∙ e', λ j h. f j (omega (arith, e')) ∙ f' j h)

load_bytes_count :
    (membuf : Buffer) (n : ℕ) (toks : List Bytes) → (load_bytes membuf n toks).1 ≤ n + length toks
unfolding load_bytes
load_bytes_count membuf n [] = omega arith
load_bytes_count membuf n (tok ∷ rest) =
    ground (arith, load_bytes_count (update membuf n (u8 (u32 (strtol 16 tok)))) (n + 1) rest)

offset_lt : (tok : Bytes) → verify_base 8 tok ≡ true → strtol 8 tok < 2 ^ 63
unfolding strtol scan
offset_lt [] h = omega arith
offset_lt (c ∷ s) h = (offset_lem c s h).1

load_tokens-SameOutside :
    (addr lineno : ℕ) (toks : List Bytes) (l : Loading)
    → addr ≤ 2 ^ 62
    → length toks ≤ 2 ^ 62
    → SameOutside (load_tokens addr lineno toks l).1.memory l.memory
unfolding load_tokens
load_tokens-SameOutside addr lineno [] l h k = (refl, λ j le. refl)
load_tokens-SameOutside addr lineno (tok ∷ rest) l h k = elim (Bool-cases (verify_base 8 tok)) [
  | inr e ↦ rw e (refl, λ j le. refl)
  | inl e ↦
      let (_, n, membuf) = load_bytes l.membuf 0 rest in
      let base = u64 (addr + strtol 8 tok) in
      let fits : base + n < 2 ^ 64 =
        omega (arith, offset_lt tok e, load_bytes_count l.membuf 0 rest) in
      rw e (
        either Kept (not (load_bytes l.membuf 0 rest).0) (refl, λ j le. refl)
          (either (λ (m : Memory). SameOutside m l.memory) (ltb 0 n)
            (memory_load-SameOutside membuf base n l.memory fits) (refl, λ j le. refl)))
]
  where
    Kept : Option Message × Loading → Type 0
    Kept r = SameOutside r.1.memory l.memory

load_lines-SameOutside :
    (addr lineno : ℕ) (lines : List Bytes) (l : Loading)
    → addr ≤ 2 ^ 62
    → Within line_room lines
    → SameOutside (load_lines addr lineno lines l).1.memory l.memory
unfolding load_lines load_line
load_lines-SameOutside addr lineno [] l h w = (refl, λ j le. refl)
load_lines-SameOutside addr lineno (line ∷ lines) l h (Within.cons le w) =
    go (load_line addr (lineno + 1) line l)
      (load_tokens-SameOutside addr (lineno + 1) (tokens is_sep (c_string line)) l h
        (omega (arith, length-tokens is_sep (c_string line), length-c_string line)))
      (λ l'. load_lines-SameOutside addr (lineno + 1) lines l' h w)
  where
    go :
        (r : Option Message × Loading)
        → SameOutside r.1.memory l.memory
        → ((l' : Loading) → SameOutside (load_lines addr (lineno + 1) lines l').1.memory l'.memory)
        → SameOutside
            (elim (r.0) as (λ (_ : Option Message). Option Message × Loading) [
              | none ↦ load_lines addr (lineno + 1) lines r.1
              | some why ↦ (some why, r.1)
            ]).1.memory
            l.memory
    go (none, l') same rest =
        SameOutside-trans (load_lines addr (lineno + 1) lines l').1.memory l'.memory l.memory
          (rest l') same
    go (some why, l') same rest = same

load_text-SameOutside :
    (addr : ℕ) (text : Bytes) (s : Session)
    → addr ≤ 2 ^ 62
    → SameOutside (load_text addr text s).1.machine.memory s.machine.memory
unfolding load_text
load_text-SameOutside addr text s h = go (load_lines addr 0 (fgets_all line_room text) l) (
    load_lines-SameOutside addr 0 (fgets_all line_room text) l h
      (fgets_all-Within line_room text (omega arith)))
  where
    l : Loading
    l = record { membuf = s.membuf; memory = s.machine.memory }

    go :
        (r : Option Message × Loading)
        → SameOutside r.1.memory s.machine.memory
        → SameOutside
            (elim (r.0) as (λ (_ : Option Message). Bool × Session) [
              | none ↦ (
                true,
                record s {
                  membuf = r.1.membuf;
                  machine = record (s.machine) { memory = r.1.memory };
                },
              )
              | some why ↦ (
                false,
                say why (record s {
                  membuf = r.1.membuf;
                  machine = record (s.machine) { memory = r.1.memory };
                }),
              )
            ]).1.machine.memory
            s.machine.memory
    go (none, l') same = same
    go (some why, l') same = same

pub load-SameOutside :
    (f : Option Bytes) (is_hex : Bool) (addr : ℕ) (s : Session)
    → addr ≤ 2 ^ 62
    → SameOutside (load_data_from_file f is_hex addr s).1.machine.memory s.machine.memory
unfolding load_data_from_file
load-SameOutside none is_hex addr s h =
    either Kept is_hex
      (load_text-SameOutside addr s.stdin
        (record (say (Message.loading addr is_hex) s) { stdin = [] }) h)
      (refl, λ j le. refl)
  where
    Kept : Bool × Session → Type 0
    Kept r = SameOutside r.1.machine.memory s.machine.memory
load-SameOutside (some name) is_hex addr s h = go (s.files name)
  where
    Kept : Bool × Session → Type 0
    Kept r = SameOutside r.1.machine.memory s.machine.memory

    announced : Session
    announced = say (Message.loading addr is_hex) s

    go :
        (file : Option Bytes)
        → Kept (elim file as (λ (_ : Option Bytes). Bool × Session) [
          | none ↦ (false, say (Message.open_failed 0) s)
          | some text ↦
              if is_hex
              then load_text addr text announced
              else (false, say Message.binary_load announced)
        ])
    go none = (refl, λ j le. refl)
    go (some text) =
        either Kept is_hex (load_text-SameOutside addr text announced h) (refl, λ j le. refl)
