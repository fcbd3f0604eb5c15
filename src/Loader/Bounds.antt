-- ===== src/Loader/Bounds.antt =====
-- The load of a hex file stays within its buffer.
use risc5_simulator.Common.{
  ℕ, suc, ◌+◌, ◌≤◌, ◌≡◌, refl, arith, List, [], ◌∷◌, length, u8, u32, update,
}
use risc5_simulator.Text.{Bytes, c_string, is_sep, tokens, strtol, fgets_all}
use risc5_simulator.Text.Sizes.{Within, length-tokens, length-c_string, fgets_all-Within}
use risc5_simulator.Memory.{Buffer}
use risc5_simulator.Session.{Session}
use risc5_simulator.Loader.{
  load_bytes, Loading, load_tokens, load_line, load_lines, line_room, load_text,
}

-- The bytes of a line change no more of the buffer than there are.
load_bytes_frame :
    (membuf : Buffer) (n : ℕ) (toks : List Bytes) (j : ℕ)
    → n + length toks ≤ j
    → (load_bytes membuf n toks).2 j ≡ membuf j
unfolding load_bytes
load_bytes_frame membuf n [] j h = refl
load_bytes_frame membuf n (tok ∷ rest) j h = ground (
  arith,
  load_bytes_frame (update membuf n (u8 (u32 (strtol 16 tok)))) (n + 1) rest j (omega arith),
)

load_tokens_frame :
    (addr lineno : ℕ) (toks : List Bytes) (l : Loading) (j : ℕ)
    → length toks ≤ suc j
    → (load_tokens addr lineno toks l).1.membuf j ≡ l.membuf j
unfolding load_tokens
load_tokens_frame addr lineno [] l j h = refl
load_tokens_frame addr lineno (tok ∷ rest) l j h =
    ground (arith, load_bytes_frame l.membuf 0 rest j (omega arith))

load_line_frame :
    (addr lineno : ℕ) (line : Bytes) (l : Loading) (j : ℕ)
    → length line ≤ line_room
    → 2046 ≤ j
    → (load_line addr lineno line l).1.membuf j ≡ l.membuf j
unfolding load_line
load_line_frame addr lineno line l j h k =
    load_tokens_frame addr lineno (tokens is_sep (c_string line)) l j
      (omega (arith, length-tokens is_sep (c_string line), length-c_string line))

load_lines_frame :
    (addr lineno : ℕ) (lines : List Bytes) (l : Loading) (j : ℕ)
    → Within line_room lines
    → 2046 ≤ j
    → (load_lines addr lineno lines l).1.membuf j ≡ l.membuf j
unfolding load_lines
load_lines_frame addr lineno [] l j w h = refl
load_lines_frame addr lineno (line ∷ lines) l j (Within.cons le w) h = ground (
  arith,
  load_line_frame addr (lineno + 1) line l j le h,
  load_lines_frame addr (lineno + 1) lines (load_line addr (lineno + 1) line l).1 j w h,
)

-- Whatever a hex file says, its load writes no byte of `membuf` from index 2046 on, and so none
-- outside its 2048 bytes.
pub membuf_bounds :
    (addr : ℕ) (text : Bytes) (s : Session) (j : ℕ)
    → 2046 ≤ j
    → (load_text addr text s).1.membuf j ≡ s.membuf j
unfolding load_text
membuf_bounds addr text s j h = ground (
  arith,
  load_lines_frame addr 0 (fgets_all line_room text)
      (record { membuf = s.membuf; memory = s.machine.memory }) j
      (fgets_all-Within line_room text (omega arith)) h,
)
