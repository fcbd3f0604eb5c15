-- ===== src/RoundTrip/Row.antt =====
-- A line of a dump as the load of a hex file reads it.
use risc5_simulator.Common.{
  ℕ, zero, suc, ◌+◌, ◌*◌, ◌/◌, ◌%◌, ◌^◌, ◌<◌, Bool, true, false, ltb, ◌!=◌, not, ◌≡◌, refl, sym, ap,
  ◌∙◌, arith, List, [], ◌∷◌, ◌++◌, length, length-append, append_assoc, if◌then◌else◌, u8, u32, u64,
  update, none,
}
use native.Mathlib.Nat.{zero-add}
use risc5_simulator.Text.{
  Bytes, c_string, scan, is_digit, is_sep, tokens, strtol, print_padded, digit_char,
}
use risc5_simulator.Text.Digits.{
  all, all-append, all_mono, all_one, print_padded_digits, scan-print_padded,
}
use risc5_simulator.Text.Reading.{
  strtol_octal, c_string_lem, tokens_word, tokens_nil, tokens-sep, starts,
}
use risc5_simulator.Memory.{Buffer, memory_load}
use risc5_simulator.Loader.{load_bytes, load_line, load_tokens, Loading}
use risc5_simulator.Loader.Verify.{verify_base_octal}
use risc5_simulator.Dumper.{print_bytes, print_row}
use risc5_simulator.RoundTrip.Digits.{two_digits, print_padded_byte, byte_strtol, byte_verify}

-- The words of the bytes from index `i` on.
byte_words : ℕ → ℕ → Buffer → List Bytes
byte_words zero i buf = []
byte_words (suc k) i buf = two_digits (buf i) ∷ byte_words k (i + 1) buf

-- The buffer that a load leaves behind for them.
unfoldable pub filled : Buffer → ℕ → ℕ → ℕ → Buffer → Buffer
filled membuf n i zero buf = membuf
filled membuf n i (suc k) buf = filled (update membuf n (buf i)) (n + 1) (i + 1) k buf

load_bytes_words :
    (k i n : ℕ) (buf membuf : Buffer)
    → ((j : ℕ) → buf j < 256)
    → load_bytes membuf n (byte_words k i buf) ≡ (true, n + k, filled membuf n i k buf)
unfolding load_bytes byte_words filled
load_bytes_words zero i n buf membuf h = ap (λ (t : ℕ). (true, t, membuf)) (omega arith)
load_bytes_words (suc k) i n buf membuf h =
    let low : u32 (buf i) ≡ buf i = omega (arith, h i) in
    let low8 : u8 (buf i) ≡ buf i = omega (arith, h i) in
    let small : ltb 255 (buf i) ≡ false = ground (arith, h i) in
    rw
      (
        byte_strtol (buf i) (h i),
        low,
        low8,
        small,
        byte_verify (buf i) (h i),
        load_bytes_words k (i + 1) (n + 1) buf (update membuf n (buf i)) h,
      )
      (ap (λ (t : ℕ). (true, t, filled (update membuf n (buf i)) (n + 1) (i + 1) k buf))
        (omega arith))

two_word : (b : ℕ) → b < 256 → all (λ c. not (is_sep c)) (two_digits b) ≡ true
unfolding two_digits all
two_word b h =
    let hi : not (is_sep (digit_char (b / 16))) ≡ true = ground arith in
    let lo : not (is_sep (digit_char (b % 16))) ≡ true = ground arith in rw (hi, lo) refl

bytes_starts : (k i : ℕ) (buf : Buffer) → starts is_sep (print_bytes k i buf ++ b'\n' ∷ []) ≡ true
unfolding print_bytes
bytes_starts zero i buf = refl
bytes_starts (suc k) i buf = refl

tokens_byte :
    (b : ℕ) (s : Bytes)
    → b < 256
    → starts is_sep (s ++ b'\n' ∷ []) ≡ true
    → tokens is_sep ((print_padded 16 2 b ++ s) ++ b'\n' ∷ [])
      ≡ two_digits b ∷ tokens is_sep (s ++ b'\n' ∷ [])
unfolding two_digits
tokens_byte b s h hs =
    ap (λ (t : Bytes). tokens is_sep ((t ++ s) ++ b'\n' ∷ [])) (print_padded_byte b h)
    ∙ tokens_word is_sep (two_digits b) (s ++ b'\n' ∷ []) (omega arith) (two_word b h) hs

tokens_bytes :
    (k i : ℕ) (buf : Buffer)
    → ((j : ℕ) → buf j < 256)
    → tokens is_sep (print_bytes k i buf ++ b'\n' ∷ []) ≡ byte_words k i buf
unfolding print_bytes byte_words
tokens_bytes zero i buf h = tokens-sep is_sep b'\n' [] refl ∙ tokens_nil is_sep
tokens_bytes (suc k) i buf h =
    let rest = print_bytes k (i + 1) buf in
    tokens-sep is_sep b' ' ((print_padded 16 2 (buf i) ++ rest) ++ b'\n' ∷ []) refl
    ∙ tokens_byte (buf i) rest (h i) (bytes_starts k (i + 1) buf)
    ∙ ap (λ (t : List Bytes). two_digits (buf i) ∷ t) (tokens_bytes k (i + 1) buf h)

-- The octal digits of an address stay in one piece.
address_word : (s : Bytes) → all (is_digit 8) s ≡ true → all (λ c. not (is_sep c)) s ≡ true
address_word = all_mono (is_digit 8) (λ c. not (is_sep c)) (λ c h. ground arith)

tokens_row :
    (address count : ℕ) (buf : Buffer)
    → address < 8 ^ 12
    → ((j : ℕ) → buf j < 256)
    → tokens is_sep (print_row address count buf)
      ≡ print_padded 8 12 address ∷ byte_words count 0 buf
unfolding print_row
tokens_row address count buf ha h =
    let (digits, len) = print_padded_digits 8 12 address (omega arith) (omega arith) ha in
    tokens_word is_sep (print_padded 8 12 address) (print_bytes count 0 buf ++ b'\n' ∷ [])
      (omega (arith, len)) (address_word (print_padded 8 12 address) digits)
      (bytes_starts count 0 buf)
    ∙ rw (tokens_bytes count 0 buf h) refl

all_bytes :
    (p : ℕ → Bool)
    → p b' ' ≡ true
    → ((c : ℕ) → is_digit 16 c ≡ true → p c ≡ true)
    → (k i : ℕ) (buf : Buffer) → ((j : ℕ) → buf j < 256)
    → (all p (print_bytes k i buf) ≡ true) × (length (print_bytes k i buf) ≡ 3 * k)
unfolding print_bytes all
all_bytes p space hex zero i buf h = (refl, omega arith)
all_bytes p space hex (suc k) i buf h =
    let (digits, len) =
      print_padded_digits 16 2 (buf i) (omega arith) (omega arith) (omega (arith, h i)) in
    let (rest, len') = all_bytes p space hex k (i + 1) buf h in
    rw (space, length-append (print_padded 16 2 (buf i)) (print_bytes k (i + 1) buf), len, len')
      (
        all-append p (print_padded 16 2 (buf i)) (print_bytes k (i + 1) buf)
            (all_mono (is_digit 16) p hex (print_padded 16 2 (buf i)) digits) rest,
        omega arith,
      )

unfoldable pub row_body : ℕ → ℕ → Buffer → Bytes
row_body address count buf = print_padded 8 12 address ++ print_bytes count 0 buf

pub print_row_body :
    (address count : ℕ) (buf : Buffer)
    → print_row address count buf ≡ row_body address count buf ++ b'\n' ∷ []
unfolding print_row row_body
print_row_body address count buf =
    sym (append_assoc (print_padded 8 12 address) (print_bytes count 0 buf) (b'\n' ∷ []))

-- Characters that are in no line but at its end.
pub all_row :
    (p : ℕ → Bool)
    → p b' ' ≡ true
    → ((c : ℕ) → is_digit 16 c ≡ true → p c ≡ true)
    → (address count : ℕ) (buf : Buffer) → address < 8 ^ 12
    → ((j : ℕ) → buf j < 256)
    → (all p (row_body address count buf) ≡ true)
      × (length (row_body address count buf) ≡ 12 + 3 * count)
unfolding row_body
all_row p space hex address count buf ha h =
    let (digits, len) = print_padded_digits 8 12 address (omega arith) (omega arith) ha in
    let (rest, len') = all_bytes p space hex count 0 buf h in
    let octal : all p (print_padded 8 12 address) ≡ true =
      all_mono (is_digit 8) p (λ c hc. hex c (ground arith)) (print_padded 8 12 address) digits in
    rw (length-append (print_padded 8 12 address) (print_bytes count 0 buf), len, len')
      (all-append p (print_padded 8 12 address) (print_bytes count 0 buf) octal rest, refl)

c_string_row :
    (address count : ℕ) (buf : Buffer)
    → address < 8 ^ 12
    → ((j : ℕ) → buf j < 256)
    → c_string (print_row address count buf) ≡ print_row address count buf
c_string_row address count buf ha h = c_string_lem (print_row address count buf) (
    rw (print_row_body address count buf) (
      all-append (λ c. c != 0) (row_body address count buf) (b'\n' ∷ [])
        (all_row (λ c. c != 0) refl (λ c hc. ground arith) address count buf ha h).0
        (all_one (λ c. c != 0) b'\n' refl)))

-- What the load of a line makes of the loop's state.
unfoldable pub row_loaded : ℕ → ℕ → ℕ → Buffer → Loading → Loading
row_loaded addr address count buf l =
    let membuf = filled l.membuf 0 0 count buf in
    record {
      membuf = membuf;
      memory =
          if ltb 0 count
          then (memory_load membuf (u64 (addr + address)) count l.memory).1
          else l.memory;
    }

pub load_line_row :
    (addr lineno address count : ℕ) (buf : Buffer) (l : Loading)
    → address < 8 ^ 12
    → ((j : ℕ) → buf j < 256)
    → load_line addr lineno (print_row address count buf) l
      ≡ (none, row_loaded addr address count buf l)
unfolding load_line load_tokens row_loaded
load_line_row addr lineno address count buf l ha h =
    let (digits, len) = print_padded_digits 8 12 address (omega arith) (omega arith) ha in
    let spelled : scan 8 0 (print_padded 8 12 address) ≡ address =
      scan-print_padded 8 12 0 address (omega arith) (omega arith) ha ∙ omega arith in
    let read : strtol 8 (print_padded 8 12 address) ≡ address =
      strtol_octal (print_padded 8 12 address) (omega (arith, len)) digits (omega (arith, spelled))
      ∙ spelled in
    rw
      (
        c_string_row address count buf ha h,
        tokens_row address count buf ha h,
        read,
        load_bytes_words count 0 0 buf l.membuf h,
        verify_base_octal (print_padded 8 12 address),
        digits,
        zero-add count,
      )
      refl
