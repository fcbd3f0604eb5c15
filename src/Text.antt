-- ===== src/Text.antt =====
-- What the command interpreter uses of the C library's text functions. A string is the list of the
-- bytes before its NUL.
pub mod Digits
pub mod Reading
pub mod Lines
pub mod Sizes
use Prim.Native.Char.{code}
use Prim.Native.String.{String}
use risc5_simulator.Common.{
  ℕ, zero, suc, ◌+◌, ◌-◌, ◌*◌, ◌/◌, ◌%◌, ◌^◌, Bool, true, false, not, ◌&&◌, ◌||◌, ltb, ◌==◌,
  if◌then◌else◌, List, [], ◌∷◌, ◌++◌,
}

abbrev pub Bytes : Type 0
Bytes = List ℕ

abbrev pub codes : String → Bytes
codes String.[] = []
codes (String.◌∷◌ c s) = code c ∷ codes s

-- A buffer read as a string.
unfoldable pub c_string : Bytes → Bytes
c_string [] = []
c_string (c ∷ s) = let rest = c_string s in if c == 0 then [] else c ∷ rest

abbrev pub between : ℕ → ℕ → ℕ → Bool
between low high c = not (ltb c low) && not (ltb high c)

-- `isspace`
abbrev pub is_space : ℕ → Bool
is_space c = c == b' ' || between 9 13 c

-- The value of a digit or letter as a digit, and 36 for what is neither.
abbrev pub digit_value : ℕ → ℕ
digit_value c =
    if between b'0' b'9' c
    then c - b'0'
    else if between b'a' b'z' c
    then c - b'a' + 10
    else if between b'A' b'Z' c
    then c - b'A' + 10
    else 36

abbrev pub is_digit : ℕ → ℕ → Bool
is_digit base c = ltb (digit_value c) base

-- `isxdigit`
abbrev pub is_xdigit : ℕ → Bool
is_xdigit = is_digit 16

lower : ℕ → ℕ
lower c = if between b'A' b'Z' c then c + 32 else c

-- `!strcasecmp (a, b)`
unfoldable pub same_text : Bytes → Bytes → Bool
unfolding lower
same_text [] [] = true
same_text (a ∷ s) (b ∷ t) = lower a == lower b && same_text s t
same_text _ _ = false

-- The separators that the calls of `strtok_r` name. The load of a file leaves out `\r`, but a
-- command line does not.
abbrev pub is_cmdsep : ℕ → Bool
is_cmdsep c = c == b' ' || c == b'\t' || c == b'\n' || c == b'\r'

abbrev pub is_sep : ℕ → Bool
is_sep c = c == b' ' || c == b'\t' || c == b'\n'

-- A word in front of a list of words, if it has letters.
abbrev pub push_word : Bytes → List Bytes → List Bytes
push_word [] ws = ws
push_word (c ∷ w) ws = (c ∷ w) ∷ ws

-- The word that a string begins with, and the words behind it.
pub words : (ℕ → Bool) → Bytes → Bytes × List Bytes
words sep [] = ([], [])
words sep (c ∷ s) = let (w, ws) = words sep s in if sep c then ([], push_word w ws) else (c ∷ w, ws)

-- What successive calls of `strtok_r` return for a string, before they return NULL. The calls for
-- one string name the same separators here, so this list stands for their context pointer.
unfoldable pub tokens : (ℕ → Bool) → Bytes → List Bytes
unfolding words
tokens sep s = let (w, ws) = words sep s in push_word w ws

-- The number that the digits at the front of a string spell behind `n`, with no bound.
unfoldable pub scan : ℕ → ℕ → Bytes → ℕ
scan base n [] = n
scan base n (c ∷ s) =
    let more = scan base (n * base + digit_value c) s in if is_digit base c then more else n

skip_space : Bytes → Bytes
skip_space [] = []
skip_space (c ∷ s) = let rest = skip_space s in if is_space c then rest else c ∷ s

-- Whether a minus sign stands in front, and the string behind the sign.
sign : Bytes → Bool × Bytes
sign [] = (false, [])
sign (c ∷ s) = if c == b'-' then (true, s) else if c == b'+' then (false, s) else (false, c ∷ s)

-- Whether `0x` and a hexadecimal digit stand in front.
has_0x : Bytes → Bool
has_0x (z ∷ x ∷ c ∷ _) = z == b'0' && (x == b'x' || x == b'X') && is_xdigit c
has_0x _ = false

after_0x : Bytes → Bytes
after_0x (z ∷ x ∷ s) = s
after_0x s = s

starts_with_0 : Bytes → Bool
starts_with_0 (c ∷ _) = c == b'0'
starts_with_0 [] = false

magnitude : ℕ → Bytes → ℕ
magnitude base s =
    if base == 0
    then (if has_0x s
        then scan 16 0 (after_0x s)
        else if starts_with_0 s
        then scan 8 0 s
        else scan 10 0 s)
    else if base == 16 && has_0x s
    then scan 16 0 (after_0x s)
    else scan base 0 s

-- `strtol`, as the pattern of its 64-bit result: out of range it gives the nearest value.
unfoldable pub strtol : ℕ → Bytes → ℕ
unfolding skip_space sign has_0x after_0x starts_with_0 magnitude
strtol base s =
    let (negative, t) = sign (skip_space s) in
    let n = magnitude base t in
    if negative
    then (if ltb (2 ^ 63) n then 2 ^ 63 else (2 ^ 64 - n) % 2 ^ 64)
    else if ltb n (2 ^ 63)
    then n
    else 2 ^ 63 - 1

-- `strtoul` and `strtoull`: a minus sign negates modulo 2^64.
unfoldable pub strtoul : ℕ → Bytes → ℕ
unfolding skip_space sign has_0x after_0x starts_with_0 magnitude
strtoul base s =
    let (negative, t) = sign (skip_space s) in
    let n = magnitude base t in
    if not (ltb n (2 ^ 64)) then 2 ^ 64 - 1 else if negative then (2 ^ 64 - n) % 2 ^ 64 else n

-- One call of `fgets` for `n` bytes beside the NUL: what it reads, and what it leaves.
unfoldable pub fgets : ℕ → Bytes → Bytes × Bytes
fgets zero s = ([], s)
fgets (suc n) [] = ([], [])
fgets (suc n) (c ∷ s) =
    let (line, rest) = fgets n s in if c == b'\n' then (c ∷ [], s) else (c ∷ line, rest)

-- The line in progress, of which `left` bytes may follow, and the lines behind it.
pub cut_lines : ℕ → ℕ → Bytes → Bytes × List Bytes
cut_lines n left [] = ([], [])
cut_lines n left (c ∷ s) =
    let ends = c == b'\n' || left == 1 in
    let (line, lines) = cut_lines n (if ends then n else left - 1) s in
    if ends then (c ∷ [], push_word line lines) else (c ∷ line, lines)

-- What successive calls of `fgets` for `n` bytes read of a file, before they return NULL.
unfoldable pub fgets_all : ℕ → Bytes → List Bytes
unfolding cut_lines
fgets_all n s = let (line, lines) = cut_lines n n s in push_word line lines

-- The character of a digit.
abbrev pub digit_char : ℕ → ℕ
digit_char d = if ltb d 10 then b'0' + d else b'a' + (d - 10)

-- All digits of a positive number, with fuel for 64 of them, and none of 0.
all_digits : ℕ → ℕ → ℕ → Bytes → Bytes
all_digits base zero n out = out
all_digits base (suc f) n out =
    let more = all_digits base f (n / base) (digit_char (n % base) ∷ out) in
    if n == 0 then out else more

-- `printf` of `%0wllo` (base 8) and `%0wx` (base 16): at least `w` digits, with leading zeros.
unfoldable pub print_padded : ℕ → ℕ → ℕ → Bytes
unfolding all_digits
print_padded base zero n = all_digits base 64 n []
print_padded base (suc w) n = print_padded base w (n / base) ++ digit_char (n % base) ∷ []
