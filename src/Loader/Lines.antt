-- ===== src/Loader/Lines.antt =====
-- The loop over the lines of a hex file.
use risc5_simulator.Common.{ℕ, ◌+◌, ◌≡◌, ap, Option, none, some, List, ◌∷◌, ◌++◌, length}
use risc5_simulator.Text.{Bytes}
use risc5_simulator.Session.{Message}
use risc5_simulator.Loader.{Loading, load_line, load_lines}

-- What the loop does with what the load of a line has come to.
after_line : ℕ → ℕ → List Bytes → Option Message × Loading → Option Message × Loading
after_line addr lineno lines r = elim (r.0) [
  | none ↦ load_lines addr (lineno + 1) lines r.1
  | some why ↦ (some why, r.1)
]

pub load_lines_good :
    (addr lineno : ℕ) (line : Bytes) (lines : List Bytes) (l l' : Loading)
    → load_line addr (lineno + 1) line l ≡ (none, l')
    → load_lines addr lineno (line ∷ lines) l ≡ load_lines addr (lineno + 1) lines l'
unfolding load_lines after_line
load_lines_good addr lineno line lines l l' e = ap (after_line addr lineno lines) e

pub load_lines_bad :
    (addr lineno : ℕ) (line : Bytes) (lines : List Bytes) (why : Message) (l l' : Loading)
    → load_line addr (lineno + 1) line l ≡ (some why, l')
    → load_lines addr lineno (line ∷ lines) l ≡ (some why, l')
unfolding load_lines after_line
load_lines_bad addr lineno line lines why l l' e = ap (after_line addr lineno lines) e

-- A complaint of the load, about line number `n`.
pub data Complaint (n : ℕ) : Message → Type 0 where
  offset : Complaint n (Message.bad_offset n)
  byte : Complaint n (Message.bad_byte n)

-- What a line comes to: it is good, or it leads to a complaint and leaves the memory.
data LineEnd (lineno : ℕ) (r : Option Message × Loading) (l : Loading) : Type 0 where
  good : (l' : Loading) → r ≡ (none, l') → LineEnd lineno r l
  bad :
      (why : Message) (l' : Loading)
      → r ≡ (some why, l')
      → Complaint lineno why
      → l'.memory ≡ l.memory
      → LineEnd lineno r l

-- How the load of some lines ends: every line is good, or one is not.
pub data Outcome (addr lineno : ℕ) (lines : List Bytes) (l : Loading) : Type 0 where
  complete : (load_lines addr lineno lines l).0 ≡ none → Outcome addr lineno lines l
  stopped :
      (before : List Bytes) (line : Bytes) (after : List Bytes) (why : Message)
      → lines ≡ before ++ line ∷ after
      → (load_lines addr lineno before l).0 ≡ none
      → (load_lines addr lineno lines l).0 ≡ some why
      → Complaint (lineno + length before + 1) why
      → (load_lines addr lineno lines l).1.memory ≡ (load_lines addr lineno before l).1.memory
      → Outcome addr lineno lines l
