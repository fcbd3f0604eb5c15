-- ===== src/Memory/Copy.antt =====
-- Loads and dumps of the memory that fit it.
use risc5_simulator.Common.{
  ℕ, ◌+◌, ◌-◌, ◌^◌, ◌≤◌, ◌<◌, true, false, ltb, ◌≡◌, refl, ap, ◌∙◌, ◌⊎◌, inl, inr, fun_ext, arith,
  u64,
}
use risc5_simulator.Memory.{Memory, Buffer, copy, memory_load, memory_dump}

abbrev pub pasted : Buffer → ℕ → ℕ → Memory → Memory
pasted region base size m = record m { bytes = copy m.bytes base region size }

pub memory_load_fits :
    (region : Buffer) (base size : ℕ) (m : Memory)
    → base + size ≤ m.mem_size
    → m.mem_size < 2 ^ 64
    → memory_load region base size m ≡ (true, pasted region base size m)
unfolding memory_load
memory_load_fits region base size m h k =
    let fits : ltb m.mem_size (u64 (base + size)) ≡ false = ground arith in rw fits refl

pub memory_dump_fits :
    (region : Buffer) (base size : ℕ) (m : Memory)
    → base + size ≤ m.mem_size
    → m.mem_size < 2 ^ 64
    → memory_dump region base size m ≡ (true, copy region 0 (λ i. m.bytes (base + i)) size)
unfolding memory_dump
memory_dump_fits region base size m h k =
    let fits : ltb m.mem_size (u64 (base + size)) ≡ false = ground arith in rw fits refl

-- Only the bytes that are copied matter.
pub pasted_same :
    (f g : Buffer) (base size : ℕ) (m : Memory)
    → ((i : ℕ) → i < size → f i ≡ g i)
    → pasted f base size m ≡ pasted g base size m
pasted_same f g base size m h = ap (λ (b : Buffer). record m { bytes = b }) (fun_ext at)
  where
    at : (j : ℕ) → copy m.bytes base f size j ≡ copy m.bytes base g size j
    at j = ground (arith, h (j - base))

pub pasted_none : (f : Buffer) (base : ℕ) (m : Memory) → pasted f base 0 m ≡ m
pasted_none f base m = ap (λ (b : Buffer). record m { bytes = b }) (fun_ext at)
  where
    at : (j : ℕ) → copy m.bytes base f 0 j ≡ m.bytes j
    at j = ground arith

-- Two copies of which the second goes on where the first has ended.
next_pasted :
    (f g h : Buffer) (base n k : ℕ) (m : Memory)
    → ((i : ℕ) → i < n → f i ≡ h i)
    → ((i : ℕ) → i < k → g i ≡ h (n + i))
    → pasted g (base + n) k (pasted f base n m) ≡ pasted h base (n + k) m
next_pasted f g h base n k m hf hg = ap (λ (b : Buffer). record m { bytes = b }) (fun_ext at)
  where
    second : (j : ℕ) → base + n ≤ j → j < base + n + k → g (j - (base + n)) ≡ h (j - base)
    second j lo hi =
        let back : n + (j - (base + n)) ≡ j - base = omega arith in
        hg (j - (base + n)) (omega arith) ∙ ap h back

    at : (j : ℕ) → copy (copy m.bytes base f n) (base + n) g k j ≡ copy m.bytes base h (n + k) j
    at j = ground (arith, hf (j - base), second j)

-- Two copies, of which the second is empty or goes on where the first has ended.
pub pasted-pasted :
    (f g h : Buffer) (base next n k : ℕ) (m : Memory)
    → (k ≡ 0) ⊎ (next ≡ base + n)
    → ((i : ℕ) → i < n → f i ≡ h i)
    → ((i : ℕ) → i < k → g i ≡ h (n + i))
    → pasted g next k (pasted f base n m) ≡ pasted h base (n + k) m
pasted-pasted f g h base next n k m (inr e) hf hg = rw e (next_pasted f g h base n k m hf hg)
pasted-pasted f g h base next n k m (inl e) hf hg =
    let z : n + 0 ≡ n = omega arith in
    rw (e, z, pasted_none g next (pasted f base n m)) (pasted_same f h base n m hf)
