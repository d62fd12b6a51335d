-- ===== src/Emulator/Table64/Fill.antt =====
-- The words that the loops of `SetDefaultMmuTable64` leave in memory: an entry is two words, of which
-- the upper is zero.
use m99_riscv_emulator.Prelude.{
  ℕ, suc, ◌+◌, ◌-◌, ◌*◌, ◌/◌, ◌%◌, ◌^◌, ◌<◌, ◌≡◌, refl, ◌∙◌, arith, true, some, Option, ◌&&◌, ltb,
  leb, ◌==◌, if◌then◌else◌,
}
use m99_riscv_emulator.Memory.{MemoryWrapper, write64}
use m99_riscv_emulator.Memory.Word.{word, index_of, stored, word-stored}
use m99_riscv_emulator.Memory.Wide.{write64_lem, next_word}
use m99_riscv_emulator.Memory.Bytes.{IsWords, stored-IsWords}

-- The words where the three levels begin.
abbrev pub first2 : ℕ
first2 = 0x30000000

abbrev pub first1 : ℕ
first1 = 0x30000400

abbrev pub first0 : ℕ
first0 = 0x30001400

-- A memory with an entry of 32 bits put at word `k`.
pub entered : MemoryWrapper → ℕ → ℕ → MemoryWrapper
entered m k value = stored (stored m k value) (k + 1) 0

pub write64_entry :
    (m : MemoryWrapper) (address k value : ℕ)
    → address ≡ k * 4
    → k % 2 ≡ 0
    → k < 2 ^ 30
    → value < 2 ^ 32
    → write64 m address value ≡ some (entered m k value)
unfolding entered
write64_entry m address k value e even h fits =
    let aligned : (address % 8 == 0) ≡ true = ground arith in
    let low : index_of address ≡ k = omega arith in
    let high : next_word address ≡ k + 1 = omega arith in
    let value_low : value % 2 ^ 32 ≡ value = omega arith in
    let value_high : value / 2 ^ 32 % 2 ^ 32 ≡ 0 = omega arith in
    write64_lem m address value ∙ rw (aligned, low, high, value_low, value_high) refl

pub word-entered :
    (m : MemoryWrapper) (k value j : ℕ)
    → word (entered m k value) j ≡ (if j == k + 1 then 0 else if j == k then value else word m j)
unfolding entered
word-entered m k value j =
    rw (word-stored (stored m k value) (k + 1) 0 j, word-stored m k value j) refl

pub entered-IsWords :
    (m : MemoryWrapper) (k value : ℕ) → IsWords m → value < 2 ^ 32 → IsWords (entered m k value)
unfolding entered
entered-IsWords m k value h fits =
    stored-IsWords (stored m k value) (k + 1) 0 (stored-IsWords m k value h fits) (omega arith)

-- A memory with the entries `i` to below `i + n` of the table at `from` given by `f`, and the other
-- words as in `m`.
abbrev pub Filled : MemoryWrapper → ℕ → (ℕ → ℕ) → ℕ → ℕ → MemoryWrapper → Type 0
Filled m from f i n m' =
    (k : ℕ)
    → word m' k ≡ (
        if leb (from + i * 2) k && ltb k (from + (i + n) * 2)
        then (if (k - from) % 2 == 0 then f ((k - from) / 2) else 0)
        else word m k)

abbrev pub Fills : Option (ℕ × MemoryWrapper) → ℕ → (MemoryWrapper → Type 0) → Type 0
Fills o flags P =
    (pte : ℕ) × (m : MemoryWrapper) × (o ≡ some (pte, m))
    × (pte % 2 ^ 10 ≡ flags)
    × (pte < 2 ^ 32)
    × IsWords m
    × P m

abbrev pub entry2 : ℕ → ℕ
entry2 i = if ltb i 4 then (0xC0001 + i) * 2 ^ 10 + 1 else 1

abbrev pub entry1 : ℕ → ℕ
entry1 q = (0xC0005 + q) * 2 ^ 10 + 1

abbrev pub entry0 : ℕ → ℕ
entry0 p = p * 2 ^ 10 + 15

-- One round: an entry is put after those that are there.
pub Filled-entered :
    (m m' : MemoryWrapper) (from : ℕ) (f : ℕ → ℕ) (i next n : ℕ)
    → next ≡ i + 1
    → Filled (entered m (from + i * 2) (f i)) from f next n m'
    → Filled m from f i (suc n) m'
Filled-entered m m' from f i next n e h k =
    ground (arith, h k, word-entered m (from + i * 2) (f i) k)

-- Two loops, one after the other.
pub Filled-append :
    (m m1 m2 : MemoryWrapper) (from : ℕ) (f : ℕ → ℕ) (i start n i' n' total : ℕ)
    → start ≡ i
    → i' ≡ i + n
    → total ≡ n + n'
    → Filled m from f start n m1
    → Filled m1 from f i' n' m2
    → Filled m from f i total m2
Filled-append m m1 m2 from f i start n i' n' total same e e' h h' k = ground (arith, h k, h' k)
