-- ===== src/Memory/Word.antt =====
-- Memory as a sequence of 32-bit words, which is what the word accesses implement.
use m99_riscv_emulator.Prelude.{
  ◌*◌, ◌<<<◌, ◌>>>◌, ℕ, ◌/◌, ◌%◌, ◌^◌, ◌≡◌, ◌∙◌, refl, ap, arith, true, none, some, bit_and, ◌==◌,
  if◌then◌else◌,
}
use m99_riscv_emulator.Prelude.Bits.{bit_and_mask}
use m99_riscv_emulator.Memory.{
  word_bits, MemoryWrapper, update, check_range, entry_of, place_of, read32, write32,
  generate_bit_mask, fresh,
}

-- Word `k` of the memory: a word that was never written is zero.
pub word : MemoryWrapper → ℕ → ℕ
word m k = if m.assigned (k / 2 ^ 18) then m.mapping (k / 2 ^ 18) (k % 2 ^ 18) else 0

pub word-fresh : (k : ℕ) → word fresh k ≡ 0
unfolding word fresh
word-fresh k = refl

-- The word that holds the byte at address `i`: addresses wrap at 2 ^ 32.
abbrev pub index_of : ℕ → ℕ
index_of i = i / 4 % 2 ^ 30

pub bit_and_three : (i : ℕ) → bit_and i 3 ≡ i % 4
bit_and_three i = bit_and_mask 2 i

entry_lem : (i : ℕ) → entry_of i ≡ index_of i / 2 ^ 18
unfolding entry_of generate_bit_mask
entry_lem i = bit_and_mask 12 (i / 2 ^ 20) ∙ omega arith

place_lem : (i : ℕ) → place_of i ≡ index_of i % 2 ^ 18
unfolding place_of generate_bit_mask
place_lem i = ap (λ (t : ℕ). t / 4) (bit_and_mask 20 i) ∙ omega arith

check_range_lem :
    (m : MemoryWrapper) (i : ℕ) → check_range m (entry_of i) ≡ some (m.assigned (entry_of i))
unfolding check_range
check_range_lem m i = ground (arith, entry_lem i)

-- An aligned read gives the word, and any other fails its assertion.
pub read32_lem :
    (m : MemoryWrapper) (i : ℕ)
    → read32 m i ≡ (if i % 4 == 0 then some (word m (index_of i)) else none)
unfolding read32 word
read32_lem m i = rw (bit_and_three, entry_lem, place_lem) (ground arith)

pub stored : MemoryWrapper → ℕ → ℕ → MemoryWrapper
stored m k value = record {
  mapping = update m.mapping (k / 2 ^ 18) (
      update (if m.assigned (k / 2 ^ 18) then m.mapping (k / 2 ^ 18) else (λ place. 0)) (k % 2 ^ 18)
        value);
  assigned = if m.assigned (k / 2 ^ 18) then m.assigned else update m.assigned (k / 2 ^ 18) true;
}

pub write32_lem :
    (m : MemoryWrapper) (i value : ℕ)
    → write32 m i value ≡ (if i % 4 == 0 then some (stored m (index_of i) value) else none)
unfolding write32 stored
write32_lem m i value = rw (bit_and_three, entry_lem, place_lem) (ground arith)

pub word-stored :
    (m : MemoryWrapper) (k value j : ℕ)
    → word (stored m k value) j ≡ (if j == k then value else word m j)
unfolding word stored
word-stored m k value j = ground arith

-- The aligned word round an address.
pub read32_base :
    (m : MemoryWrapper) (i : ℕ)
    → read32 m (i >>> word_bits <<< word_bits) ≡ some (word m (index_of i))
read32_base m i =
    let same : index_of (i / 4 * 4) ≡ index_of i = omega arith in
    read32_lem m (i / 4 * 4) ∙ rw same (ground arith)

pub write32_base :
    (m : MemoryWrapper) (i value : ℕ)
    → write32 m (i >>> word_bits <<< word_bits) value ≡ some (stored m (index_of i) value)
write32_base m i value =
    let same : index_of (i / 4 * 4) ≡ index_of i = omega arith in
    write32_lem m (i / 4 * 4) value ∙ rw same (ground arith)

-- An aligned write succeeds; what it leaves has the word in its place.
pub write32_total :
    (m : MemoryWrapper) (i value : ℕ)
    → i % 4 ≡ 0
    → write32 m i value ≡ some (stored m (index_of i) value)
write32_total m i value e = write32_lem m i value ∙ rw e
