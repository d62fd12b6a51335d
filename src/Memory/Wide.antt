-- ===== src/Memory/Wide.antt =====
-- The 64-bit and 16-bit accesses against words and bytes.
use native.Mathlib.Nat.{mod-eq_of_lt}
use m99_riscv_emulator.Prelude.{
  ℕ, ◌+◌, ◌*◌, ◌/◌, ◌%◌, ◌^◌, ◌<◌, ◌≡◌, ◌∙◌, ap, arith, none, some, bit_or, ◌==◌, ==_iff,
  Bool-cases, inl, inr, if◌then◌else◌, ◌>>=◌, u64, ◌<<<◌,
}
use m99_riscv_emulator.Prelude.Bits.{bit_and_mask, bit_or_comm, bit_or_disjoint}
use m99_riscv_emulator.Memory.{MemoryWrapper, read32, write32, read64, write64}
use m99_riscv_emulator.Memory.Word.{
  word, index_of, read32_lem, write32_lem, read32_base, write32_base, stored, word-stored,
}
use m99_riscv_emulator.Memory.Bytes.{byte, byte_of, IsWords, stored-IsWords}

abbrev pub next_word : ℕ → ℕ
next_word i = (i / 4 + 1) % 2 ^ 30

pub read64_lem :
    (m : MemoryWrapper) (i : ℕ)
    → IsWords m
    → read64 m i
      ≡ (if i % 8 == 0 then some (word m (next_word i) * 2 ^ 32 + word m (index_of i)) else none)
unfolding read64
read64_lem m i h = rw (bit_and_mask 3 i, read32_base, second) (rw joined (ground arith))
  where
    second : read32 m (u64 (i / 4 * 4 + 4)) ≡ some (word m (next_word i))
    second =
        read32_lem m (u64 (i / 4 * 4 + 4))
        ∙ let e : index_of (u64 (i / 4 * 4 + 4)) ≡ next_word i = omega arith in rw e (ground arith)

    joined :
        bit_or (word m (index_of i)) (u64 (word m (next_word i) <<< 32))
        ≡ word m (next_word i) * 2 ^ 32 + word m (index_of i)
    joined =
        rw
          (mod-eq_of_lt {n = word m (next_word i) * 2 ^ 32} {m = 2 ^ 64}
            (omega (arith, h (next_word i))))
          (bit_or_comm (word m (index_of i)) (word m (next_word i) * 2 ^ 32)
            ∙ bit_or_disjoint 32 (word m (next_word i)) (word m (index_of i)) (h (index_of i)))

pub write64_lem :
    (m : MemoryWrapper) (i v : ℕ)
    → write64 m i v ≡ (
        if i % 8 == 0
        then some (stored (stored m (index_of i) (v % 2 ^ 32)) (next_word i) (v / 2 ^ 32 % 2 ^ 32))
        else none)
unfolding write64
write64_lem m i v =
    rw (bit_and_mask 3 i, write32_base, bit_and_mask 32 v, bit_and_mask 32 (v / 2 ^ 32), second)
      (ground arith)
  where
    second :
        write32 (stored m (index_of i) (v % 2 ^ 32)) (u64 (i / 4 * 4 + 4)) (v / 2 ^ 32 % 2 ^ 32)
        ≡ some (stored (stored m (index_of i) (v % 2 ^ 32)) (next_word i) (v / 2 ^ 32 % 2 ^ 32))
    second =
        write32_lem (stored m (index_of i) (v % 2 ^ 32)) (u64 (i / 4 * 4 + 4)) (v / 2 ^ 32 % 2 ^ 32)
        ∙ let e : index_of (u64 (i / 4 * 4 + 4)) ≡ next_word i = omega arith in rw e (ground arith)

-- In a memory of words, a doubleword is eight bytes, the lowest first; a read that is not aligned
-- fails its assertion.
read64_bytes :
    (m : MemoryWrapper) (i : ℕ)
    → IsWords m
    → read64 m i ≡ (
        if i % 8 == 0
        then some (
            byte m i
            + byte m (i + 1) * 2 ^ 8
            + byte m (i + 2) * 2 ^ 16
            + byte m (i + 3) * 2 ^ 24
            + byte m (i + 4) * 2 ^ 32
            + byte m (i + 5) * 2 ^ 40
            + byte m (i + 6) * 2 ^ 48
            + byte m (i + 7) * 2 ^ 56)
        else none)
read64_bytes m i h = elim (Bool-cases (i % 8 == 0)) [
  | inl aligned ↦
      let e : i % 8 ≡ 0 = (==_iff _ _).0 aligned in
      rw (read64_lem m i h, aligned)
        (ap some (
          omega (
            arith,
            byte_of m i (index_of i) 0 (omega arith) (omega arith),
            byte_of m (i + 1) (index_of i) 1 (omega arith) (omega arith),
            byte_of m (i + 2) (index_of i) 2 (omega arith) (omega arith),
            byte_of m (i + 3) (index_of i) 3 (omega arith) (omega arith),
            byte_of m (i + 4) (next_word i) 0 (omega arith) (omega arith),
            byte_of m (i + 5) (next_word i) 1 (omega arith) (omega arith),
            byte_of m (i + 6) (next_word i) 2 (omega arith) (omega arith),
            byte_of m (i + 7) (next_word i) 3 (omega arith) (omega arith),
            h (index_of i),
            h (next_word i),
          )))
  | inr apart ↦ rw (read64_lem m i h, apart)
]

-- In a memory of words, reading a doubleword after writing a 64-bit value, both aligned: the
-- written value at the same address modulo 2 ^ 32, and at any other what was there before.
read64-write64 :
    (m : MemoryWrapper) (i v j : ℕ)
    → IsWords m
    → v < 2 ^ 64
    → i % 8 ≡ 0
    → j % 8 ≡ 0
    → (write64 m i v >>= λ m'. read64 m' j)
      ≡ (if j % 2 ^ 32 == i % 2 ^ 32 then some v else read64 m j)
read64-write64 m i v j h hv hi hj =
    rw (write64_lem m i v, hi, read64_lem after j words, hj, read64_lem m j h, hj)
      (ground (
        arith,
        word-stored lower (next_word i) (v / 2 ^ 32 % 2 ^ 32) (next_word j),
        word-stored lower (next_word i) (v / 2 ^ 32 % 2 ^ 32) (index_of j),
        word-stored m (index_of i) (v % 2 ^ 32) (next_word j),
        word-stored m (index_of i) (v % 2 ^ 32) (index_of j),
      ))
  where
    lower : MemoryWrapper
    lower = stored m (index_of i) (v % 2 ^ 32)

    after : MemoryWrapper
    after = stored lower (next_word i) (v / 2 ^ 32 % 2 ^ 32)

    words : IsWords after
    words =
        stored-IsWords lower (next_word i) (v / 2 ^ 32 % 2 ^ 32)
          (stored-IsWords m (index_of i) (v % 2 ^ 32) h (omega arith)) (omega arith)

-- An aligned write succeeds, and leaves a memory of words.
pub write64_total :
    (m : MemoryWrapper) (i v : ℕ)
    → i % 8 ≡ 0
    → (m' : MemoryWrapper) × (write64 m i v ≡ some m') × (IsWords m → IsWords m')
write64_total m i v e = (
  stored (stored m (index_of i) (v % 2 ^ 32)) (next_word i) (v / 2 ^ 32 % 2 ^ 32),
  write64_lem m i v ∙ rw e,
  λ h.
      stored-IsWords (stored m (index_of i) (v % 2 ^ 32)) (next_word i) (v / 2 ^ 32 % 2 ^ 32)
        (stored-IsWords m (index_of i) (v % 2 ^ 32) h (omega arith)) (omega arith),
)
