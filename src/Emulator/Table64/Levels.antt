-- ===== src/Emulator/Table64/Levels.antt =====
-- Each level's loops of `SetDefaultMmuTable64`.
use m99_riscv_emulator.Prelude.{
  ℕ, zero, suc, ◌+◌, ◌*◌, ◌/◌, ◌%◌, ◌^◌, ◌≤◌, ◌<◌, ◌≡◌, refl, ap, ◌∙◌, arith, some, Option, ltb,
  ◌==◌, if◌then◌else◌, ◌>>=◌, u32, u64, Bool-cases, inl, inr,
}
use m99_riscv_emulator.Prelude.Options.{bind_to}
use m99_riscv_emulator.BitTools.{set_bit}
use m99_riscv_emulator.BitTools.Bits.{set_bit_lem}
use m99_riscv_emulator.Pte.Pte32
use m99_riscv_emulator.Pte.Ppn.{set_ppn32_lem}
use m99_riscv_emulator.Memory.{MemoryWrapper, write64}
use m99_riscv_emulator.Memory.Bytes.{IsWords}
use m99_riscv_emulator.Emulator.{mmu64_level1}
use m99_riscv_emulator.Emulator.Table64.{
  level_two_loop, level_one_row, level_one_loop, level_zero_row, level_zero_block, level_zero_loop,
}
use m99_riscv_emulator.Emulator.Table64.Fill.{
  first2, first1, first0, entry2, entry1, entry0, entered, write64_entry, entered-IsWords, Filled,
  Fills, Filled-entered, Filled-append,
}

-- One round of a loop, and the rest of it.
module _ (m : MemoryWrapper) (from : ℕ) (f : ℕ → ℕ) (i next n flags : ℕ) (follows : next ≡ i + 1)
    (even : from % 2 ≡ 0) (inside : from + i * 2 < 2 ^ 30) (fits : f i < 2 ^ 32)
    (words : IsWords m) where
  round :
      (loop : ℕ → MemoryWrapper → Option (ℕ × MemoryWrapper)) (address pte : ℕ)
      → address ≡ (from + i * 2) * 4
      → pte ≡ f i
      → (IsWords (entered m (from + i * 2) (f i))
          → Fills
              (loop (f i) (entered m (from + i * 2) (f i)))
              flags
              (Filled (entered m (from + i * 2) (f i)) from f next n))
      → Fills (write64 m address pte >>= λ m. loop pte m) flags (Filled m from f i (suc n))
  round loop address pte e value rest =
      let wrote : write64 m address pte ≡ some (entered m (from + i * 2) (f i)) =
        rw value (write64_entry m address (from + i * 2) (f i) e (omega arith) inside fits) in
      let (pte', m', done, flags', fits', words', now) =
        rest (entered-IsWords m (from + i * 2) (f i) words fits) in
      (
        pte',
        m',
        bind_to _ wrote (ap (λ (t : ℕ). loop t (entered m (from + i * 2) (f i))) value ∙ done),
        flags',
        fits',
        words',
        Filled-entered m m' from f i next n follows now,
      )

level_two_value :
    (i pte : ℕ)
    → i < 512
    → pte % 2 ^ 10 ≡ (if i == 0 then 0 else 1)
    → pte < 2 ^ 32
    → (if ltb i 4
        then Pte32.set_ppn (Pte32.set_v pte 1) (u32 (u64 (mmu64_level1 + i * 512 * 8) / 2 ^ 12))
        else Pte32.set_ppn pte 0)
      ≡ entry2 i
unfolding Pte32.set_v
level_two_value i pte h flags fits = elim (Bool-cases (ltb i 4)) [
  | inl low ↦
      let set : set_bit 32 pte 1 0 % 2 ^ 10 ≡ 1 =
        ground (arith, set_bit_lem 32 pte 1 0 (omega arith) (omega arith) fits) in
      rw low (set_ppn32_lem _ _ ∙ ground arith)
  | inr high ↦ rw high (set_ppn32_lem pte 0 ∙ ground arith)
]

pub level_two_loop_lem :
    (n i pte : ℕ) (m : MemoryWrapper)
    → pte % 2 ^ 10 ≡ (if i == 0 then 0 else 1)
    → pte < 2 ^ 32
    → i + n ≤ 512
    → 0 < i + n
    → IsWords m
    → Fills (level_two_loop n i pte m) 1 (Filled m first2 entry2 i n)
unfolding level_two_loop
level_two_loop_lem zero i pte m flags fits h some' words =
    (pte, m, refl, ground arith, fits, words, λ k. ground arith)
level_two_loop_lem (suc n) i pte m flags fits h some' words =
    round m first2 entry2 i (suc i) n 1 (omega arith) (omega arith) (omega arith) (ground arith)
      words (λ pte m. level_two_loop n (suc i) pte m) _ _ (omega arith)
      (level_two_value i pte (omega arith) flags fits)
      (λ words'.
        level_two_loop_lem n (suc i) (entry2 i) (entered m (first2 + i * 2) (entry2 i))
          (ground arith) (ground arith) (omega arith) (omega arith) words')

level_one_row_lem :
    (j n i pte : ℕ) (m : MemoryWrapper)
    → j < 4
    → pte % 2 ^ 10 ≡ 1
    → pte < 2 ^ 32
    → i + n ≤ 512
    → IsWords m
    → Fills (level_one_row j n i pte m) 1 (Filled m first1 entry1 (j * 512 + i) n)
unfolding level_one_row
level_one_row_lem j zero i pte m row flags fits h words =
    (pte, m, refl, flags, fits, words, λ k. ground arith)
level_one_row_lem j (suc n) i pte m row flags fits h words =
    round m first1 entry1 (j * 512 + i) (j * 512 + suc i) n 1 (omega arith) (omega arith)
      (omega arith) (omega arith) words (λ pte m. level_one_row j n (suc i) pte m) _ _ (omega arith)
      (set_ppn32_lem pte _ ∙ omega arith)
      (λ words'.
        level_one_row_lem j n (suc i) (entry1 (j * 512 + i))
          (entered m (first1 + (j * 512 + i) * 2) (entry1 (j * 512 + i))) row (omega arith)
          (omega arith) (omega arith) words')

pub level_one_loop_lem :
    (n j pte : ℕ) (m : MemoryWrapper)
    → pte % 2 ^ 10 ≡ 1
    → pte < 2 ^ 32
    → j + n ≤ 4
    → IsWords m
    → Fills (level_one_loop n j pte m) 1 (Filled m first1 entry1 (j * 512) (n * 512))
unfolding level_one_loop
level_one_loop_lem zero j pte m flags fits h words =
    (pte, m, refl, flags, fits, words, λ k. ground arith)
level_one_loop_lem (suc n) j pte m flags fits h words =
    let (pte1, m1, row, flags1, fits1, words1, now) =
      level_one_row_lem j 512 0 pte m (omega arith) flags fits (omega arith) words in
    let (pte2, m2, rest, flags2, fits2, words2, later) =
      level_one_loop_lem n (suc j) pte1 m1 flags1 fits1 (omega arith) words1 in
    (
      pte2,
      m2,
      bind_to _ row rest,
      flags2,
      fits2,
      words2,
      Filled-append m m1 m2 first1 entry1 (j * 512) (j * 512 + 0) 512 (suc j * 512) (n * 512)
          (suc n * 512) (omega arith) (omega arith) (omega arith) now later,
    )

level_zero_row_lem :
    (k j n i pte : ℕ) (m : MemoryWrapper)
    → k < 4
    → j < 512
    → pte % 2 ^ 10 ≡ 15
    → pte < 2 ^ 32
    → i + n ≤ 512
    → IsWords m
    → Fills
        (level_zero_row k j n i pte m)
        15
        (Filled m first0 entry0 (k * 512 * 512 + j * 512 + i) n)
unfolding level_zero_row
level_zero_row_lem k j zero i pte m block row flags fits h words =
    (pte, m, refl, flags, fits, words, λ k. ground arith)
level_zero_row_lem k j (suc n) i pte m block row flags fits h words =
    round m first0 entry0 (k * 512 * 512 + j * 512 + i) (k * 512 * 512 + j * 512 + suc i) n 15
      (omega arith) (omega arith) (omega arith) (omega arith) words
      (λ pte m. level_zero_row k j n (suc i) pte m) _ _ (omega arith)
      (set_ppn32_lem pte _ ∙ omega arith)
      (λ words'.
        level_zero_row_lem k j n (suc i) (entry0 (k * 512 * 512 + j * 512 + i))
          (entered m (first0 + (k * 512 * 512 + j * 512 + i) * 2)
            (entry0 (k * 512 * 512 + j * 512 + i)))
          block row (omega arith) (omega arith) (omega arith) words')

level_zero_block_lem :
    (k n j pte : ℕ) (m : MemoryWrapper)
    → k < 4
    → pte % 2 ^ 10 ≡ 15
    → pte < 2 ^ 32
    → j + n ≤ 512
    → IsWords m
    → Fills
        (level_zero_block k n j pte m)
        15
        (Filled m first0 entry0 (k * 512 * 512 + j * 512) (n * 512))
unfolding level_zero_block
level_zero_block_lem k zero j pte m block flags fits h words =
    (pte, m, refl, flags, fits, words, λ k. ground arith)
level_zero_block_lem k (suc n) j pte m block flags fits h words =
    let (pte1, m1, row, flags1, fits1, words1, now) =
      level_zero_row_lem k j 512 0 pte m block (omega arith) flags fits (omega arith) words in
    let (pte2, m2, rest, flags2, fits2, words2, later) =
      level_zero_block_lem k n (suc j) pte1 m1 block flags1 fits1 (omega arith) words1 in
    (
      pte2,
      m2,
      bind_to _ row rest,
      flags2,
      fits2,
      words2,
      Filled-append m m1 m2 first0 entry0 (k * 512 * 512 + j * 512) (k * 512 * 512 + j * 512 + 0)
          512 (k * 512 * 512 + suc j * 512) (n * 512) (suc n * 512) (omega arith) (omega arith)
          (omega arith) now later,
    )

pub level_zero_loop_lem :
    (n k pte : ℕ) (m : MemoryWrapper)
    → pte % 2 ^ 10 ≡ 15
    → pte < 2 ^ 32
    → k + n ≤ 4
    → IsWords m
    → Fills
        (level_zero_loop n k pte m)
        15
        (Filled m first0 entry0 (k * 512 * 512) (n * (512 * 512)))
unfolding level_zero_loop
level_zero_loop_lem zero k pte m flags fits h words =
    (pte, m, refl, flags, fits, words, λ k. ground arith)
level_zero_loop_lem (suc n) k pte m flags fits h words =
    let (pte1, m1, block, flags1, fits1, words1, now) =
      level_zero_block_lem k 512 0 pte m (omega arith) flags fits (omega arith) words in
    let (pte2, m2, rest, flags2, fits2, words2, later) =
      level_zero_loop_lem n (suc k) pte1 m1 flags1 fits1 (omega arith) words1 in
    (
      pte2,
      m2,
      bind_to _ block rest,
      flags2,
      fits2,
      words2,
      Filled-append m m1 m2 first0 entry0 (k * 512 * 512) (k * 512 * 512 + 0 * 512) (512 * 512)
          (suc k * 512 * 512) (n * (512 * 512)) (suc n * (512 * 512)) (omega arith) (omega arith)
          (omega arith) now later,
    )
