-- ===== src/Emulator/Table32/Fill.antt =====
-- The words that the loops of `SetDefaultMmuTable32` leave in memory.
use m99_riscv_emulator.Prelude.{
  ℕ, zero, suc, ◌+◌, ◌-◌, ◌*◌, ◌/◌, ◌%◌, ◌^◌, ◌≤◌, ◌<◌, ◌≡◌, refl, ap, ◌∙◌, arith, true, some,
  Option, ◌&&◌, ltb, leb, assert, ◌||◌, if◌then◌else◌, u32,
}
use m99_riscv_emulator.Prelude.Options.{bind_to}
use m99_riscv_emulator.Pte.Pte32
use m99_riscv_emulator.Pte.Ppn.{set_ppn32_lem}
use m99_riscv_emulator.Memory.{MemoryWrapper, write32}
use m99_riscv_emulator.Memory.Word.{word, index_of, stored, word-stored, write32_total}
use m99_riscv_emulator.Memory.Bytes.{IsWords, stored-IsWords}
use m99_riscv_emulator.Emulator.{mmu32_level1, mmu32_level0}
use m99_riscv_emulator.Emulator.Table32.{level_one_loop, row_loop, level_zero_loop}

-- The words where the two levels begin.
abbrev pub first1 : ℕ
first1 = 0x30000000

abbrev pub first0 : ℕ
first0 = 0x30000400

-- A memory with the words `from + i` to below `from + i + n` given by `f`, and the others as in `m`.
abbrev pub Filled : MemoryWrapper → ℕ → (ℕ → ℕ) → ℕ → ℕ → MemoryWrapper → Type 0
Filled m from f i n m' =
    (k : ℕ)
    → word m' k ≡ (if leb (from + i) k && ltb k (from + i + n) then f (k - from) else word m k)

abbrev pub Fills : Option (ℕ × MemoryWrapper) → ℕ → (MemoryWrapper → Type 0) → Type 0
Fills o flags P =
    (pte : ℕ) × (m : MemoryWrapper) × (o ≡ some (pte, m))
    × (pte % 2 ^ 10 ≡ flags)
    × (pte < 2 ^ 32)
    × IsWords m
    × P m

abbrev pub entry1 : ℕ → ℕ
entry1 q = (0xC0001 + q) * 2 ^ 10 + 1

abbrev pub entry0 : ℕ → ℕ
entry0 p = p * 2 ^ 10 + 15

pub level_one_loop_lem :
    (n i pte : ℕ) (m : MemoryWrapper)
    → pte % 2 ^ 10 ≡ 1
    → pte < 2 ^ 32
    → i + n ≤ 1024
    → IsWords m
    → Fills (level_one_loop n i pte m) 1 (Filled m first1 entry1 i n)
unfolding level_one_loop
level_one_loop_lem zero i pte m flags fits h words =
    (pte, m, refl, flags, fits, words, λ k. ground arith)
level_one_loop_lem (suc n) i pte m flags fits h words =
    let value : Pte32.set_ppn pte (u32 (mmu32_level0 + i * 1024 * 4) / 2 ^ 12) ≡ entry1 i =
      set_ppn32_lem pte (u32 (mmu32_level0 + i * 1024 * 4) / 2 ^ 12) ∙ omega arith in
    let place : index_of (u32 (mmu32_level1 + i * 4)) ≡ first1 + i = omega arith in
    let m1 : MemoryWrapper = stored m (first1 + i) (entry1 i) in
    let wrote : write32 m (u32 (mmu32_level1 + i * 4))
          (Pte32.set_ppn pte (u32 (mmu32_level0 + i * 1024 * 4) / 2 ^ 12))
        ≡ some m1 =
      write32_total m _ _ (omega arith) ∙ rw (place, value) refl in
    let (pte', m2, rest, flags', fits', words', now) =
      level_one_loop_lem n (suc i) (entry1 i) m1 (omega arith) (omega arith) (omega arith)
        (stored-IsWords m (first1 + i) (entry1 i) words (omega arith)) in
    (
      pte',
      m2,
      bind_to _ wrote (ap (λ (t : ℕ). level_one_loop n (suc i) t m1) value ∙ rest),
      flags',
      fits',
      words',
      λ k. ground (arith, now k, word-stored m (first1 + i) (entry1 i) k),
    )

row_loop_lem :
    (j n i pte : ℕ) (m : MemoryWrapper)
    → pte % 2 ^ 10 ≡ 15
    → pte < 2 ^ 32
    → i + n ≤ 1024
    → j < 1024
    → IsWords m
    → Fills (row_loop j n i pte m) 15 (Filled m first0 entry0 (j * 1024 + i) n)
unfolding row_loop
row_loop_lem j zero i pte m flags fits h row words =
    (pte, m, refl, flags, fits, words, λ k. ground arith)
row_loop_lem j (suc n) i pte m flags fits h row words =
    let p : ℕ = j * 1024 + i in
    let value : Pte32.set_ppn pte (j * 1024 + i) ≡ entry0 (j * 1024 + i) =
      set_ppn32_lem pte (j * 1024 + i) ∙ omega arith in
    let place : index_of (u32 (mmu32_level0 + (j * 1024 + i) * 4)) ≡ first0 + (j * 1024 + i) =
      omega arith in
    let apart : (ltb (u32 (mmu32_level0 + (j * 1024 + i) * 4)) mmu32_level1
          || leb (mmu32_level1 + 1024 * 4) (u32 (mmu32_level0 + (j * 1024 + i) * 4)))
        ≡ true =
      ground arith in
    let m1 : MemoryWrapper = stored m (first0 + (j * 1024 + i)) (entry0 (j * 1024 + i)) in
    let wrote : write32 m (u32 (mmu32_level0 + (j * 1024 + i) * 4))
          (Pte32.set_ppn pte (j * 1024 + i))
        ≡ some m1 =
      write32_total m _ _ (omega arith) ∙ rw (place, value) refl in
    let (pte', m2, rest, flags', fits', words', now) =
      row_loop_lem j n (suc i) (entry0 (j * 1024 + i)) m1 (omega arith) (omega arith) (omega arith)
        row
        (stored-IsWords m (first0 + (j * 1024 + i)) (entry0 (j * 1024 + i)) words (omega arith)) in
    (
      pte',
      m2,
      bind_to _ (ap assert apart)
          (bind_to _ wrote (ap (λ (t : ℕ). row_loop j n (suc i) t m1) value ∙ rest)),
      flags',
      fits',
      words',
      λ k. ground (arith, now k, word-stored m (first0 + (j * 1024 + i)) (entry0 (j * 1024 + i)) k),
    )

pub level_zero_loop_lem :
    (n j pte : ℕ) (m : MemoryWrapper)
    → pte % 2 ^ 10 ≡ 15
    → pte < 2 ^ 32
    → j + n ≤ 1024
    → IsWords m
    → Fills (level_zero_loop n j pte m) 15 (Filled m first0 entry0 (j * 1024) (n * 1024))
unfolding level_zero_loop
level_zero_loop_lem zero j pte m flags fits h words =
    (pte, m, refl, flags, fits, words, λ k. ground arith)
level_zero_loop_lem (suc n) j pte m flags fits h words =
    let (pte1, m1, filled, flags1, fits1, words1, now) =
      row_loop_lem j 1024 0 pte m flags fits (omega arith) (omega arith) words in
    let (pte2, m2, rest, flags2, fits2, words2, later) =
      level_zero_loop_lem n (suc j) pte1 m1 flags1 fits1 (omega arith) words1 in
    (pte2, m2, bind_to _ filled rest, flags2, fits2, words2, λ k. ground (arith, now k, later k))
