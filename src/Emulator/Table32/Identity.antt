-- ===== src/Emulator/Table32/Identity.antt =====
-- The default 32-bit table maps every 32-bit address to itself, and goes on doing so.
use m99_riscv_emulator.Prelude.{ℕ, ◌+◌, ◌*◌, ◌/◌, ◌%◌, ◌^◌, ◌<◌, ◌≤◌, ◌≡◌, ◌⊎◌, refl, arith, some}
use m99_riscv_emulator.Prelude.Options.{bind_to}
use m99_riscv_emulator.Pte.Pte32
use m99_riscv_emulator.Memory.{MemoryWrapper}
use m99_riscv_emulator.Memory.Word.{word}
use m99_riscv_emulator.Memory.Bytes.{IsWords}
use m99_riscv_emulator.Emulator.Table32.{set_default_mmu_table32}
use m99_riscv_emulator.Emulator.Flags.{valid_flag, leaf_flags}
use m99_riscv_emulator.Emulator.Table32.Fill.{
  first1, first0, level_one_loop_lem, level_zero_loop_lem,
}

-- The two levels of the identity mapping: pointers to the pages of level 0, and there each page's
-- own number with the flags V, R, W and X; the flags above these may be any.
pub record IsIdentity32 (m : MemoryWrapper) : Type 0 where
  pub words : IsWords m
  pub pointers : (q : ℕ) → q < 1024 → word m (first1 + q) ≡ (0xC0001 + q) * 2 ^ 10 + 1
  pub pages : (p : ℕ) → p < 2 ^ 20 → word m (first0 + p) / 2 ^ 10 ≡ p
  pub flags : (p : ℕ) → p < 2 ^ 20 → word m (first0 + p) % 2 ^ 4 ≡ 15

abbrev pub OutsideTable : ℕ → Type 0
OutsideTable k = (k < first1) ⊎ (first0 + 2 ^ 20 ≤ k)

-- On any memory of words, `SetDefaultMmuTable32` succeeds: no assertion fails. It leaves the
-- identity mapping, and every word outside its two levels as it was.
pub set_default_mmu_table32_lem :
    (m : MemoryWrapper)
    → IsWords m
    → (m' : MemoryWrapper) × (set_default_mmu_table32 m ≡ some m')
      × IsIdentity32 m'
      × ((k : ℕ) → OutsideTable k → word m' k ≡ word m k)
unfolding set_default_mmu_table32
set_default_mmu_table32_lem m words =
    let (pte1, m1, filled1, flags1, fits1, words1, now) =
      level_one_loop_lem 1024 0 (Pte32.set_v 0 1) m valid_flag.0 valid_flag.1 (omega arith) words in
    let (pte2, m2, filled2, flags2, fits2, words2, later) =
      level_zero_loop_lem 1024 0 (Pte32.set_r (Pte32.set_w (Pte32.set_x pte1 1) 1) 1) m1
        (leaf_flags pte1 flags1 fits1).0 (leaf_flags pte1 flags1 fits1).1 (omega arith) words1 in
    (
      m2,
      bind_to _ filled1 (bind_to _ filled2 refl),
      record {
        words = words2;
        pointers = λ q h. ground (arith, now (first1 + q), later (first1 + q));
        pages = λ p h. ground (arith, later (first0 + p));
        flags = λ p h. ground (arith, later (first0 + p));
      },
      λ k out. ground (arith, now k, later k),
    )
