-- ===== src/Emulator/Table64/Identity.antt =====
-- The default 64-bit table maps every 32-bit address to itself.
use m99_riscv_emulator.Prelude.{ℕ, ◌+◌, ◌*◌, ◌/◌, ◌%◌, ◌^◌, ◌<◌, ◌≤◌, ◌≡◌, ◌⊎◌, refl, arith, some}
use m99_riscv_emulator.Prelude.Options.{bind_to}
use m99_riscv_emulator.Pte.Pte32
use m99_riscv_emulator.Memory.{MemoryWrapper}
use m99_riscv_emulator.Memory.Word.{word}
use m99_riscv_emulator.Memory.Bytes.{IsWords}
use m99_riscv_emulator.Emulator.Flags.{valid_again, leaf_flags}
use m99_riscv_emulator.Emulator.Table64.{set_default_mmu_table64}
use m99_riscv_emulator.Emulator.Table64.Fill.{first2, first1, first0}
use m99_riscv_emulator.Emulator.Table64.Levels.{
  level_two_loop_lem, level_one_loop_lem, level_zero_loop_lem,
}

-- The three levels of the identity mapping of the 32-bit addresses, by the lower and the upper word
-- of each entry: four pointers to level 1, 2048 pointers to the pages of level 0, and there each
-- page's own number with the flags V, R, W and X; the flags above these may be any.
pub record IsIdentity64 (m : MemoryWrapper) : Type 0 where
  pub words : IsWords m
  pub roots :
      (i : ℕ)
      → i < 4
      → (word m (first2 + i * 2) ≡ (0xC0001 + i) * 2 ^ 10 + 1) × (word m (first2 + i * 2 + 1) ≡ 0)
  pub pointers :
      (q : ℕ)
      → q < 2048
      → (word m (first1 + q * 2) ≡ (0xC0005 + q) * 2 ^ 10 + 1) × (word m (first1 + q * 2 + 1) ≡ 0)
  pub pages :
      (p : ℕ)
      → p < 2 ^ 20
      → (word m (first0 + p * 2) / 2 ^ 10 ≡ p)
        × (word m (first0 + p * 2) % 2 ^ 4 ≡ 15)
        × (word m (first0 + p * 2 + 1) ≡ 0)

abbrev pub OutsideTable : ℕ → Type 0
OutsideTable k = (k < first2) ⊎ (first0 + 2 ^ 21 ≤ k)

-- On any memory of words, `SetDefaultMmuTable64` succeeds. It leaves the identity mapping of the
-- 32-bit addresses, and every word outside its three levels as it was; but each of the other 508
-- entries of level 2 is 1 in its lower word and 0 in its upper one, a valid pointer to page 0.
pub set_default_mmu_table64_lem :
    (m : MemoryWrapper)
    → IsWords m
    → (m' : MemoryWrapper) × (set_default_mmu_table64 m ≡ some m')
      × IsIdentity64 m'
      × ((k : ℕ) → OutsideTable k → word m' k ≡ word m k)
      × ((i : ℕ)
          → 4 ≤ i
          → i < 512
          → (word m' (first2 + i * 2) ≡ 1) × (word m' (first2 + i * 2 + 1) ≡ 0))
unfolding set_default_mmu_table64
set_default_mmu_table64_lem m words =
    let (pte2, m2, filled2, flags2, fits2, words2, now2) =
      level_two_loop_lem 512 0 0 m refl (omega arith) (omega arith) (omega arith) words in
    let again = valid_again pte2 flags2 fits2 in
    let (pte1, m1, filled1, flags1, fits1, words1, now1) =
      level_one_loop_lem 4 0 (Pte32.set_v pte2 1) m2 again.0 again.1 (omega arith) words2 in
    let leaves = leaf_flags pte1 flags1 fits1 in
    let (pte0, m0, filled0, flags0, fits0, words0, now0) =
      level_zero_loop_lem 4 0 (Pte32.set_r (Pte32.set_w (Pte32.set_x pte1 1) 1) 1) m1 leaves.0
        leaves.1 (omega arith) words1 in
    (
      m0,
      bind_to _ filled2 (bind_to _ filled1 (bind_to _ filled0 refl)),
      record {
        words = words0;
        roots = λ i h. (
          ground (arith, now2 (first2 + i * 2), now1 (first2 + i * 2), now0 (first2 + i * 2)),
          ground (
            arith,
            now2 (first2 + i * 2 + 1),
            now1 (first2 + i * 2 + 1),
            now0 (first2 + i * 2 + 1),
          ),
        );
        pointers = λ q h. (
          ground (arith, now2 (first1 + q * 2), now1 (first1 + q * 2), now0 (first1 + q * 2)),
          ground (
            arith,
            now2 (first1 + q * 2 + 1),
            now1 (first1 + q * 2 + 1),
            now0 (first1 + q * 2 + 1),
          ),
        );
        pages = λ p h. (
          ground (arith, now2 (first0 + p * 2), now1 (first0 + p * 2), now0 (first0 + p * 2)),
          ground (arith, now2 (first0 + p * 2), now1 (first0 + p * 2), now0 (first0 + p * 2)),
          ground (
            arith,
            now2 (first0 + p * 2 + 1),
            now1 (first0 + p * 2 + 1),
            now0 (first0 + p * 2 + 1),
          ),
        );
      },
      λ k out. ground (arith, now2 k, now1 k, now0 k),
      λ i low h. (
        ground (arith, now2 (first2 + i * 2), now1 (first2 + i * 2), now0 (first2 + i * 2)),
        ground (
          arith,
          now2 (first2 + i * 2 + 1),
          now1 (first2 + i * 2 + 1),
          now0 (first2 + i * 2 + 1),
        ),
      ),
    )
