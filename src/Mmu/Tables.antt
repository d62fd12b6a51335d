-- ===== src/Mmu/Tables.antt =====
-- The walks through the tables in the words of the privileged architecture: which entry each level
-- reads, when an entry is valid, and when it is a leaf. The next table is the entry's page number,
-- of which the program reads 32 digits in a 64-bit entry.
use m99_riscv_emulator.Prelude.{ℕ, suc, ◌+◌, ◌*◌, ◌/◌, ◌%◌, ◌^◌, ◌≡◌, ◌≢◌, ◌⊎◌, some}
use m99_riscv_emulator.Memory.{MemoryWrapper, read32, read64}
use m99_riscv_emulator.Mmu.{WalkEnd, fault, leaf}

-- V is set, and the flags R and W are not those of the reserved entries that are written only.
abbrev pub IsValidEntry : ℕ → Type 0
IsValidEntry pte = (pte % 2 ≡ 1) × (pte / 2 % 4 ≢ 2)

abbrev pub IsInvalidEntry : ℕ → Type 0
IsInvalidEntry pte = (pte % 2 ≡ 0) ⊎ (pte / 2 % 4 ≡ 2)

-- One of R, W and X is set.
abbrev pub IsLeafEntry : ℕ → Type 0
IsLeafEntry pte = pte / 2 % 8 ≢ 0

-- The address of the entry for `address` in the table at page `ppn` of a level: 512 entries of 8
-- bytes in Sv39, 1024 of 4 bytes in Sv32.
abbrev pub entry_place64 : ℕ → ℕ → ℕ → ℕ
entry_place64 address level ppn =
    (ppn * 2 ^ 12 + address / 2 ^ (12 + 9 * level) % 2 ^ 9 * 8) % 2 ^ 64

abbrev pub entry_place32 : ℕ → ℕ → ℕ → ℕ
entry_place32 address level ppn =
    (ppn * 2 ^ 12 + address / 2 ^ (12 + 10 * level) % 2 ^ 10 * 4) % 2 ^ 32

-- How a walk from the table at page `ppn` of a level ends.
pub data Walks64 (m : MemoryWrapper) (address : ℕ) : ℕ → ℕ → WalkEnd → Type 0 where
  invalid :
      {level ppn pte : ℕ}
      → read64 m (entry_place64 address level ppn) ≡ some pte
      → IsInvalidEntry pte
      → Walks64 m address level ppn fault
  bottom :
      {ppn pte : ℕ}
      → read64 m (entry_place64 address 0 ppn) ≡ some pte
      → pte / 2 % 8 ≡ 0
      → Walks64 m address 0 ppn fault
  ends :
      {level ppn pte : ℕ}
      → read64 m (entry_place64 address level ppn) ≡ some pte
      → IsValidEntry pte
      → IsLeafEntry pte
      → Walks64 m address level ppn (leaf level pte (entry_place64 address level ppn))
  down :
      {level ppn pte : ℕ} {e : WalkEnd}
      → read64 m (entry_place64 address (suc level) ppn) ≡ some pte
      → IsValidEntry pte
      → pte / 2 % 8 ≡ 0
      → Walks64 m address level (pte / 2 ^ 10 % 2 ^ 32) e
      → Walks64 m address (suc level) ppn e

pub data Walks32 (m : MemoryWrapper) (address : ℕ) : ℕ → ℕ → WalkEnd → Type 0 where
  invalid32 :
      {level ppn pte : ℕ}
      → read32 m (entry_place32 address level ppn) ≡ some pte
      → IsInvalidEntry pte
      → Walks32 m address level ppn fault
  bottom32 :
      {ppn pte : ℕ}
      → read32 m (entry_place32 address 0 ppn) ≡ some pte
      → pte / 2 % 8 ≡ 0
      → Walks32 m address 0 ppn fault
  ends32 :
      {level ppn pte : ℕ}
      → read32 m (entry_place32 address level ppn) ≡ some pte
      → IsValidEntry pte
      → IsLeafEntry pte
      → Walks32 m address level ppn (leaf level pte (entry_place32 address level ppn))
  down32 :
      {level ppn pte : ℕ} {e : WalkEnd}
      → read32 m (entry_place32 address (suc level) ppn) ≡ some pte
      → IsValidEntry pte
      → pte / 2 % 8 ≡ 0
      → Walks32 m address level (pte / 2 ^ 10 % 2 ^ 22) e
      → Walks32 m address (suc level) ppn e
