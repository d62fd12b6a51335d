-- ===== src/Emulator/Table32.antt =====
-- `SetDefaultMmuTable32` of RISCV_Emulator.cc: the two levels of a table that maps each page of the
-- 32-bit addresses to itself. The entry `pte` of the source is handed from round to round.
pub mod Fill
pub mod Identity
pub mod Translation
use m99_riscv_emulator.Prelude.{
  ℕ, zero, suc, ◌+◌, ◌*◌, ◌%◌, ◌^◌, Option, none, some, ◌||◌, ltb, leb, ◌>>=◌, ◌>>◌, assert, u32,
  ◌>>>◌,
}
use m99_riscv_emulator.Memory.{MemoryWrapper, write32}
use m99_riscv_emulator.Pte.Pte32
use m99_riscv_emulator.Emulator.{mmu32_level1, mmu32_level0}

abbrev pub level_one_size : ℕ
level_one_size = 1024

abbrev pub level_zero_size : ℕ
level_zero_size = 1024

abbrev pub pte_size : ℕ
pte_size = 4

-- The loop that fills level 1 from entry `i`, with the number of entries left.
pub level_one_loop : ℕ → ℕ → ℕ → MemoryWrapper → Option (ℕ × MemoryWrapper)
level_one_loop zero i pte m = some (pte, m)
level_one_loop (suc n) i pte m = do
  let address = u32 (mmu32_level1 + i * pte_size)
  let ppn = u32 (mmu32_level0 + i * level_zero_size * pte_size) >>> 12
  let pte' = Pte32.set_ppn pte ppn
  m ← write32 m address pte'
  level_one_loop n (suc i) pte' m

-- The inner loop that fills row `j` of level 0.
pub row_loop : ℕ → ℕ → ℕ → ℕ → MemoryWrapper → Option (ℕ × MemoryWrapper)
row_loop j zero i pte m = some (pte, m)
row_loop j (suc n) i pte m = do
  let ppn = j * level_zero_size + i
  let address = u32 (mmu32_level0 + ppn * pte_size)
  assert (ltb address mmu32_level1 || leb (mmu32_level1 + level_one_size * pte_size) address)
  let pte' = Pte32.set_ppn pte ppn
  m ← write32 m address pte'
  row_loop j n (suc i) pte' m

-- The outer loop, with the number of rows left.
pub level_zero_loop : ℕ → ℕ → ℕ → MemoryWrapper → Option (ℕ × MemoryWrapper)
level_zero_loop zero j pte m = some (pte, m)
level_zero_loop (suc n) j pte m = do
  r ← row_loop j level_zero_size 0 pte m
  level_zero_loop n (suc j) r.0 r.1

unfoldable pub set_default_mmu_table32 : MemoryWrapper → Option MemoryWrapper
set_default_mmu_table32 m = do
  r ← level_one_loop level_one_size 0 (Pte32.set_v 0 1) m
  r ← level_zero_loop level_one_size 0 (Pte32.set_r (Pte32.set_w (Pte32.set_x r.0 1) 1) 1) r.1
  some r.1
