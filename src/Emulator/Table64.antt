-- ===== src/Emulator/Table64.antt =====
-- `SetDefaultMmuTable64` of RISCV_Emulator.cc: the three levels of a table that maps each page of the
-- 32-bit addresses to itself. The entry `pte`, a `Pte32` also here, is handed from round to round.
pub mod Fill
pub mod Levels
pub mod Identity
pub mod Translation
use m99_riscv_emulator.Prelude.{
  ℕ, zero, suc, ◌+◌, ◌*◌, ◌%◌, ◌^◌, Option, none, some, ltb, if◌then◌else◌, ◌>>=◌, u32, u64, ◌>>>◌,
}
use m99_riscv_emulator.Memory.{MemoryWrapper, write64}
use m99_riscv_emulator.Pte.Pte32
use m99_riscv_emulator.Emulator.{mmu64_level2, mmu64_level1, mmu64_level0}

-- The sizes of all three levels.
abbrev pub level_size : ℕ
level_size = 512

abbrev pub pte_size : ℕ
pte_size = 8

abbrev pub level2_valid_entry : ℕ
level2_valid_entry = 4

-- The loop that fills level 2 from entry `i`, with the number of entries left.
pub level_two_loop : ℕ → ℕ → ℕ → MemoryWrapper → Option (ℕ × MemoryWrapper)
level_two_loop zero i pte m = some (pte, m)
level_two_loop (suc n) i pte m = do
  let address = u32 (mmu64_level2 + i * pte_size)
  let ppn = u64 (mmu64_level1 + i * level_size * pte_size) >>> 12
  let pte' =
      if ltb i level2_valid_entry
      then Pte32.set_ppn (Pte32.set_v pte 1) (u32 ppn)
      else Pte32.set_ppn pte 0
  m ← write64 m address pte'
  level_two_loop n (suc i) pte' m

-- The inner and the outer loop of level 1.
pub level_one_row : ℕ → ℕ → ℕ → ℕ → MemoryWrapper → Option (ℕ × MemoryWrapper)
level_one_row j zero i pte m = some (pte, m)
level_one_row j (suc n) i pte m = do
  let address = u32 (mmu64_level1 + j * level_size * pte_size + i * pte_size)
  let ppn =
      u64 (mmu64_level0 + j * level_size * level_size * pte_size + i * level_size * pte_size) >>> 12
  let pte' = Pte32.set_ppn pte (u32 ppn)
  m ← write64 m address pte'
  level_one_row j n (suc i) pte' m

pub level_one_loop : ℕ → ℕ → ℕ → MemoryWrapper → Option (ℕ × MemoryWrapper)
level_one_loop zero j pte m = some (pte, m)
level_one_loop (suc n) j pte m = do
  r ← level_one_row j level_size 0 pte m
  level_one_loop n (suc j) r.0 r.1

-- The three loops of level 0, the innermost first.
pub level_zero_row : ℕ → ℕ → ℕ → ℕ → ℕ → MemoryWrapper → Option (ℕ × MemoryWrapper)
level_zero_row k j zero i pte m = some (pte, m)
level_zero_row k j (suc n) i pte m = do
  let ppn = k * level_size * level_size + j * level_size + i
  let address = u32 (mmu64_level0 + ppn * pte_size)
  let pte' = Pte32.set_ppn pte (u32 ppn)
  m ← write64 m address pte'
  level_zero_row k j n (suc i) pte' m

pub level_zero_block : ℕ → ℕ → ℕ → ℕ → MemoryWrapper → Option (ℕ × MemoryWrapper)
level_zero_block k zero j pte m = some (pte, m)
level_zero_block k (suc n) j pte m = do
  r ← level_zero_row k j level_size 0 pte m
  level_zero_block k n (suc j) r.0 r.1

pub level_zero_loop : ℕ → ℕ → ℕ → MemoryWrapper → Option (ℕ × MemoryWrapper)
level_zero_loop zero k pte m = some (pte, m)
level_zero_loop (suc n) k pte m = do
  r ← level_zero_block k level_size 0 pte m
  level_zero_loop n (suc k) r.0 r.1

unfoldable pub set_default_mmu_table64 : MemoryWrapper → Option MemoryWrapper
set_default_mmu_table64 m = do
  r ← level_two_loop level_size 0 0 m
  r ← level_one_loop level2_valid_entry 0 (Pte32.set_v r.0 1) r.1
  r ← level_zero_loop level2_valid_entry 0 (Pte32.set_r (Pte32.set_w (Pte32.set_x r.0 1) 1) 1) r.1
  some r.1
