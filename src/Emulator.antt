-- ===== src/Emulator.antt =====
-- The program round the processor, RISCV_Emulator.cc and RISCV_Emulator.h: the command line, the
-- loader of ELF files, the tables of the address translation, and the state that a run starts from.
pub mod Command
pub mod Elf
pub mod Load
pub mod Symbols
pub mod Flags
pub mod Table32
pub mod Table64
pub mod Boot
use m99_riscv_emulator.Prelude.{ℕ, ◌+◌, ◌*◌, Bool, bit_or, if◌then◌else◌, ◌<<<◌, ◌>>>◌}

abbrev pub max_binary_size : ℕ
max_binary_size = 1024 * 1024 * 1024

abbrev pub top : ℕ
top = 0x80000000

abbrev pub bottom : ℕ
bottom = 0x40000000

abbrev pub mmu32_level1 : ℕ
mmu32_level1 = 0xC0000000

abbrev pub mmu32_level0 : ℕ
mmu32_level0 = mmu32_level1 + (1 <<< 10) * 4

abbrev pub mmu64_level2 : ℕ
mmu64_level2 = 0xC0000000

abbrev pub mmu64_level1 : ℕ
mmu64_level1 = mmu64_level2 + (1 <<< 9) * 8

abbrev pub mmu64_level0 : ℕ
mmu64_level0 = mmu64_level1 + 4 * (1 <<< 9) * 8

-- The value that `run` puts into SATP.
abbrev pub initial_satp : Bool → Bool → ℕ
initial_satp address64bit paging =
    if paging
    then if address64bit
      then bit_or (mmu64_level2 >>> 12) (8 <<< 60)
      else bit_or (mmu32_level1 >>> 12) (1 <<< 31)
    else 0
