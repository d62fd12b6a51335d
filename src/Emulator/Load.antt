-- ===== src/Emulator/Load.antt =====
-- `Load32BitElfFile`, `Load64BitElfFile` and `LoadElfFile` of RISCV_Emulator.cc.
pub mod Loops
pub mod Image
use m99_riscv_emulator.Prelude.{
  ℕ, zero, suc, ◌+◌, ◌*◌, ◌%◌, ◌^◌, Bool, true, false, Option, none, some, List, [], ◌∷◌, ltb, ◌==◌,
  if◌then◌else◌, ◌>>=◌, u32,
}
use m99_riscv_emulator.Prelude.Tables.{get_elem?}
use m99_riscv_emulator.Prelude.Text.{codes}
use m99_riscv_emulator.Memory.{MemoryWrapper, write_byte}
use m99_riscv_emulator.Emulator.Elf.{
  Program, Ehdr, Shdr, Phdr, Class, elf32, elf64, ElfHeaders, get_ehdr, is_right_elf, is_64bit_elf,
  search_by_name,
}

-- The width of the addresses and offsets of a class, in which their sums wrap.
abbrev pub bits : Class → ℕ
bits elf32 = 32
bits elf64 = 64

-- The copy of the bytes from `i` on, with the number of bytes left.
pub copy_loop : Class → Program → Phdr → ℕ → ℕ → MemoryWrapper → Option MemoryWrapper
copy_loop class program phdr zero i m = some m
copy_loop class program phdr (suc n) i m = do
  value ← get_elem? program ((phdr.p_offset + i) % 2 ^ bits class)
  m ← write_byte m ((phdr.p_vaddr + i) % 2 ^ bits class) value
  copy_loop class program phdr n (suc i) m

-- The round of the loop over the program headers for one header.
unfoldable pub load_segment :
    ElfHeaders → Class → Program → Phdr → MemoryWrapper → Option MemoryWrapper
unfolding copy_loop
load_segment h class program phdr m =
    if phdr.p_type == h.pt_load then copy_loop class program phdr phdr.p_filesz 0 m else some m

load_segments : ElfHeaders → Class → Program → Ehdr → ℕ → ℕ → MemoryWrapper → Option MemoryWrapper
load_segments h class program ehdr zero i m = some m
load_segments h class program ehdr (suc n) i m = do
  phdr ← h.phdr_at class program (ehdr.e_phoff + ehdr.e_phentsize * i)
  m ← load_segment h class program phdr m
  load_segments h class program ehdr n (suc i) m

-- The loop that clears the section `.bss`: its counter is a `uint32_t` and `end` has the class's
-- width. It ends within `2 ^ 32` rounds or never, since the counter wraps.
pub zero_loop : ℕ → ℕ → ℕ → MemoryWrapper → Option MemoryWrapper
zero_loop zero i end m = none
zero_loop (suc fuel) i end m =
    let cleared = (do m ← write_byte m i 0; zero_loop fuel (u32 (i + 1)) end m) in
    if ltb i end then cleared else some m

unfoldable pub clear_bss : Class → Shdr → MemoryWrapper → Option MemoryWrapper
clear_bss class shdr m =
    zero_loop (2 ^ 32) (u32 shdr.sh_addr) ((shdr.sh_addr + shdr.sh_size) % 2 ^ bits class) m

-- `Load32BitElfFile` and `Load64BitElfFile`.
unfoldable pub load_class : ElfHeaders → Class → Program → MemoryWrapper → Option MemoryWrapper
unfolding load_segments clear_bss
load_class h class program m = do
  ehdr ← get_ehdr h class program
  m ← load_segments h class program ehdr ehdr.e_phnum 0 m
  found ← search_by_name h class program (codes ".bss")
  elim found [ some shdr ↦ clear_bss class shdr m | none ↦ some m ]

-- `accepted` is the verdict of `IsRightElf`, which is only printed.
pub record Loaded : Type 0 where
  pub accepted : Bool
  pub flag_64bit : Bool
  pub memory : MemoryWrapper

unfoldable pub load_elf_file : ElfHeaders → Program → MemoryWrapper → Option Loaded
unfolding load_class
load_elf_file h program m = do
  ehdr ← get_ehdr h elf32 program
  let flag_64bit = is_64bit_elf h ehdr
  m ← load_class h (if flag_64bit then elf64 else elf32) program m
  some (record { accepted = is_right_elf h ehdr; flag_64bit = flag_64bit; memory = m })
