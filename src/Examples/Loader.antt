-- ===== src/Examples/Loader.antt =====
-- The theorems on the program round the processor and on the disassembler, at concrete inputs.
use m99_riscv_emulator.Prelude.{
  ℕ, zero, suc, ◌+◌, ◌-◌, ◌*◌, ◌^◌, ◌≡◌, ◌≢◌, ◌≤◌, ◌<◌, refl, arith, Bool, true, false, ◌&&◌, some,
  none, List, [], ◌∷◌, ltb, u32,
}
use m99_riscv_emulator.Prelude.Tables.{get_or}
use m99_riscv_emulator.Prelude.Text.{codes, str_eq}
use m99_riscv_emulator.BitTools.{bitcrop, mask}
use m99_riscv_emulator.Isa.{Instruction}
use m99_riscv_emulator.Memory.{MemoryWrapper, fresh}
use m99_riscv_emulator.Memory.Word.{word}
use m99_riscv_emulator.Memory.Bytes.{byte, IsWords, fresh-IsWords}
use m99_riscv_emulator.Mmu.{Mmu, machine_mode, user_mode, virtual_to_physical}
use m99_riscv_emulator.Cpu.{RiscvCpu}
use m99_riscv_emulator.Decode.Code32.{get_code32}
use m99_riscv_emulator.Emulator.{initial_satp}
use m99_riscv_emulator.Emulator.Command.{
  Options, defaults, parse_cmd, command_line, parse_cmd-command_line,
}
use m99_riscv_emulator.Emulator.Elf.{
  Program, Ehdr, Phdr, Shdr, Symbol, elf32, ElfHeaders, get_ehdr, get_shdr, search_by_name,
  search_by_type, is_64bit_elf, c_string,
}
use m99_riscv_emulator.Emulator.Elf.Search.{IsFirst, search_by_name_first}
use m99_riscv_emulator.Emulator.Symbols.{get_global_pointer}
use m99_riscv_emulator.Emulator.Load.{load_class}
use m99_riscv_emulator.Emulator.Load.Loops.{IsFile}
use m99_riscv_emulator.Emulator.Load.Image.{IsLoadable, file_image, load_class_lem}
use m99_riscv_emulator.Emulator.Table32.{set_default_mmu_table32}
use m99_riscv_emulator.Emulator.Table32.Identity as Identity32
use m99_riscv_emulator.Emulator.Table32.Identity.{IsIdentity32, set_default_mmu_table32_lem}
use m99_riscv_emulator.Emulator.Table32.Translation.{virtual_to_physical-IsIdentity32}
use m99_riscv_emulator.Emulator.Table64.{set_default_mmu_table64}
use m99_riscv_emulator.Emulator.Table64.Fill as Fill64
use m99_riscv_emulator.Emulator.Table64.Identity as Identity64
use m99_riscv_emulator.Emulator.Table64.Identity.{IsIdentity64, set_default_mmu_table64_lem}
use m99_riscv_emulator.Emulator.Table64.Translation.{virtual_to_physical-IsIdentity64}
use m99_riscv_emulator.Emulator.Boot.{Started, start, boot}
use m99_riscv_emulator.Emulator.Boot.Start.{OutsideTables, IsBooted, start_lem, boot_lem}
use m99_riscv_emulator.Disassembler.{disassemble}
use m99_riscv_emulator.Disassembler.Text.{number_to_hex}
use m99_riscv_emulator.Disassembler.Hex.{read_hex, read_hex-number_to_hex}
use m99_riscv_emulator.Disassembler.Mnemonics.{mnemonic}
use m99_riscv_emulator.Disassembler.Instructions.{Begins, disassemble-mnemonic}
use m99_riscv_emulator.Disassembler.Fallthrough.{disassemble-c_sw}
use m99_riscv_emulator.Examples.{hart}

set_default_mmu_table32_lem_example :
    (m' : MemoryWrapper) × (set_default_mmu_table32 fresh ≡ some m')
    × IsIdentity32 m'
    × ((k : ℕ) → Identity32.OutsideTable k → word m' k ≡ word fresh k)
set_default_mmu_table32_lem_example = set_default_mmu_table32_lem fresh fresh-IsWords

set_default_mmu_table64_lem_example :
    (m' : MemoryWrapper) × (set_default_mmu_table64 fresh ≡ some m')
    × IsIdentity64 m'
    × ((k : ℕ) → Identity64.OutsideTable k → word m' k ≡ word fresh k)
    × ((i : ℕ)
        → 4 ≤ i
        → i < 512
        → (word m' (Fill64.first2 + i * 2) ≡ 1) × (word m' (Fill64.first2 + i * 2 + 1) ≡ 0))
set_default_mmu_table64_lem_example = set_default_mmu_table64_lem fresh fresh-IsWords

-- The memories with the default tables, and the memory management of a program in user mode.
abbrev mapped32 : MemoryWrapper
mapped32 = (set_default_mmu_table32_lem fresh fresh-IsWords).0

abbrev mapped64 : MemoryWrapper
mapped64 = (set_default_mmu_table64_lem fresh fresh-IsWords).0

abbrev user : ℕ → Mmu
user mxl = record { mxl = mxl; page_fault = true; faulting_address = 7; privilege = user_mode }

user_not_machine : user_mode ≢ machine_mode
user_not_machine = ground arith

virtual_to_physical-IsIdentity32_example :
    (m' : MemoryWrapper) × (virtual_to_physical
        (user 1)
        mapped32
        0x12345678
        (initial_satp false true)
        true
      ≡ some (0x12345678, record (user 1) { page_fault = false; faulting_address = 0 }, m'))
    × IsIdentity32 m'
virtual_to_physical-IsIdentity32_example =
    virtual_to_physical-IsIdentity32 (user 1) mapped32 0x12345678 true
      (set_default_mmu_table32_lem fresh fresh-IsWords).2 (omega arith) refl user_not_machine

virtual_to_physical-IsIdentity64_example :
    (m' : MemoryWrapper) × (virtual_to_physical
        (user 2)
        mapped64
        0x12345678
        (initial_satp true true)
        true
      ≡ some (0x12345678, record (user 2) { page_fault = false; faulting_address = 0 }, m'))
    × IsIdentity64 m'
virtual_to_physical-IsIdentity64_example =
    virtual_to_physical-IsIdentity64 (user 2) mapped64 0x12345678 true
      (set_default_mmu_table64_lem fresh fresh-IsWords).2 (omega arith) refl user_not_machine

read_hex-number_to_hex_example : read_hex (number_to_hex (2 ^ 32 + 0xBEEF)) ≡ some 0xBEEF
read_hex-number_to_hex_example = read_hex-number_to_hex (2 ^ 32 + 0xBEEF)

-- SUB A0, A1, A2.
sub_code : get_code32 0x40C58533 ≡ Instruction.sub
unfolding get_code32 bitcrop mask
sub_code = refl

sub_known :
    (get_code32 0x40C58533 ≢ Instruction.error)
    × (get_code32 0x40C58533 ≢ Instruction.system)
    × (get_code32 0x40C58533 ≢ Instruction.amominuw)
sub_known = rw sub_code (ground arith, ground arith, ground arith)

disassemble-mnemonic_example : Begins (disassemble 0x40C58533 1) (mnemonic (get_code32 0x40C58533))
disassemble-mnemonic_example =
    disassemble-mnemonic 0x40C58533 1 refl sub_known.0 sub_known.1 sub_known.2

-- C.SW A2, 0(A0).
disassemble-c_sw_example : Begins (disassemble 0xC110 1) (codes "C.BEQZ ")
disassemble-c_sw_example = disassemble-c_sw 0xC110 1 refl refl

-- emulator -64 -d -s disk a.out
parse_cmd-command_line_example :
    parse_cmd
      (codes "emulator" ∷ codes "-64" ∷ codes "-d" ∷ codes "-s" ∷ codes "disk" ∷ codes "a.out" ∷ [])
    ≡ record defaults {
      address64bit = true;
      device_enable = true;
      filename = codes "a.out";
      diskimage_file = codes "disk";
    }
unfolding command_line
parse_cmd-command_line_example =
    parse_cmd-command_line (codes "emulator") false true false false false true false b'a'
      (codes ".out") (codes "disk") refl

-- A small format: the first bytes identify the file, a header has a byte for each of its fields.
abbrev small_ehdr : Program → Ehdr
small_ehdr program = record {
  e_ident = λ i. get_or program i 0;
  e_type = 2;
  e_machine = 243;
  e_entry = 0x1000;
  e_phoff = 8;
  e_phentsize = 4;
  e_phnum = 1;
  e_shoff = 12;
  e_shentsize = 5;
  e_shnum = 2;
  e_shstrndx = 0;
}

abbrev small_phdr : Program → ℕ → Phdr
small_phdr program n = record {
  p_type = get_or program n 0;
  p_offset = get_or program (n + 1) 0;
  p_vaddr = get_or program (n + 2) 0;
  p_filesz = get_or program (n + 3) 0;
}

abbrev small_shdr : Program → ℕ → Shdr
small_shdr program n = record {
  sh_name = get_or program n 0;
  sh_type = get_or program (n + 1) 0;
  sh_addr = get_or program (n + 2) 0;
  sh_offset = get_or program (n + 3) 0;
  sh_size = get_or program (n + 4) 0;
}

abbrev small_symbol : Program → ℕ → Symbol
small_symbol program n = record {
  st_name = get_or program n 0;
  st_value = get_or program (n + 1) 0;
}

abbrev small : ElfHeaders
small = record {
  ei_mag0 = 0;
  ei_mag1 = 1;
  ei_mag2 = 2;
  ei_mag3 = 3;
  ei_class = 4;
  ei_data = 5;
  ei_version = 6;
  ei_osabi = 7;
  elfmag0 = 0x7F;
  elfmag1 = b'E';
  elfmag2 = b'L';
  elfmag3 = b'F';
  elfclass32 = 1;
  elfclass64 = 2;
  elfdata2lsb = 1;
  ev_current = 1;
  elfosabi_sysv = 0;
  et_exec = 2;
  em_riscv = 243;
  pt_load = 1;
  sht_symtab = 2;
  ehdr_at = λ class program n. some (small_ehdr program);
  shdr_at = λ class program n. some (small_shdr program n);
  phdr_at = λ class program n. some (small_phdr program n);
  symbol_at = λ class program n. some (small_symbol program n);
  symbol_size = λ class. 2;
}

-- Three bytes to load at address 64, of which `.bss` clears the last two and two more behind them;
-- and the names of the sections.
abbrev file : Program
file =
    0x7F ∷ b'E' ∷ b'L' ∷ b'F' ∷ 1 ∷ 1 ∷ 1 ∷ 0 ∷ 1 ∷ 22 ∷ 64 ∷ 3 ∷ 5 ∷ 3 ∷ 0 ∷ 25 ∷ 6 ∷ 0 ∷ 8 ∷ 65
    ∷ 0 ∷ 4 ∷ 10 ∷ 11 ∷ 12 ∷ b'.' ∷ b'b' ∷ b's' ∷ b's' ∷ 0 ∷ 0 ∷ []

abbrev bss : Shdr
bss = small_shdr file 17

bss_found : search_by_name small elf32 file (codes ".bss") ≡ some (some bss)
unfolding search_by_name c_string str_eq
bss_found = refl

header : get_ehdr small elf32 file ≡ some (small_ehdr file)
unfolding get_ehdr
header = refl

search_by_name_first_example : IsFirst small elf32 file (codes ".bss") 0 2 (some bss)
search_by_name_first_example =
    search_by_name_first small elf32 file (codes ".bss") (small_ehdr file) (some bss) header
      bss_found

are_bytes : List ℕ → Bool
are_bytes [] = true
are_bytes (c ∷ cs) = ltb c 256 && are_bytes cs

are_bytes_sound : (s : List ℕ) (k : ℕ) → are_bytes s ≡ true → get_or s k 0 < 2 ^ 8
unfolding are_bytes
are_bytes_sound [] k h = omega arith
are_bytes_sound (c ∷ cs) zero h = ground arith
are_bytes_sound (c ∷ cs) (suc k) h = are_bytes_sound cs k (ground arith)

file_is : IsFile file
unfolding are_bytes
file_is = record { size_le = omega arith; bytes = λ k. are_bytes_sound file k refl }

abbrev phdrs : ℕ → Phdr
phdrs i = small_phdr file (8 + 4 * i)

inside_file : (i : ℕ) → i < 1 → (phdrs i).p_offset + (phdrs i).p_filesz ≤ 31
inside_file zero h = omega arith
inside_file (suc i) h = absurd (omega arith)

loadable : IsLoadable small elf32 file (small_ehdr file) phdrs (some bss)
loadable = record {
  file = file_is;
  header = header;
  readable = λ i h. refl;
  inside = λ i h load. inside_file i h;
  searched = bss_found;
  bss_fits = omega arith;
}

load_class_lem_example :
    (m' : MemoryWrapper) × (load_class small elf32 file fresh ≡ some m')
    × IsWords m'
    × ((j : ℕ)
        → byte m' j ≡ file_image small file (small_ehdr file) phdrs (some bss) (byte fresh) j)
load_class_lem_example =
    load_class_lem small elf32 file (small_ehdr file) phdrs (some bss) fresh loadable fresh-IsWords

no_pointer : get_global_pointer small false file ≡ some (2 ^ 32 - 1)
unfolding get_global_pointer search_by_type get_shdr
no_pointer = refl

start_lem_example :
    (s : Started) × (start small file ≡ some s)
    × IsWords s.memory
    × ((j : ℕ)
        → byte s.memory j ≡ file_image small file (small_ehdr file) phdrs (some bss) (byte fresh) j)
    × (s.entry_point ≡ u32 0x1000)
    × (s.global_pointer ≡ 2 ^ 32 - 1)
unfolding is_64bit_elf
start_lem_example =
    start_lem small file (small_ehdr file) (small_ehdr file) phdrs (some bss) (2 ^ 32 - 1) header
      loadable no_pointer

abbrev started : Started
started = record { memory = fresh; entry_point = 0x1000; global_pointer = 0x2000 }

abbrev options : Options
options = record defaults { address64bit = true; paging = true; filename = codes "a.out" }

boot_lem_example :
    (cpu : RiscvCpu) × (boot 0 hart options started none ≡ some cpu)
    × IsBooted options 0x2000 none cpu
    × IsIdentity64 cpu.memory
    × ((k : ℕ) → OutsideTables k → word cpu.memory k ≡ word fresh k)
boot_lem_example = boot_lem 0 hart options started none refl fresh-IsWords
