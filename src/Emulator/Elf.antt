-- ===== src/Emulator/Elf.antt =====
-- The ELF file of RISCV_Emulator.cc: its checks, its section headers and the searches for them. The
-- structures and the constants are elf.h's, which is the host's: where a field lies in a file is a
-- parameter. A structure that does not lie in the file is read as `none`, which also stands for any
-- other access outside the file.
pub mod Search
use m99_riscv_emulator.Prelude.{
  ℕ, zero, suc, ◌+◌, ◌*◌, Bool, true, false, not, ◌||◌, ◌&&◌, Option, none, some, List, [], ◌∷◌,
  ltb, ◌==◌, if◌then◌else◌, ◌>>=◌,
}
use m99_riscv_emulator.Prelude.Text.{str_eq}

-- `std::vector<uint8_t>` with a file's bytes.
abbrev pub Program : Type 0
Program = List ℕ

-- The fields that are read of `Elf32_Ehdr` and `Elf64_Ehdr`.
pub record Ehdr : Type 0 where
  pub e_ident : ℕ → ℕ
  pub e_type : ℕ
  pub e_machine : ℕ
  pub e_entry : ℕ
  pub e_phoff : ℕ
  pub e_phentsize : ℕ
  pub e_phnum : ℕ
  pub e_shoff : ℕ
  pub e_shentsize : ℕ
  pub e_shnum : ℕ
  pub e_shstrndx : ℕ

-- Of `Elf32_Shdr` and `Elf64_Shdr`.
pub record Shdr : Type 0 where
  pub sh_name : ℕ
  pub sh_type : ℕ
  pub sh_addr : ℕ
  pub sh_offset : ℕ
  pub sh_size : ℕ

-- Of `Elf32_Phdr` and `Elf64_Phdr`.
pub record Phdr : Type 0 where
  pub p_type : ℕ
  pub p_offset : ℕ
  pub p_vaddr : ℕ
  pub p_filesz : ℕ

-- Of `Elf32_Sym` and `Elf64_Sym`.
pub record Symbol : Type 0 where
  pub st_name : ℕ
  pub st_value : ℕ

-- The two sets of structures.
pub data Class : Type 0 where
  elf32 elf64 : Class

-- What elf.h gives: the constants, and the structure that lies at an offset of a file.
pub record ElfHeaders : Type 0 where
  pub ei_mag0 : ℕ
  pub ei_mag1 : ℕ
  pub ei_mag2 : ℕ
  pub ei_mag3 : ℕ
  pub ei_class : ℕ
  pub ei_data : ℕ
  pub ei_version : ℕ
  pub ei_osabi : ℕ
  pub elfmag0 : ℕ
  pub elfmag1 : ℕ
  pub elfmag2 : ℕ
  pub elfmag3 : ℕ
  pub elfclass32 : ℕ
  pub elfclass64 : ℕ
  pub elfdata2lsb : ℕ
  pub ev_current : ℕ
  pub elfosabi_sysv : ℕ
  pub et_exec : ℕ
  pub em_riscv : ℕ
  pub pt_load : ℕ
  pub sht_symtab : ℕ
  pub ehdr_at : Class → Program → ℕ → Option Ehdr
  pub shdr_at : Class → Program → ℕ → Option Shdr
  pub phdr_at : Class → Program → ℕ → Option Phdr
  pub symbol_at : Class → Program → ℕ → Option Symbol
  pub symbol_size : Class → ℕ

-- The characters up to a zero, which must come.
until_zero : List ℕ → Option (List ℕ)
until_zero [] = none
until_zero (c ∷ cs) =
    let rest = until_zero cs in if c == 0 then some [] else do s ← rest; some (c ∷ s)

-- The C string at an offset of the file.
unfoldable pub c_string : Program → ℕ → Option (List ℕ)
unfolding until_zero
c_string [] n = none
c_string (c ∷ program) zero = until_zero (c ∷ program)
c_string (c ∷ program) (suc n) = c_string program n

module _ (h : ElfHeaders) where
  open h use {
    ei_mag0, ei_mag1, ei_mag2, ei_mag3, ei_class, ei_data, ei_version, ei_osabi, elfmag0, elfmag1,
    elfmag2, elfmag3, elfclass32, elfclass64, elfdata2lsb, ev_current, elfosabi_sysv, et_exec,
    em_riscv, ehdr_at, shdr_at,
  }

  unfoldable pub is_right_elf : Ehdr → Bool
  is_right_elf ehdr =
      if not (ehdr.e_ident ei_mag0 == elfmag0)
        || not (ehdr.e_ident ei_mag1 == elfmag1)
        || not (ehdr.e_ident ei_mag2 == elfmag2)
        || not (ehdr.e_ident ei_mag3 == elfmag3)
      then false
      else if not (ehdr.e_ident ei_class == elfclass32) && not (ehdr.e_ident ei_class == elfclass64)
      then false
      else if not (ehdr.e_ident ei_data == elfdata2lsb)
      then false
      else if not (ehdr.e_ident ei_version == ev_current)
      then false
      else if not (ehdr.e_ident ei_osabi == elfosabi_sysv)
      then false
      else if not (ehdr.e_type == et_exec)
      then false
      else if not (ehdr.e_machine == em_riscv)
      then false
      else true

  unfoldable pub is_64bit_elf : Ehdr → Bool
  is_64bit_elf ehdr = if ehdr.e_ident ei_class == elfclass64 then true else false

  -- `GetElf32Ehdr` and `GetElf64Ehdr`.
  unfoldable pub get_ehdr : Class → Program → Option Ehdr
  get_ehdr class program = ehdr_at class program 0

  -- `GetElf32Shdr` and `GetElf64Shdr`, for an index that is not negative. The inner `none` is the
  -- null pointer.
  unfoldable pub get_shdr : Class → Program → ℕ → Option (Option Shdr)
  unfolding get_ehdr
  get_shdr class program index = do
    ehdr ← get_ehdr class program
    (if not (ltb index ehdr.e_shnum) then some none else do
      shdr ← shdr_at class program (ehdr.e_shoff + ehdr.e_shentsize * index)
      some (some shdr))

  -- `GetElf32SectionName` and `GetElf64SectionName`: `nhdr` is used without a test for null.
  unfoldable pub get_section_name : Class → Program → Shdr → Option (List ℕ)
  unfolding get_ehdr get_shdr c_string
  get_section_name class program shdr = do
    ehdr ← get_ehdr class program
    found ← get_shdr class program ehdr.e_shstrndx
    nhdr ← found
    c_string program (nhdr.sh_offset + shdr.sh_name)

  -- The loop of a search from section `i`, with the number of sections left, for the first one that
  -- a test picks.
  search_loop : Class → Program → (Shdr → Option Bool) → ℕ → ℕ → Option (Option Shdr)
  search_loop class program picks zero i = some none
  search_loop class program picks (suc n) i = do
    found ← get_shdr class program i
    shdr ← found
    picked ← picks shdr
    elim picked [ true ↦ some (some shdr) | false ↦ search_loop class program picks n (suc i) ]

  -- `SearchElf32Shdr` and `SearchElf64Shdr` by a name.
  named : Class → Program → List ℕ → Shdr → Option Bool
  unfolding get_section_name str_eq
  named class program name shdr = do
    section_name ← get_section_name class program shdr
    some (str_eq section_name name)

  unfoldable pub search_by_name : Class → Program → List ℕ → Option (Option Shdr)
  unfolding get_ehdr get_shdr search_loop named
  search_by_name class program name = do
    ehdr ← get_ehdr class program
    search_loop class program (named class program name) ehdr.e_shnum 0

  -- By a type. The name of the section found is read to print it.
  typed : Class → Program → ℕ → Shdr → Option Bool
  unfolding get_section_name
  typed class program type shdr =
      if shdr.sh_type == type
      then (get_section_name class program shdr >>= λ section_name. some true)
      else some false

  unfoldable pub search_by_type : Class → Program → ℕ → Option (Option Shdr)
  unfolding get_ehdr get_shdr search_loop typed
  search_by_type class program type = do
    ehdr ← get_ehdr class program
    search_loop class program (typed class program type) ehdr.e_shnum 0
