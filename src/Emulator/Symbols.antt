-- ===== src/Emulator/Symbols.antt =====
-- The symbol table, the global pointer and the entry point of RISCV_Emulator.cc.
use m99_riscv_emulator.Prelude.{
  ℕ, zero, suc, ◌+◌, ◌-◌, ◌*◌, ◌/◌, ◌^◌, Bool, true, false, Option, none, some, ltb, if◌then◌else◌,
  ◌>>=◌, u32,
}
use m99_riscv_emulator.Prelude.Text.{codes, str_eq}
use mathlib.Core.List.{List}
use m99_riscv_emulator.Emulator.Elf.{
  Program, Shdr, Symbol, Class, elf32, elf64, ElfHeaders, get_ehdr, c_string, search_by_name,
  search_by_type,
}

module _ (h : ElfHeaders) where
  -- The loop over the symbols from the `i`th, with the number of symbols left.
  find_loop : Class → Program → (table strings : Shdr) → List ℕ → ℕ → ℕ → Option (Option Symbol)
  unfolding c_string str_eq
  find_loop class program table strings target_name zero i = some none
  find_loop class program table strings target_name (suc n) i = do
    symbol ← h.symbol_at class program (table.sh_offset + i * h.symbol_size class)
    symbol_name ← c_string program (strings.sh_offset + symbol.st_name)
    elim (str_eq symbol_name target_name) [
      | true ↦ some (some symbol)
      | false ↦ find_loop class program table strings target_name n (suc i)
    ]

  -- The rounds of a loop that counts up to an `int` from 0.
  rounds : ℕ → ℕ
  rounds number = if ltb (u32 number) (2 ^ 31) then u32 number else 0

  -- `FindElf32Symbol` and `FindElf64Symbol`.
  unfoldable pub find_symbol : Class → Program → List ℕ → Option (Option Symbol)
  unfolding find_loop rounds
  find_symbol class program target_name = do
    table ← search_by_type h class program h.sht_symtab
    elim table [
      | none ↦ some none
      | some table ↦ do
        strings ← search_by_name h class program (codes ".strtab")
        elim strings [
          | none ↦ some none
          | some strings ↦
              find_loop class program table strings target_name
                (rounds (table.sh_size / h.symbol_size class)) 0
        ]
    ]

  -- `GetElf32GlobalPointer` and `GetElf64GlobalPointer`, which return a `uint32_t`.
  unfoldable pub global_pointer_of : Class → Program → Option ℕ
  unfolding find_symbol
  global_pointer_of class program = do
    found ← find_symbol class program (codes "__global_pointer$")
    elim found [ some symbol ↦ some (u32 symbol.st_value) | none ↦ some (2 ^ 32 - 1) ]

  -- `flag_64bit` is the global that `LoadElfFile` sets. The result is the bit pattern of an
  -- `int64_t`.
  unfoldable pub get_global_pointer : Bool → Program → Option ℕ
  unfolding global_pointer_of
  get_global_pointer flag_64bit program =
      if flag_64bit then global_pointer_of elf32 program else global_pointer_of elf64 program

  -- `GetElf32EntryPoint` and `GetElf64EntryPoint`.
  unfoldable pub entry_point_of : Class → Program → Option ℕ
  entry_point_of class program = do ehdr ← get_ehdr h class program; some (u32 ehdr.e_entry)

  unfoldable pub get_entry_point : Bool → Program → Option ℕ
  unfolding entry_point_of
  get_entry_point flag_64bit program =
      if flag_64bit then entry_point_of elf64 program else entry_point_of elf32 program
