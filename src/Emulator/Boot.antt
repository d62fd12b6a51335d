-- ===== src/Emulator/Boot.antt =====
-- `ReadFile`, `SetDefaultMmuTable` and `run` of RISCV_Emulator.cc, without what they print. The
-- files of the host are handed in, as the bytes that it gives for a name.
pub mod Start
use m99_riscv_emulator.Prelude.{
  ℕ, ◌+◌, ◌-◌, ◌^◌, Bool, true, false, Option, none, some, List, [], ◌∷◌, ◌||◌, ltb, ◌==◌,
  if◌then◌else◌, ◌>>=◌, u32,
}
use m99_riscv_emulator.Prelude.Tables.{length, get_or}
use m99_riscv_emulator.Isa.Csrs
use m99_riscv_emulator.Memory.{MemoryWrapper, fresh}
use m99_riscv_emulator.Screen.{Terminal}
use m99_riscv_emulator.Peripheral.{DiskImage}
use m99_riscv_emulator.SystemCall.{Host}
use m99_riscv_emulator.Cpu.{RiscvCpu, set_register}
use m99_riscv_emulator.Cpu.Csr.{set_csr}
use m99_riscv_emulator.Cpu.Run.{run_cpu}
use m99_riscv_emulator.Cpu.Setup.{
  riscv_cpu, set_memory, set_work_memory, set_ecall_emulation_enable, disable_delegation,
  set_host_emulation_enable, set_device_emulation_enable, set_disk_image, device_initialization,
}
use m99_riscv_emulator.Emulator.{max_binary_size, top, bottom, initial_satp}
use m99_riscv_emulator.Emulator.Command.{Argument, Options, parse_cmd}
use m99_riscv_emulator.Emulator.Elf.{Program, ElfHeaders}
use m99_riscv_emulator.Emulator.Load.{Loaded, load_elf_file}
use m99_riscv_emulator.Emulator.Symbols.{get_entry_point, get_global_pointer}
use m99_riscv_emulator.Emulator.Table32.{set_default_mmu_table32}
use m99_riscv_emulator.Emulator.Table64.{set_default_mmu_table64}

-- What the host gives for a file's name; `none` if it cannot open the file.
abbrev pub Files : Type 0
Files = Argument → Option (List ℕ)

-- `none` is the exit of the program.
unfoldable pub read_file : Files → Argument → Option Program
read_file files filename = do
  bytes ← files filename
  (if ltb max_binary_size (length bytes) || length bytes == 0 then none else some bytes)

unfoldable pub set_default_mmu_table : Bool → MemoryWrapper → Option MemoryWrapper
unfolding set_default_mmu_table32 set_default_mmu_table64
set_default_mmu_table address64bit m =
    if address64bit then set_default_mmu_table64 m else set_default_mmu_table32 m

abbrev pub sp : ℕ
sp = 2

abbrev pub gp : ℕ
gp = 3

-- `global_pointer == -1`, on the bit pattern of an `int64_t`.
chosen_pointer : ℕ → ℕ → ℕ
chosen_pointer global_pointer entry_point =
    if global_pointer == 2 ^ 64 - 1 then entry_point else global_pointer

-- The calls on the processor up to the tables, and those after them.
unfoldable pub registers_set : RiscvCpu → Options → ℕ → RiscvCpu
unfolding set_ecall_emulation_enable set_register
registers_set cpu o global_pointer =
    set_register (set_register (set_ecall_emulation_enable cpu o.ecall_emulation) sp top) gp
      global_pointer

unfoldable pub connected : RiscvCpu → Options → Option DiskImage → MemoryWrapper → Option RiscvCpu
unfolding set_csr set_memory set_work_memory set_host_emulation_enable set_device_emulation_enable
    disable_delegation device_initialization set_disk_image
connected cpu o disk_image memory = do
  let cpu = set_csr cpu Csrs.satp (initial_satp o.address64bit o.paging)
  let cpu = set_work_memory (set_memory cpu memory) top bottom
  let cpu = set_host_emulation_enable cpu o.host_emulation
  let cpu = set_device_emulation_enable cpu o.device_enable
  cpu ← device_initialization (disable_delegation cpu o.disable_machine_interrupt_delegation)
  some (set_disk_image cpu disk_image)

abbrev disk_of : Program → DiskImage
disk_of bytes = record { size = length bytes; content = λ k. get_or bytes k 0 }

-- What the file gives: the memory that it is loaded into, the entry point, and the global pointer
-- as chosen.
pub record Started : Type 0 where
  pub memory : MemoryWrapper
  pub entry_point : ℕ
  pub global_pointer : ℕ

unfoldable pub start : ElfHeaders → Program → Option Started
unfolding load_elf_file get_entry_point get_global_pointer chosen_pointer
start h program = do
  loaded ← load_elf_file h program fresh
  entry_point ← get_entry_point h loaded.flag_64bit program
  global_pointer ← get_global_pointer h loaded.flag_64bit program
  some (record {
    memory = loaded.memory;
    entry_point = entry_point;
    global_pointer = chosen_pointer global_pointer entry_point;
  })

-- The state that `RunCpu` is called on. `shifted` and `uninitialised` are the constructor's.
unfoldable pub boot : ℕ → RiscvCpu → Options → Started → Option Program → Option RiscvCpu
unfolding riscv_cpu registers_set set_default_mmu_table connected
boot shifted uninitialised o started disk_image = do
  let cpu = registers_set (riscv_cpu shifted uninitialised o.address64bit) o started.global_pointer
  memory ← set_default_mmu_table o.address64bit started.memory
  connected cpu o (disk_image >>= λ bytes. some (disk_of bytes)) memory

-- How the program ends: with the usage, by `exit`, or after a run with the value that it returns.
pub data Ending : Type 0 where
  usage exited : Ending
  returned : ℕ → Ending

-- The disk image is read if a name is given; the outer `none` is the exit of the program.
read_disk : Files → Argument → Option (Option Program)
unfolding read_file
read_disk files [] = some none
read_disk files (c ∷ cs) = do bytes ← read_file files (c ∷ cs); some (some bytes)

-- `run`, with `fuel` for the rounds of the processor, and the answers of the host to them.
unfoldable pub run :
    ElfHeaders
    → ℕ
    → RiscvCpu
    → Files
    → (ℕ → Host)
    → (ℕ → Terminal)
    → ℕ
    → List Argument
    → Option Ending
unfolding parse_cmd read_file read_disk start boot run_cpu
run h shifted uninitialised files hosts terminals fuel argv =
    let o = parse_cmd argv in
    if o.error then some usage else elim (read_file files o.filename) [
      | none ↦ some exited
      | some program ↦ do
        started ← start h program
        elim (read_disk files o.diskimage_file) [
          | none ↦ some exited
          | some disk_image ↦ do
            cpu ← boot shifted uninitialised o started disk_image
            cpu ← run_cpu hosts terminals fuel cpu started.entry_point
            some (returned (u32 (cpu.reg 10)))
        ]
    ]
