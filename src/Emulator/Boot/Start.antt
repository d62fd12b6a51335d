-- ===== src/Emulator/Boot/Start.antt =====
-- The state that a program starts in.
use m99_riscv_emulator.Prelude.{
  ℕ, ◌+◌, ◌-◌, ◌^◌, ◌<◌, ◌≤◌, ◌≡◌, ◌⊎◌, inl, inr, refl, arith, Bool, true, false, Option, none,
  some, ◌==◌, if◌then◌else◌, ◌>>=◌, u32,
}
use m99_riscv_emulator.Prelude.Options.{bind_to, bind_some, some_injective}
use m99_riscv_emulator.Prelude.Tables.{length, get_or}
use m99_riscv_emulator.Isa.Csrs
use m99_riscv_emulator.Cpu.Setup.Made.{riscv_cpu-Made}
use m99_riscv_emulator.Memory.{MemoryWrapper, fresh}
use m99_riscv_emulator.Memory.Word.{word}
use m99_riscv_emulator.Memory.Bytes.{byte, IsWords, fresh-IsWords}
use m99_riscv_emulator.Mmu.{machine_mode}
use m99_riscv_emulator.Cpu.{RiscvCpu, set_register}
use m99_riscv_emulator.Peripheral.{DiskImage}
use m99_riscv_emulator.Cpu.Csr.{set_csr}
use m99_riscv_emulator.Cpu.Setup.{
  riscv_cpu, set_ecall_emulation_enable, set_memory, set_work_memory, disable_delegation,
  set_host_emulation_enable, set_device_emulation_enable, set_disk_image, device_initialization,
}
use m99_riscv_emulator.Emulator.{top, bottom, initial_satp}
use m99_riscv_emulator.Emulator.Command.{Options}
use m99_riscv_emulator.Emulator.Elf.{
  Symbol, Program, Ehdr, Phdr, Shdr, Class, elf32, elf64, ElfHeaders, get_ehdr, is_64bit_elf,
  is_right_elf,
}
use m99_riscv_emulator.Emulator.Load.{load_class, load_elf_file}
use m99_riscv_emulator.Emulator.Load.Image.{IsLoadable, file_image, load_class_lem}
use m99_riscv_emulator.Emulator.Symbols.{
  get_entry_point, get_global_pointer, global_pointer_of, find_symbol, entry_point_of,
}
use m99_riscv_emulator.Emulator.Table32.Identity as Table32
use m99_riscv_emulator.Emulator.Table64.Identity as Table64
use m99_riscv_emulator.Emulator.Table32.Identity.{IsIdentity32, set_default_mmu_table32_lem}
use m99_riscv_emulator.Emulator.Table64.Identity.{IsIdentity64, set_default_mmu_table64_lem}
use m99_riscv_emulator.Emulator.Boot.{
  Started, start, boot, registers_set, connected, set_default_mmu_table, chosen_pointer, disk_of,
}

pub global_pointer_of-lt :
    (h : ElfHeaders) (class : Class) (program : Program) (value : ℕ)
    → global_pointer_of h class program ≡ some value
    → value < 2 ^ 32
unfolding global_pointer_of
global_pointer_of-lt h class program value e =
    let (found, searched, rest) = bind_some (find_symbol h class program _) _ e in
    by_symbol found rest
  where
    by_symbol :
        (found : Option Symbol)
        → (elim found [ some symbol ↦ some (u32 symbol.st_value) | none ↦ some (2 ^ 32 - 1) ])
          ≡ some value
        → value < 2 ^ 32
    by_symbol (some symbol) e = let same = some_injective e in omega arith
    by_symbol none e = let same = some_injective e in omega arith

pub get_global_pointer-lt :
    (h : ElfHeaders) (flag_64bit : Bool) (program : Program) (value : ℕ)
    → get_global_pointer h flag_64bit program ≡ some value
    → value < 2 ^ 32
unfolding get_global_pointer
get_global_pointer-lt h true program value e = global_pointer_of-lt h elf32 program value e
get_global_pointer-lt h false program value e = global_pointer_of-lt h elf64 program value e

abbrev class_of : Bool → Class
class_of flag_64bit = if flag_64bit then elf64 else elf32

entry_of_class :
    (h : ElfHeaders) (flag_64bit : Bool) (program : Program) (ehdr : Ehdr)
    → get_ehdr h (class_of flag_64bit) program ≡ some ehdr
    → get_entry_point h flag_64bit program ≡ some (u32 ehdr.e_entry)
unfolding get_entry_point entry_point_of
entry_of_class h true program ehdr e = bind_to _ e refl
entry_of_class h false program ehdr e = bind_to _ e refl

-- What `start` does with a file whose first structure is `ident` and whose headers of the class that
-- this names are those of `IsLoadable`.
module _ (h : ElfHeaders) (program : Program) (ident ehdr : Ehdr) (phdrs : ℕ → Phdr)
    (bss : Option Shdr) (pointer : ℕ) (read : get_ehdr h elf32 program ≡ some ident)
    (ok : IsLoadable h (class_of (is_64bit_elf h ident)) program ehdr phdrs bss)
    (found : get_global_pointer h (is_64bit_elf h ident) program ≡ some pointer) where
  elf_loaded :
      (m : MemoryWrapper)
      → load_class h (class_of (is_64bit_elf h ident)) program fresh ≡ some m
      → load_elf_file h program fresh
        ≡ some (record {
          accepted = is_right_elf h ident;
          flag_64bit = is_64bit_elf h ident;
          memory = m;
        })
  unfolding load_elf_file
  elf_loaded m loaded = bind_to _ read (bind_to _ loaded refl)

  -- For a file whose first structure is `ident`, that can be loaded as a file of the class that this
  -- names, and whose symbols give `pointer`: `start` succeeds. The memory is one of words and holds
  -- the program by its headers, over an empty memory; the entry point is that of the class's header,
  -- cut to 32 bits; and the global pointer is `pointer`, for which the entry point is never taken.
  pub start_lem :
      (s : Started) × (start h program ≡ some s)
      × IsWords s.memory
      × ((j : ℕ) → byte s.memory j ≡ file_image h program ehdr phdrs bss (byte fresh) j)
      × (s.entry_point ≡ u32 ehdr.e_entry)
      × (s.global_pointer ≡ pointer)
  unfolding start chosen_pointer
  start_lem =
      let (m, loaded, words, image) =
        load_class_lem h (class_of (is_64bit_elf h ident)) program ehdr phdrs bss fresh ok
          fresh-IsWords in
      let small = get_global_pointer-lt h (is_64bit_elf h ident) program pointer found in
      let never : (pointer == 2 ^ 64 - 1) ≡ false = ground arith in
      (
        record { memory = m; entry_point = u32 ehdr.e_entry; global_pointer = pointer },
        bind_to _ (elf_loaded m loaded) (
            bind_to _ (entry_of_class h (is_64bit_elf h ident) program ehdr ok.header)
              (bind_to _ found (rw never refl))),
        words,
        image,
        refl,
        refl,
      )

-- The default table of the width that was asked for.
abbrev pub IsIdentity : Bool → MemoryWrapper → Type 0
IsIdentity address64bit m = if address64bit then IsIdentity64 m else IsIdentity32 m

-- The words that the tables of both widths leave alone.
abbrev pub OutsideTables : ℕ → Type 0
OutsideTables k = (k < 0x30000000) ⊎ (0x30201400 ≤ k)

beyond64 : {k : ℕ} → OutsideTables k → Table64.OutsideTable k
beyond64 (inl below) = inl below
beyond64 (inr above) = inr above

beyond32 : {k : ℕ} → OutsideTables k → Table32.OutsideTable k
beyond32 (inl below) = inl below
beyond32 (inr above) = inr (omega arith)

set_default_mmu_table_lem :
    (address64bit : Bool) (m : MemoryWrapper)
    → IsWords m
    → (m' : MemoryWrapper) × (set_default_mmu_table address64bit m ≡ some m')
      × IsIdentity address64bit m'
      × ((k : ℕ) → OutsideTables k → word m' k ≡ word m k)
unfolding set_default_mmu_table
set_default_mmu_table_lem true m words =
    let (m', made, identity, kept, _) = set_default_mmu_table64_lem m words in
    (m', made, identity, λ k out. kept k (beyond64 out))
set_default_mmu_table_lem false m words =
    let (m', made, identity, kept) = set_default_mmu_table32_lem m words in
    (m', made, identity, λ k out. kept k (beyond32 out))

no_devices :
    (cpu : RiscvCpu) → cpu.peripheral_emulation ≡ false → device_initialization cpu ≡ some cpu
unfolding device_initialization
no_devices cpu h = by_flag cpu.peripheral_emulation h _
  where
    by_flag :
        (t : Bool)
        → t ≡ false
        → (x : Option RiscvCpu) → (elim t [ false ↦ some cpu | true ↦ x ]) ≡ some cpu
    by_flag true e x = absurd cc
    by_flag false e x = refl

-- The disk of the processor is the one whose bytes were read.
abbrev pub IsDisk : Option Program → Option DiskImage → Type 0
IsDisk none none = Unit
IsDisk (some bytes) (some disk) =
    (disk.size ≡ length bytes) × ((k : ℕ) → disk.content k ≡ get_or bytes k 0)
IsDisk _ _ = ⊥

connected_disk :
    (disk_image : Option Program) → IsDisk disk_image (disk_image >>= λ bytes. some (disk_of bytes))
connected_disk none = tt
connected_disk (some bytes) = (refl, λ k. refl)

-- The processor as `run` sets it up: in machine mode and of the width of the options `o`, with the
-- registers 0 but for the stack pointer, register 2, and the global pointer, register 3; with SATP, CSR
-- 0x180, 0 or else the translation on with its table at page 0xC0000; no interrupt enabled or
-- pending; the switches of the options; and the disk image.
pub record IsBooted (o : Options) (global_pointer : ℕ) (disk_image : Option Program)
    (cpu : RiscvCpu) : Type 0 where
  pub mode : cpu.privilege ≡ machine_mode
  pub width :
      (cpu.mxl ≡ (if o.address64bit then 2 else 1))
      × (cpu.xlen ≡ (if o.address64bit then 64 else 32))
  pub mstatus : cpu.mstatus ≡ (if o.address64bit then 2 ^ 35 + 2 ^ 33 else 0)
  pub registers :
      (i : ℕ) → cpu.reg i ≡ (if i == 3 then global_pointer else if i == 2 then 0x80000000 else 0)
  pub satp :
      cpu.csrs 0x180
      ≡ (if o.paging then (if o.address64bit then 2 ^ 63 else 2 ^ 31) + 0xC0000 else 0)
  pub quiet : (cpu.mie ≡ 0) × (cpu.mip ≡ 0) × (cpu.page_fault ≡ false)
  pub work : (cpu.top ≡ 0x80000000) × (cpu.brk ≡ 0x40000000)
  pub ecalls : cpu.ecall_emulation ≡ o.ecall_emulation
  pub host :
      (cpu.host_emulation ≡ o.host_emulation)
      × (cpu.peripheral.host_emulation_enable ≡ o.host_emulation)
  pub devices :
      (cpu.peripheral_emulation ≡ o.device_enable)
      × (cpu.peripheral.device_emulation_enable ≡ o.device_enable)
  pub delegation : cpu.disable_machine_interrupt_delegation ≡ o.disable_machine_interrupt_delegation
  pub disk : IsDisk disk_image cpu.peripheral.disk_image

initial_satp_lem :
    (wide paging : Bool)
    → initial_satp wide paging ≡ (if paging then (if wide then 2 ^ 63 else 2 ^ 31) + 0xC0000 else 0)
initial_satp_lem true true = refl
initial_satp_lem true false = refl
initial_satp_lem false true = refl
initial_satp_lem false false = refl

-- With no device emulated, `boot` succeeds on a memory of words. The processor is as the options ask
-- for (`IsBooted`), with the file's global pointer and the disk image that was read; its memory has
-- the default table of the width asked for, and every word outside the tables of both widths as it
-- was loaded.
pub boot_lem :
    (shifted : ℕ) (uninitialised : RiscvCpu) (o : Options) (s : Started)
    (disk_image : Option Program)
    → o.device_enable ≡ false
    → IsWords s.memory
    → (cpu : RiscvCpu) × (boot shifted uninitialised o s disk_image ≡ some cpu)
      × IsBooted o s.global_pointer disk_image cpu
      × IsIdentity o.address64bit cpu.memory
      × ((k : ℕ) → OutsideTables k → word cpu.memory k ≡ word s.memory k)
unfolding boot connected registers_set set_register set_csr set_ecall_emulation_enable set_memory
    set_work_memory set_host_emulation_enable set_device_emulation_enable disable_delegation
    set_disk_image
boot_lem shifted uninitialised o s disk_image quiet words =
    let (m, made, identity, kept) = set_default_mmu_table_lem o.address64bit s.memory words in
    let c0 = registers_set (riscv_cpu shifted uninitialised o.address64bit) o s.global_pointer in
    let c1 = set_memory (set_csr c0 Csrs.satp (initial_satp o.address64bit o.paging)) m in
    let c2 = set_host_emulation_enable (set_work_memory c1 top bottom) o.host_emulation in
    let c3 =
      disable_delegation (set_device_emulation_enable c2 o.device_enable)
        o.disable_machine_interrupt_delegation in
    let new = riscv_cpu-Made shifted uninitialised o.address64bit in
    (
      set_disk_image c3 (disk_image >>= λ bytes. some (disk_of bytes)),
      bind_to _ made (bind_to _ (no_devices c3 quiet) refl),
      record {
        mode = new.mode;
        width = new.width;
        mstatus = new.mstatus;
        registers = λ i. rw (new.registers i) refl;
        satp = initial_satp_lem o.address64bit o.paging;
        quiet = new.quiet;
        work = (refl, new.break);
        ecalls = refl;
        host = (refl, refl);
        devices = (refl, refl);
        delegation = refl;
        disk = connected_disk disk_image;
      },
      identity,
      kept,
    )
