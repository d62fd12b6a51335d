-- ===== src/Cpu/Transfer.antt =====
-- `LoadInstruction` and `StoreInstruction` of RISCV_cpu.cc: an access that crosses a doubleword is
-- made in two parts, each with its own translation.
pub mod Machine
pub mod Load
pub mod Store
use m99_riscv_emulator.Prelude.{
  ℕ, ◌+◌, ◌-◌, ◌*◌, ◌/◌, ◌%◌, ◌^◌, Bool, true, false, Option, none, some, ◌>>=◌, bit_and, bit_or,
  ltb, if◌then◌else◌, u64, of_int32, ◌<<<◌, ◌>>>◌,
}
use m99_riscv_emulator.BitTools.{sign_extend}
use m99_riscv_emulator.Memory.{generate_bit_mask}
use m99_riscv_emulator.Isa.{Instruction}
use m99_riscv_emulator.Isa.Causes
use m99_riscv_emulator.Peripheral.{
  check_device_read, check_device_write, memory_mapped_value_update,
}
use m99_riscv_emulator.Cpu.{
  RiscvCpu, set_register, get_load_width, get_store_width, get_access_width,
}
use m99_riscv_emulator.Cpu.Access.{virtual_to_physical, load_wd, store_wd}
use m99_riscv_emulator.Cpu.Trap.{trap}

-- The second part of a load. Its address is the physical one of the first part, translated again;
-- on a page fault nothing is read.
load_upper : RiscvCpu → ℕ → ℕ → ℕ → ℕ → Option (ℕ × RiscvCpu)
load_upper cpu address access_width next_width load_data = do
  next ← virtual_to_physical cpu (u64 (address + access_width)) false
  (if next.1.page_fault
      then some (load_data, next.1)
      else (load_wd next.1.memory next.0 next_width >>= λ load_data_high.
          some (bit_or load_data (u64 (load_data_high <<< (access_width * 8))), next.1)))

pub load_parts : RiscvCpu → ℕ → ℕ → Option (ℕ × RiscvCpu)
unfolding load_upper
load_parts cpu address width =
    let access_width = get_access_width width address in
    let next_width = width - access_width in
    do
      load_data ← load_wd cpu.memory address access_width
      (if ltb 0 next_width
          then load_upper cpu address access_width next_width load_data
          else some (load_data, cpu))

-- What the register gets.
unfoldable pub extended : Instruction → ℕ → ℕ
extended Instruction.lb load_data = sign_extend 64 load_data 8
extended Instruction.lh load_data = sign_extend 64 load_data 16
extended Instruction.lw load_data = sign_extend 64 load_data 32
extended Instruction.lwu load_data = bit_and load_data 0xFFFFFFFF
extended _ load_data = load_data

pub load_at : RiscvCpu → Instruction → ℕ → ℕ → Option RiscvCpu
unfolding load_parts extended
load_at cpu instruction rd address = do
  width ← get_load_width instruction
  loaded ← load_parts cpu address width
  (if loaded.1.page_fault
      then trap loaded.1 Causes.load_page_fault false
      else some (
          set_register
            (record loaded.1 { peripheral = check_device_read loaded.1.peripheral address width })
            rd (extended instruction loaded.0)))

unfoldable pub load_instruction : RiscvCpu → Instruction → ℕ → ℕ → ℕ → Option RiscvCpu
unfolding load_at
load_instruction cpu instruction rd rs1 imm12 = do
  memory ← memory_mapped_value_update cpu.peripheral cpu.memory
  source ←
      virtual_to_physical (record cpu { memory = memory }) (u64 (cpu.reg rs1 + of_int32 imm12))
        false
  (if source.1.page_fault
      then trap source.1 Causes.load_page_fault false
      else load_at source.1 instruction rd source.0)

-- The second part of a store.
pub store_upper : RiscvCpu → ℕ → ℕ → ℕ → ℕ → Option RiscvCpu
store_upper cpu dst_address access_width next_width value = do
  next ← virtual_to_physical cpu (u64 (dst_address + access_width)) true
  (if next.1.page_fault
      then some (next.1)
      else (store_wd next.1.memory next.0 (value >>> (access_width * 8)) next_width >>= λ memory.
          some (record next.1 { memory = memory })))

pub store_parts : RiscvCpu → ℕ → ℕ → ℕ → ℕ → Option RiscvCpu
unfolding store_upper
store_parts cpu dst_address address width value =
    let access_width = get_access_width width dst_address in
    let next_width = width - access_width in
    let data' = bit_and value (of_int32 (generate_bit_mask (access_width * 8))) in
    do
      memory ← store_wd cpu.memory address data' access_width
      (if ltb 0 next_width
          then store_upper (record cpu { memory = memory }) dst_address access_width next_width
              value
          else some (record cpu { memory = memory }))

pub store_at : RiscvCpu → Instruction → ℕ → ℕ → ℕ → Option RiscvCpu
unfolding store_parts
store_at cpu instruction dst_address address value = do
  width ← get_store_width instruction
  stored ← store_parts cpu dst_address address width value
  (if stored.page_fault
      then trap stored Causes.store_page_fault false
      else some
          (record stored { peripheral = check_device_write stored.peripheral address width value }))

unfoldable pub store_instruction : RiscvCpu → Instruction → ℕ → ℕ → ℕ → Option RiscvCpu
unfolding store_at
store_instruction cpu instruction rs1 rs2 imm12_stype =
    let dst_address = u64 (cpu.reg rs1 + of_int32 imm12_stype) in
    do
      target ← virtual_to_physical cpu dst_address true
      (if target.1.page_fault
          then trap target.1 Causes.store_page_fault false
          else store_at target.1 instruction dst_address target.0 (cpu.reg rs2))
