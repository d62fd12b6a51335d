-- ===== src/Cpu.antt =====
-- `RiscvCpu` of RISCV_cpu.cc: its state, and the part that works on registers alone: branches,
-- register operations, operations with an immediate, and the widths of the memory accesses. An `int32_t` is
-- its pattern of 32 bits.
pub mod Width
pub mod Registers
pub mod Shift
pub mod Csr
pub mod Trap
pub mod Access
pub mod Mult
pub mod Amo
pub mod Transfer
pub mod Step
pub mod Execute
pub mod Run
pub mod Setup
use m99_riscv_emulator.Prelude.{
  ℕ, ◌+◌, ◌-◌, ◌*◌, ◌/◌, ◌^◌, ◌%◌, Bool, true, false, not, ◌&&◌, ◌||◌, Option, some, none, ◌>>=◌,
  bit_and, bit_or, bit_xor, ltb, ◌==◌, if◌then◌else◌, u64, ◌<<<◌, ◌>>>◌, complement, of_int32,
  ltb_int64,
}
use m99_riscv_emulator.Isa.{Instruction}
use m99_riscv_emulator.Memory.{MemoryWrapper, update}
use m99_riscv_emulator.Mmu.{Mmu, PrivilegeMode}
use m99_riscv_emulator.Peripheral.{PeripheralEmulator}

-- `reg_`, `csrs_`, `pc_` and the rest hold 64 bits; the memory that the processor shares with its
-- `mmu` and its `peripheral` is here, and handed to them. `ctype_` and `timer_interrupt_` are never
-- read after they are written. `open_handles` is the global of system_call_emulator.cpp.
pub record RiscvCpu : Type 0 where
  pub xlen : ℕ
  pub mxl : ℕ
  pub reg : ℕ → ℕ
  pub pc : ℕ
  pub ir : ℕ
  pub next_pc : ℕ
  pub mstatus : ℕ
  pub mie : ℕ
  pub mip : ℕ
  pub privilege : PrivilegeMode
  pub memory : MemoryWrapper
  pub csrs : ℕ → ℕ
  pub page_fault : Bool
  pub prev_page_fault : Bool
  pub prev_faulting_address : ℕ
  pub error_flag : Bool
  pub end_flag : Bool
  pub faulting_address : ℕ
  pub mmu : Mmu
  pub peripheral : PeripheralEmulator
  pub ecall_emulation : Bool
  pub host_emulation : Bool
  pub peripheral_emulation : Bool
  pub virtio_interrupt : Bool
  pub uart_interrupt : Bool
  pub disable_machine_interrupt_delegation : Bool
  pub top : ℕ
  pub brk : ℕ
  pub open_handles : ℕ

unfoldable pub set_register : RiscvCpu → ℕ → ℕ → RiscvCpu
set_register cpu num value = record cpu { reg = update cpu.reg num value }

-- `kUpper32bitMask`.
abbrev upper_mask : ℕ
upper_mask = 0xFFFFFFFF00000000

unfoldable pub sext32bit : ℕ → ℕ
sext32bit data32bit =
    if bit_and (data32bit >>> 31) 1 == 0
    then bit_and data32bit (complement 64 upper_mask)
    else bit_or data32bit upper_mask

-- `static_cast<int64_t>(x) >> s`, for `s` below 64.
abbrev pub shift_right_int64 : ℕ → ℕ → ℕ
shift_right_int64 x s = (x >>> s) + (if ltb x (2 ^ 63) then 0 else 2 ^ 64 - 2 ^ (64 - s))

branch_condition : Instruction → ℕ → ℕ → Bool
branch_condition Instruction.beq a b = a == b
branch_condition Instruction.bge a b = not (ltb_int64 a b)
branch_condition Instruction.bgeu a b = not (ltb a b)
branch_condition Instruction.blt a b = ltb_int64 a b
branch_condition Instruction.bltu a b = ltb a b
branch_condition Instruction.bne a b = not (a == b)
branch_condition _ a b = false

unfoldable pub branch_instruction : RiscvCpu → Instruction → ℕ → ℕ → ℕ → ℕ
unfolding branch_condition
branch_instruction cpu instruction rs1 rs2 imm13 =
    if branch_condition instruction (cpu.reg rs1) (cpu.reg rs2)
    then u64 (cpu.pc + of_int32 imm13)
    else cpu.next_pc

unfoldable pub w_instruction : Instruction → Bool
w_instruction Instruction.addw = true
w_instruction Instruction.subw = true
w_instruction Instruction.sllw = true
w_instruction Instruction.srlw = true
w_instruction Instruction.sraw = true
w_instruction _ = false

-- The switch of `OperationInstruction`, over the two operands and `shift_mask`.
operation_value : ℕ → ℕ → Instruction → ℕ → ℕ → Option ℕ
operation_value xlen shift_mask Instruction.add a b = some (u64 (a + b))
operation_value xlen shift_mask Instruction.addw a b = some (u64 (a + b))
operation_value xlen shift_mask Instruction.sub a b = some (u64 (a + (2 ^ 64 - b)))
operation_value xlen shift_mask Instruction.subw a b = some (u64 (a + (2 ^ 64 - b)))
operation_value xlen shift_mask Instruction.and a b = some (bit_and a b)
operation_value xlen shift_mask Instruction.or a b = some (bit_or a b)
operation_value xlen shift_mask Instruction.xor a b = some (bit_xor a b)
operation_value xlen shift_mask Instruction.sll a b = some (u64 (a <<< bit_and b shift_mask))
operation_value xlen shift_mask Instruction.sllw a b = some (u64 (a <<< bit_and b shift_mask))
operation_value xlen shift_mask Instruction.srl a b =
    some ((if xlen == 32 then bit_and a 0xFFFFFFFF else a) >>> bit_and b shift_mask)
operation_value xlen shift_mask Instruction.srlw a b =
    some (bit_and a 0xFFFFFFFF >>> bit_and b shift_mask)
operation_value xlen shift_mask Instruction.sra a b =
    some (shift_right_int64 a (bit_and b shift_mask))
operation_value xlen shift_mask Instruction.sraw a b = some (sext32bit a >>> bit_and b shift_mask)
operation_value _ _ _ _ _ = none

unfoldable pub operation_instruction : RiscvCpu → Instruction → ℕ → ℕ → ℕ → Option RiscvCpu
unfolding operation_value w_instruction
operation_instruction cpu instruction rd rs1 rs2 =
    let w = w_instruction instruction in
    let shift_mask = if cpu.xlen == 32 || w then 0b0011111 else 0b0111111 in
    do
      temp64 ← operation_value cpu.xlen shift_mask instruction (cpu.reg rs1) (cpu.reg rs2)
      some (set_register cpu rd (if cpu.xlen == 32 || w then sext32bit temp64 else temp64))

-- The switch of `ImmediateInstruction`, over the register and the immediate with its sign copied.
immediate_value : Instruction → ℕ → ℕ → Option ℕ
immediate_value Instruction.addi a imm = some (u64 (a + imm))
immediate_value Instruction.addiw a imm = some (u64 (a + imm))
immediate_value Instruction.andi a imm = some (bit_and a imm)
immediate_value Instruction.ori a imm = some (bit_or a imm)
immediate_value Instruction.xori a imm = some (bit_xor a imm)
immediate_value _ a imm = none

is_addiw : Instruction → Bool
is_addiw Instruction.addiw = true
is_addiw _ = false

unfoldable pub immediate_instruction : RiscvCpu → Instruction → ℕ → ℕ → ℕ → Option RiscvCpu
unfolding immediate_value is_addiw
immediate_instruction cpu instruction rd rs1 imm12 = do
  temp64 ← immediate_value instruction (cpu.reg rs1) (of_int32 imm12)
  some (
      set_register cpu rd
        (if cpu.xlen == 32 || is_addiw instruction then sext32bit temp64 else temp64))

unfoldable pub get_load_width : Instruction → Option ℕ
get_load_width Instruction.lb = some 1
get_load_width Instruction.lbu = some 1
get_load_width Instruction.lh = some 2
get_load_width Instruction.lhu = some 2
get_load_width Instruction.lw = some 4
get_load_width Instruction.lwu = some 4
get_load_width Instruction.ld = some 8
get_load_width _ = none

unfoldable pub get_store_width : Instruction → Option ℕ
get_store_width Instruction.sb = some 1
get_store_width Instruction.sh = some 2
get_store_width Instruction.sw = some 4
get_store_width Instruction.sd = some 8
get_store_width _ = none

-- The bytes of an access that lie in its first doubleword.
unfoldable pub get_access_width : ℕ → ℕ → ℕ
get_access_width width address =
    let mask =
      if width == 2 then 0b1 else if width == 4 then 0b11 else if width == 8 then 0b111 else 0 in
    if ((bit_and address 0b111 + width) - 1) >>> 3 == 0 then width else width - bit_and address mask
