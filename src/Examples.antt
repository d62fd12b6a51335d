-- ===== src/Examples.antt =====
-- The theorems at concrete inputs: a memory with one leaf of a page table, and single words.
pub mod Machine
pub mod Loader
use m99_riscv_emulator.Prelude.{
  ℕ, ◌<◌, ◌≤◌, ◌⊎◌, ◌+◌, ◌-◌, ◌*◌, ◌/◌, ◌%◌, ◌^◌, ◌≡◌, refl, arith, true, false, some, ◌>>=◌, u32,
}
use m99_riscv_emulator.BitTools.{bitcrop}
use m99_riscv_emulator.BitTools.Fields.{bitcrop_lem}
use m99_riscv_emulator.Memory.{MemoryWrapper, fresh, read_byte, write_byte}
use m99_riscv_emulator.Memory.Word.{stored}
use m99_riscv_emulator.Memory.Bytes.{IsWords, fresh-IsWords, stored-IsWords, read_byte-write_byte}
use m99_riscv_emulator.Pte.Pte64
use m99_riscv_emulator.Pte.Ppn.{set_ppn64_fields}
use m99_riscv_emulator.Mmu.{
  Mmu, supervisor_mode, Translated, WalkEnd, initial, walk64, walk32, vpn64, vpn32,
  virtual_to_physical, virtual_to_physical64, virtual_to_physical32,
}
use m99_riscv_emulator.Mmu.Tables.{Walks64, Walks32}
use m99_riscv_emulator.Mmu.Sv39.{Outcome64, virtual_to_physical64_outcome}
use m99_riscv_emulator.Mmu.Sv32.{Outcome32, virtual_to_physical32_outcome}
use m99_riscv_emulator.Mmu.Translate.{IsTranslation, virtual_to_physical_total}
use m99_riscv_emulator.Isa.{Instruction}
use m99_riscv_emulator.Decode.Encodings.{encodes}
use m99_riscv_emulator.Decode.Code32.{get_code32}
use m99_riscv_emulator.Decode.Laws.{get_code32_complete}
use m99_riscv_emulator.Decode.Code16.{get_code16}
use m99_riscv_emulator.Decode.Code16.WellFormed.{IsWellFormed, get_code16-IsWellFormed}
use m99_riscv_emulator.Encdec.{BitField, get_imm}
use m99_riscv_emulator.Encdec.Immediates.{immediate, get_imm_lem}
use m99_riscv_emulator.Cpu.{RiscvCpu}
use m99_riscv_emulator.Peripheral.{peripheral}
use m99_riscv_emulator.Encdec.IType

-- A table at page 1 whose first entry is a valid leaf, readable, writable and executable.
abbrev one_leaf : MemoryWrapper
one_leaf = stored fresh 1024 0x0F

one_leaf-IsWords : IsWords one_leaf
one_leaf-IsWords = stored-IsWords fresh 1024 0x0F fresh-IsWords (omega arith)

abbrev supervisor : Mmu
supervisor = record initial { privilege = supervisor_mode }

abbrev sv39_satp : ℕ
sv39_satp = 8 * 2 ^ 60 + 1

abbrev sv32_satp : ℕ
sv32_satp = 2 ^ 31 + 1

abbrev no_fields : BitField
no_fields = record { opcode = 0; rd = 0; rs2 = 0; rs1 = 0; funct3 = 0 }

sv39_mode : bitcrop sv39_satp 4 60 ≡ 8
sv39_mode = bitcrop_lem sv39_satp 4 60 (omega arith)

sv32_mode : bitcrop sv32_satp 1 31 ≡ 1
sv32_mode = bitcrop_lem sv32_satp 1 31 (omega arith)

virtual_to_physical_total_example :
    (r : Translated) × (virtual_to_physical supervisor one_leaf 0x12345 sv39_satp true ≡ some r)
    × IsTranslation one_leaf 0x12345 r
virtual_to_physical_total_example =
    virtual_to_physical_total supervisor one_leaf 0x12345 sv39_satp true one_leaf-IsWords

virtual_to_physical64_outcome_example :
    (e : WalkEnd) × (r : Translated) × Walks64 one_leaf 0x12345 2 (sv39_satp % 2 ^ 44) e
    × (virtual_to_physical64 supervisor one_leaf 0x12345 sv39_satp true ≡ some r)
    × Outcome64 supervisor one_leaf 0x12345 true e r
virtual_to_physical64_outcome_example =
    virtual_to_physical64_outcome supervisor one_leaf 0x12345 true sv39_satp one_leaf-IsWords
      sv39_mode

virtual_to_physical32_outcome_example :
    (e : WalkEnd) × (r : Translated) × Walks32 one_leaf 0x12345 1 (sv32_satp % 2 ^ 22) e
    × (virtual_to_physical32 supervisor one_leaf 0x12345 sv32_satp true ≡ some r)
    × Outcome32 supervisor one_leaf 0x12345 true e r
virtual_to_physical32_outcome_example =
    virtual_to_physical32_outcome supervisor one_leaf 0x12345 true sv32_satp one_leaf-IsWords
      sv32_mode

read_byte-write_byte_example : (write_byte one_leaf 4097 0xAB >>= λ m. read_byte m 4097) ≡ some 0xAB
read_byte-write_byte_example =
    read_byte-write_byte one_leaf 4097 0xAB 4097 one_leaf-IsWords (omega arith)

get_code32_complete_example : get_code32 0x00c58533 ≡ Instruction.add
unfolding encodes
get_code32_complete_example = get_code32_complete Instruction.add 0x00c58533 refl

get_code16-IsWellFormed_example : IsWellFormed (get_code16 0x4388 2)
get_code16-IsWellFormed_example = get_code16-IsWellFormed 0x4388 2

get_imm_lem_example : get_imm 0xFE000EE3 ≡ immediate 0xFE000EE3
get_imm_lem_example = get_imm_lem 0xFE000EE3

set_ppn64_fields_example :
    (Pte64.get_ppn (Pte64.set_ppn (2 ^ 33 + 0xCF) 5) ≡ 2 ^ 23 + 5)
    × (Pte64.set_ppn (2 ^ 33 + 0xCF) 5 / 2 ^ 32 ≡ 2)
    × (Pte64.set_ppn (2 ^ 33 + 0xCF) 5 % 2 ^ 10 ≡ 0xCF)
set_ppn64_fields_example = set_ppn64_fields (2 ^ 33 + 0xCF) 5 (omega arith) (omega arith)

-- A 64-bit hart whose registers all hold a pattern with the sign digit of its low half set.
abbrev hart : RiscvCpu
hart = record {
  xlen = 64;
  mxl = 2;
  reg = λ num. 2 ^ 40 + 2 ^ 31 + 5;
  pc = 0;
  ir = 0;
  next_pc = 4;
  mstatus = 0;
  mie = 0;
  mip = 0;
  privilege = supervisor_mode;
  memory = fresh;
  csrs = λ csr. 0;
  page_fault = false;
  prev_page_fault = false;
  prev_faulting_address = 0;
  error_flag = false;
  end_flag = false;
  faulting_address = 0;
  mmu = initial;
  peripheral = peripheral 2;
  ecall_emulation = false;
  host_emulation = false;
  peripheral_emulation = false;
  virtio_interrupt = false;
  uart_interrupt = false;
  disable_machine_interrupt_delegation = false;
  top = 2 ^ 31;
  brk = 2 ^ 30;
  open_handles = 0;
}
