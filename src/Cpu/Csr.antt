-- ===== src/Cpu/Csr.antt =====
-- The control and status registers of RISCV_cpu.cc: the registers `mstatus_`, `mie_` and `mip_`, and
-- their views in `csrs_`.
pub mod Views
use m99_riscv_emulator.Prelude.{
  ℕ, ◌+◌, ◌-◌, ◌*◌, ◌%◌, ◌^◌, Bool, true, false, ◌||◌, bit_and, bit_or, ◌==◌, if◌then◌else◌, u32,
  u64, ◌<<<◌, complement,
}
use m99_riscv_emulator.BitTools.{bitset}
use m99_riscv_emulator.Memory.{update}
use m99_riscv_emulator.Isa.{Instruction}
use m99_riscv_emulator.Isa.Csrs
use m99_riscv_emulator.Cpu.{RiscvCpu, set_register}

unfoldable pub set_csr : RiscvCpu → ℕ → ℕ → RiscvCpu
set_csr cpu index value = record cpu { csrs = update cpu.csrs index value }

abbrev pub sstatus_mask : ℕ → ℕ
sstatus_mask mxl = if mxl == 1 then 0b11011110000100110011 else 0b1100000000000011011110000100110011

abbrev pub ustatus_mask : ℕ → ℕ
ustatus_mask mxl = if mxl == 1 then 0b11011110000000010001 else 0b0000000000000011011110000000010001

abbrev pub uip_mask : ℕ
uip_mask = 0b0000100010001

abbrev pub sip_mask : ℕ
sip_mask = 0b0001100110011

unfoldable pub apply_mstatus_to_csr : RiscvCpu → RiscvCpu
unfolding set_csr
apply_mstatus_to_csr cpu =
    set_csr
      (set_csr (set_csr cpu Csrs.ustatus (bit_and cpu.mstatus (ustatus_mask cpu.mxl))) Csrs.sstatus
        (bit_and cpu.mstatus (sstatus_mask cpu.mxl)))
      Csrs.mstatus cpu.mstatus

-- `(register & ~mask) | (value & mask)`.
abbrev pub merged : ℕ → ℕ → ℕ → ℕ
merged register mask value = bit_or (bit_and register (complement 64 mask)) (bit_and value mask)

-- `mstatus_` after a write to one of its views, before the hardwired fields are set.
written_mstatus : RiscvCpu → ℕ → ℕ
written_mstatus cpu csr =
    if csr == Csrs.ustatus
    then merged cpu.mstatus (ustatus_mask cpu.mxl) (cpu.csrs Csrs.ustatus)
    else if csr == Csrs.sstatus
    then merged cpu.mstatus (sstatus_mask cpu.mxl) (cpu.csrs Csrs.sstatus)
    else if csr == Csrs.mstatus
    then cpu.csrs Csrs.mstatus
    else cpu.mstatus

-- SD, XS and FS are zeros, and of a 64-bit hart both SXL and UXL are 2.
hardwired : RiscvCpu → ℕ → ℕ
hardwired cpu mstatus =
    let cleared =
      bit_and mstatus (complement 64 (bit_or (u64 (1 <<< (cpu.xlen - 1))) 0b011110000000000000)) in
    if cpu.mxl == 2
    then bit_or (bit_and cleared (complement 64 (0b1111 <<< 32))) (0b1010 <<< 32)
    else cleared

unfoldable pub update_mstatus : RiscvCpu → ℕ → RiscvCpu
unfolding written_mstatus hardwired
update_mstatus cpu csr =
    apply_mstatus_to_csr (record cpu { mstatus = hardwired cpu (written_mstatus cpu csr) })

unfoldable pub apply_interrupt_pending : RiscvCpu → RiscvCpu
unfolding set_csr
apply_interrupt_pending cpu =
    set_csr
      (set_csr (set_csr cpu Csrs.uip (bit_and cpu.mip uip_mask)) Csrs.sip
        (bit_and cpu.mip sip_mask))
      Csrs.mip cpu.mip

unfoldable pub update_interrupt_pending : RiscvCpu → ℕ → RiscvCpu
update_interrupt_pending cpu csr =
    if csr == Csrs.mip
    then apply_interrupt_pending (record cpu { mip = cpu.csrs Csrs.mip })
    else if csr == Csrs.uip
    then apply_interrupt_pending (record cpu { mip = merged cpu.mip uip_mask (cpu.csrs Csrs.uip) })
    else if csr == Csrs.sip
    then apply_interrupt_pending (record cpu { mip = merged cpu.mip sip_mask (cpu.csrs Csrs.sip) })
    else cpu

-- The masks `kUieMask` and `kSieMask` are those of the pending bits.
unfoldable pub apply_interrupt_enable : RiscvCpu → RiscvCpu
unfolding set_csr
apply_interrupt_enable cpu =
    set_csr
      (set_csr (set_csr cpu Csrs.uie (bit_and cpu.mie uip_mask)) Csrs.sie
        (bit_and cpu.mie sip_mask))
      Csrs.mie cpu.mie

unfoldable pub update_interrupt_enable : RiscvCpu → ℕ → RiscvCpu
update_interrupt_enable cpu csr =
    if csr == Csrs.mie
    then apply_interrupt_enable (record cpu { mie = cpu.csrs Csrs.mie })
    else if csr == Csrs.uie
    then apply_interrupt_enable (record cpu { mie = merged cpu.mie uip_mask (cpu.csrs Csrs.uie) })
    else if csr == Csrs.sie
    then apply_interrupt_enable (record cpu { mie = merged cpu.mie sip_mask (cpu.csrs Csrs.sie) })
    else cpu

unfoldable pub update_status : RiscvCpu → ℕ → RiscvCpu
update_status cpu csr =
    if csr == Csrs.ustatus || csr == Csrs.sstatus || csr == Csrs.mstatus
    then update_mstatus cpu csr
    else if csr == Csrs.uip || csr == Csrs.sip || csr == Csrs.mip
    then update_interrupt_pending cpu csr
    else if csr == Csrs.uie || csr == Csrs.sie || csr == Csrs.mie
    then update_interrupt_enable cpu csr
    else cpu

-- The new value, from the old one, the register and the number `rs1`. `~rs1` is a `uint32_t`.
csr_value : Instruction → ℕ → ℕ → ℕ → ℕ
csr_value Instruction.csrrc t reg rs1 = bit_and t (complement 64 reg)
csr_value Instruction.csrrci t reg rs1 = bit_and t (complement 32 rs1)
csr_value Instruction.csrrs t reg rs1 = bit_or t reg
csr_value Instruction.csrrsi t reg rs1 = bit_or t rs1
csr_value Instruction.csrrw t reg rs1 = reg
csr_value Instruction.csrrwi t reg rs1 = rs1
csr_value _ t reg rs1 = t

unfoldable pub csrs_instruction : RiscvCpu → Instruction → ℕ → ℕ → ℕ → RiscvCpu
unfolding csr_value
csrs_instruction cpu instruction csr rd rs1 =
    let t = cpu.csrs csr in
    let new_t = csr_value instruction t (cpu.reg rs1) rs1 in
    update_status (set_register (set_csr cpu csr new_t) rd t) csr

-- The pending bits are set without their views in `csrs_`: the source applies those of `mie_`.
unfoldable pub set_interrupt_pending : RiscvCpu → ℕ → RiscvCpu
set_interrupt_pending cpu cause =
    apply_interrupt_enable (record cpu { mip = bitset cpu.mip 1 cause 1 })

unfoldable pub clear_interrupt_pending : RiscvCpu → ℕ → RiscvCpu
clear_interrupt_pending cpu cause =
    apply_interrupt_pending (record cpu { mip = bitset cpu.mip 1 cause 0 })
