-- ===== src/Cpu/Setup.antt =====
-- How a `RiscvCpu` is made and set up: the constructor and the setters of RISCV_cpu.cc and
-- RISCV_cpu.h.
pub mod Made
use m99_riscv_emulator.Prelude.{
  ℕ, ◌-◌, Bool, true, false, Option, some, ◌>>=◌, bit_or, ◌==◌, if◌then◌else◌, ◌<<<◌,
}
use m99_riscv_emulator.Isa.Csrs
use m99_riscv_emulator.Memory.{MemoryWrapper}
use m99_riscv_emulator.Mmu
use m99_riscv_emulator.Mmu.{PrivilegeMode}
use m99_riscv_emulator.Peripheral.{DiskImage, peripheral}
use m99_riscv_emulator.Peripheral.Cycle.{initialize}
use m99_riscv_emulator.Cpu.{RiscvCpu}
use m99_riscv_emulator.Cpu.Csr.{set_csr, apply_mstatus_to_csr}

abbrev extensions : ℕ
extensions = 0b00000101000010000100000000

-- `shifted` is what the host makes of the shift of the `int` `mxl_` by 62, which C++ does not define.
unfoldable pub initialize_csrs : ℕ → RiscvCpu → RiscvCpu
unfolding apply_mstatus_to_csr set_csr
initialize_csrs shifted cpu =
    let high = if cpu.mxl == 2 then shifted else cpu.mxl <<< (cpu.xlen - 2) in
    let cpu = set_csr (record cpu { csrs = λ csr. 0 }) Csrs.misa (bit_or high extensions) in
    if cpu.mxl == 2
    then apply_mstatus_to_csr (record cpu { mstatus = bit_or (cpu.mxl <<< 34) (cpu.mxl <<< 32) })
    else cpu

-- The constructor, on the values that the fields which it does not initialise happen to have.
unfoldable pub riscv_cpu : ℕ → RiscvCpu → Bool → RiscvCpu
unfolding initialize_csrs peripheral
riscv_cpu shifted uninitialised en64bit =
    let mxl : ℕ = if en64bit then 2 else 1 in
    let cpu = initialize_csrs shifted (record uninitialised {
      mxl = mxl;
      xlen = if en64bit then 64 else 32;
      privilege = PrivilegeMode.machine_mode;
      mstatus = 0;
      reg = λ i. 0;
      mie = 0;
      mip = 0;
      page_fault = false;
      prev_page_fault = false;
      prev_faulting_address = 0;
      mmu = Mmu.initial;
      ecall_emulation = false;
      host_emulation = false;
      peripheral_emulation = false;
      virtio_interrupt = false;
      uart_interrupt = false;
      disable_machine_interrupt_delegation = false;
      top = 0x80000000;
      brk = 0x40000000;
    }) in
    record cpu { peripheral = peripheral mxl }

-- The processor, its devices and its memory management share one memory, which is kept here.
unfoldable pub set_memory : RiscvCpu → MemoryWrapper → RiscvCpu
set_memory cpu memory = record cpu { memory = memory }

-- `bottom_` is read only where `brk_` is initialised, which is before.
unfoldable pub set_work_memory : RiscvCpu → ℕ → ℕ → RiscvCpu
set_work_memory cpu top bottom = record cpu { top = top }

unfoldable pub set_ecall_emulation_enable : RiscvCpu → Bool → RiscvCpu
set_ecall_emulation_enable cpu ecall_emulation = record cpu { ecall_emulation = ecall_emulation }

unfoldable pub disable_delegation : RiscvCpu → Bool → RiscvCpu
disable_delegation cpu disable = record cpu { disable_machine_interrupt_delegation = disable }

unfoldable pub set_host_emulation_enable : RiscvCpu → Bool → RiscvCpu
set_host_emulation_enable cpu host_emulation = record cpu {
  host_emulation = host_emulation;
  peripheral = record cpu.peripheral { host_emulation_enable = host_emulation };
}

unfoldable pub set_device_emulation_enable : RiscvCpu → Bool → RiscvCpu
set_device_emulation_enable cpu enable = record cpu {
  peripheral_emulation = enable;
  peripheral = record cpu.peripheral { device_emulation_enable = enable };
}

unfoldable pub set_disk_image : RiscvCpu → Option DiskImage → RiscvCpu
set_disk_image cpu disk_image = record cpu {
  peripheral = record cpu.peripheral { disk_image = disk_image };
}

unfoldable pub device_initialization : RiscvCpu → Option RiscvCpu
device_initialization cpu = elim cpu.peripheral_emulation [
  | false ↦ some cpu
  | true ↦ do
    d ← initialize cpu.peripheral cpu.memory
    some (record cpu { peripheral = d.0; memory = d.1 })
]
