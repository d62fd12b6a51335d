-- ===== src/Cpu/Step.antt =====
-- One round of `RunCpu`: the timer, the interrupts, fetch, decode, the instruction and the devices.
-- Printing is left out. `none` is a failed assertion, or an exception.
use m99_riscv_emulator.Prelude.{
  ℕ, ◌+◌, ◌-◌, ◌%◌, Bool, true, false, Option, some, ◌>>=◌, ◌&&◌, ◌||◌, ◌==◌, if◌then◌else◌, u64,
  of_int32, ◌>>>◌,
}
use m99_riscv_emulator.Isa.Causes
use m99_riscv_emulator.Peripheral
use m99_riscv_emulator.Peripheral.{clear_timer_interrupt}
use m99_riscv_emulator.SystemCall.{Host, Process, system_call_emulation}
use m99_riscv_emulator.Cpu.{RiscvCpu, set_register, sext32bit}
use m99_riscv_emulator.Cpu.Csr.{set_interrupt_pending}
use m99_riscv_emulator.Cpu.Trap.{ecall, mret, sret}

unfoldable pub timer_tick : RiscvCpu → Option RiscvCpu
timer_tick cpu = do
  peripheral ← Peripheral.timer_tick cpu.peripheral cpu.memory
  some (
      if peripheral.timer_interrupt
      then set_interrupt_pending (record cpu { peripheral = clear_timer_interrupt peripheral })
          Causes.machine_timer_interrupt
      else record cpu { peripheral = peripheral })

unfoldable pub disk_interrupt_check : RiscvCpu → RiscvCpu
disk_interrupt_check cpu =
    if cpu.virtio_interrupt
    then set_interrupt_pending (record cpu { virtio_interrupt = false })
        Causes.supervisor_external_interrupt
    else cpu

unfoldable pub uart_interrupt_check : RiscvCpu → RiscvCpu
uart_interrupt_check cpu =
    if cpu.uart_interrupt
    then set_interrupt_pending (record cpu { uart_interrupt = false })
        Causes.supervisor_external_interrupt
    else cpu

unfoldable pub interrupt_check : RiscvCpu → RiscvCpu
unfolding disk_interrupt_check uart_interrupt_check
interrupt_check cpu = uart_interrupt_check (disk_interrupt_check cpu)

-- The registers and the memory that a system call works on.
abbrev process_of : RiscvCpu → Process
process_of cpu = record {
  reg = cpu.reg;
  memory = cpu.memory;
  brk = cpu.brk;
  open_handles = cpu.open_handles;
  error_flag = cpu.error_flag;
  end_flag = cpu.end_flag;
}

unfoldable pub system_call : Host → RiscvCpu → Option RiscvCpu
system_call host cpu = do
  p ← system_call_emulation host (process_of cpu) cpu.top
  some (record cpu {
    reg = p.reg;
    memory = p.memory;
    brk = p.brk;
    open_handles = p.open_handles;
    error_flag = p.error_flag;
    end_flag = p.end_flag;
  })

unfoldable pub system_instruction : Host → RiscvCpu → ℕ → ℕ → Option RiscvCpu
unfolding system_call
system_instruction host cpu rd imm =
    if imm == 0b000000000000
    then (if cpu.ecall_emulation then system_call host cpu else ecall cpu)
    else if imm == 0b000000000001
    then some cpu
    else if imm == 0b001100000010
    then mret cpu
    else if imm == 0b000100000010
    then sret cpu
    else if imm >>> 5 == 0b0001001 && rd == 0b00000
    then some cpu
    else some (record cpu { error_flag = true })

abbrev pub bit_of : Bool → ℕ
bit_of true = 1
bit_of false = 0

unfoldable pub jal_instruction : RiscvCpu → ℕ → ℕ → RiscvCpu
jal_instruction cpu rd imm =
    let next_pc = u64 (cpu.pc + of_int32 imm) in
    record (set_register cpu rd cpu.next_pc) {
      next_pc = next_pc;
      error_flag = cpu.error_flag || next_pc == cpu.pc;
    }

-- The end of the run is told by the register after the link is written.
unfoldable pub jalr_instruction : RiscvCpu → ℕ → ℕ → ℕ → RiscvCpu
jalr_instruction cpu rd rs1 imm =
    let target = u64 (cpu.reg rs1 + of_int32 imm) in
    let linked = set_register cpu rd cpu.next_pc in
    record linked {
      next_pc = target - target % 2;
      end_flag = cpu.end_flag || (rd == 0 && rs1 == 1 && linked.reg rs1 == 0 && imm == 0);
    }

abbrev pub sized : RiscvCpu → ℕ → ℕ
sized cpu value = if cpu.xlen == 32 then sext32bit value else value
