-- ===== src/Cpu/Run.antt =====
-- `RunCpu` of RISCV_cpu.cc, without what it prints: one round, and the loop. What the host and the
-- keyboard answer in a round is handed in.
pub mod Loop
pub mod Round
pub mod Trace
pub mod Invariant
use m99_riscv_emulator.Prelude.{
  ℕ, zero, suc, ◌+◌, ◌%◌, ◌^◌, Bool, true, false, not, Option, none, some, ◌>>=◌, ◌&&◌, ◌||◌,
  bit_and, ◌==◌, if◌then◌else◌, u64,
}
use m99_riscv_emulator.Encdec.{get_csr, get_imm, get_rd, get_rs1, get_rs2}
use m99_riscv_emulator.Screen.{Terminal}
use m99_riscv_emulator.Isa.Causes
use m99_riscv_emulator.Decode.Code16.{Decoded, decoded, get_code16}
use m99_riscv_emulator.Decode.Code32.{get_code32}
use m99_riscv_emulator.Memory.{MemoryWrapper}
use m99_riscv_emulator.Peripheral.{PeripheralEmulator}
use m99_riscv_emulator.Peripheral.Cycle.{emulation}
use m99_riscv_emulator.SystemCall.{Host}
use m99_riscv_emulator.Cpu.{RiscvCpu, set_register}
use m99_riscv_emulator.Cpu.Trap.{trap, check_pending_interrupt}
use m99_riscv_emulator.Cpu.Access.{load_cmd}
use m99_riscv_emulator.Cpu.Step.{timer_tick, interrupt_check}
use m99_riscv_emulator.Cpu.Execute.{executed}

-- `PeripheralEmulations` after the devices have run: what they report.
unfoldable pub reported : RiscvCpu → PeripheralEmulator → MemoryWrapper → RiscvCpu
reported cpu p memory =
    let called = if p.end_flag then set_register cpu 10 p.host_value else cpu in
    record called {
      memory = memory;
      peripheral = record p { virtio_interrupt = false; uart_interrupt = false };
      error_flag = cpu.error_flag || (p.end_flag && p.error_flag);
      end_flag = cpu.end_flag || p.end_flag || p.uart_break;
      virtio_interrupt = cpu.virtio_interrupt || p.virtio_interrupt;
      uart_interrupt = cpu.uart_interrupt || p.uart_interrupt;
    }

unfoldable pub peripheral_emulations : Terminal → RiscvCpu → Option RiscvCpu
unfolding reported
peripheral_emulations terminal cpu = do
  d ← emulation terminal cpu.peripheral cpu.memory
  some (reported cpu d.0 d.1)

is_compressed : ℕ → Bool
is_compressed ir = not (bit_and ir 0b11 == 0b11)

unfoldable pub decode : RiscvCpu → Decoded
unfolding is_compressed
decode cpu =
    if is_compressed cpu.ir
    then get_code16 cpu.ir cpu.mxl
    else decoded (get_code32 cpu.ir) (get_rd cpu.ir) (get_rs1 cpu.ir) (get_rs2 cpu.ir)
        (get_imm cpu.ir)

unfoldable pub dispatched : Host → RiscvCpu → Decoded → Option RiscvCpu
unfolding is_compressed
dispatched host cpu d =
    let length = if is_compressed cpu.ir then 2 else 4 in
    executed host (record cpu { next_pc = u64 (cpu.pc + length) }) (get_csr cpu.ir) d.instruction
      d.rd d.rs1 d.rs2 d.imm

-- What follows the switch: a jump to itself is an error, and register 0 is cleared.
unfoldable pub concluded : RiscvCpu → RiscvCpu
concluded cpu = record (set_register cpu 0 0) {
  error_flag = cpu.error_flag || cpu.pc == cpu.next_pc;
}

unfoldable pub run_fetched : Host → Terminal → RiscvCpu → Option RiscvCpu
unfolding decode dispatched concluded peripheral_emulations
run_fetched host terminal cpu = do
  cpu ← dispatched host cpu (decode cpu)
  (if cpu.host_emulation || cpu.peripheral_emulation
      then peripheral_emulations terminal (concluded cpu)
      else some (concluded cpu))

unfoldable pub run_instruction : Host → Terminal → RiscvCpu → Option RiscvCpu
unfolding run_fetched
run_instruction host terminal cpu = do
  fetched ← load_cmd cpu cpu.pc
  (if fetched.1.page_fault
      then trap (record fetched.1 { ir = fetched.0 }) Causes.instruction_page_fault false
      else run_fetched host terminal (record fetched.1 { ir = fetched.0 }))

unfoldable pub run_round : Host → Terminal → RiscvCpu → Option RiscvCpu
unfolding run_instruction
run_round host terminal cpu = do
  cpu ← timer_tick (record cpu { pc = cpu.next_pc })
  pending ← check_pending_interrupt (interrupt_check cpu)
  (if pending.1 then some (pending.0) else run_instruction host terminal (pending.0))

unfoldable pub is_halted : RiscvCpu → Bool
is_halted cpu = cpu.error_flag || cpu.end_flag

-- The loop: `fuel` bounds its rounds, and the answers come in the order of the rounds.
unfoldable pub run_loop : (ℕ → Host) → (ℕ → Terminal) → ℕ → ℕ → RiscvCpu → Option RiscvCpu
unfolding run_round is_halted
run_loop hosts terminals zero round cpu = none
run_loop hosts terminals (suc fuel) round cpu =
    run_round (hosts round) (terminals round) cpu >>= λ cpu. elim (is_halted cpu) [
      | true ↦ some cpu
      | false ↦ run_loop hosts terminals fuel (suc round) cpu
    ]

unfoldable pub run_cpu : (ℕ → Host) → (ℕ → Terminal) → ℕ → RiscvCpu → ℕ → Option RiscvCpu
run_cpu hosts terminals fuel cpu start_pc =
    run_loop hosts terminals fuel 0
      (record cpu { error_flag = false; end_flag = false; next_pc = start_pc })
