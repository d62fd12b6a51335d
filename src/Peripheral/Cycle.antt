-- ===== src/Peripheral/Cycle.antt =====
-- What the processor calls once at its start and once after each instruction.
use m99_riscv_emulator.Prelude.{Option, some, ◌>>=◌, if◌then◌else◌}
use m99_riscv_emulator.Memory.{MemoryWrapper}
use m99_riscv_emulator.Screen.{Terminal}
use m99_riscv_emulator.Peripheral.{PeripheralEmulator, host_emulation}
use m99_riscv_emulator.Peripheral.Uart.{uart_init, uart_emulation}
use m99_riscv_emulator.Peripheral.Virtio.{virtio_init, virtio_emulation}

unfoldable pub initialize :
    PeripheralEmulator → MemoryWrapper → Option (PeripheralEmulator × MemoryWrapper)
initialize p mem = do d ← uart_init p mem; mem ← virtio_init d.1; some (d.0, mem)

host_part : PeripheralEmulator → MemoryWrapper → Option PeripheralEmulator
host_part p mem = if p.host_emulation_enable then host_emulation p mem else some p

unfoldable pub emulation :
    Terminal → PeripheralEmulator → MemoryWrapper → Option (PeripheralEmulator × MemoryWrapper)
unfolding host_part
emulation terminal p mem = do
  p ← host_part p mem
  (if p.device_emulation_enable
      then (uart_emulation terminal p mem >>= λ d. virtio_emulation d.0 d.1)
      else some (p, mem))
