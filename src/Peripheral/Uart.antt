-- ===== src/Peripheral/Uart.antt =====
-- The serial line of PeripheralEmulator.cpp, over the terminal.
use m99_riscv_emulator.Prelude.{
  ℕ, Bool, true, false, Option, some, ◌>>=◌, ◌||◌, ◌==◌, if◌then◌else◌, bit_and, bit_or, u8,
}
use m99_riscv_emulator.Memory.{MemoryWrapper, read_byte, write_byte, write32}
use m99_riscv_emulator.Screen.{
  ScreenEmulation, Terminal, screen, check_input, get_key_value, put_char,
}
use m99_riscv_emulator.Peripheral.{PeripheralEmulator, uart_base}

abbrev pub uart_lsr : ℕ
uart_lsr = 0x10000005

abbrev pub plic_claim_address : ℕ
plic_claim_address = 0xc201004

unfoldable pub uart_init :
    PeripheralEmulator → MemoryWrapper → Option (PeripheralEmulator × MemoryWrapper)
uart_init p mem = do
  isr ← read_byte mem uart_lsr
  mem ← write_byte mem uart_lsr (bit_or isr 0b100000)
  some (record p { scr_emulation = some screen }, mem)

unfoldable pub set_uart_buffer :
    PeripheralEmulator → MemoryWrapper → ℕ → Option (PeripheralEmulator × MemoryWrapper)
set_uart_buffer p mem key = do
  status ← read_byte mem uart_lsr
  mem ← write_byte mem uart_base (u8 key)
  mem ← write_byte mem uart_lsr (bit_or status 1)
  some (record p { uart_full = true }, mem)

unfoldable pub clear_uart_buffer :
    PeripheralEmulator → MemoryWrapper → Option (PeripheralEmulator × MemoryWrapper)
clear_uart_buffer p mem = do
  status ← read_byte mem uart_lsr
  mem ← write_byte mem uart_lsr (bit_and status 0xFE)
  some (record p { uart_full = false }, mem)

unfoldable pub raise_uart_interrupt :
    PeripheralEmulator → MemoryWrapper → Option (PeripheralEmulator × MemoryWrapper)
raise_uart_interrupt p mem = do
  mem ← write32 mem plic_claim_address 10
  some (record p { uart_interrupt = true }, mem)

-- The key as it is sent: two keys of the terminal stand for control characters.
sent_key : Terminal → ℕ → ℕ
sent_key terminal key =
    if key == terminal.key_backspace then 8 else if key == terminal.key_dc then 127 else key

is_break : Terminal → ℕ → Bool
is_break terminal key =
    if key == terminal.key_backspace || key == terminal.key_dc
    then false
    else (key == 1 || key == 3)

-- The parts of `UartEmulation` before and after its test for a full buffer.
uart_transfer :
    PeripheralEmulator
    → MemoryWrapper
    → ScreenEmulation
    → Option (PeripheralEmulator × MemoryWrapper)
uart_transfer p mem scr =
    let shown =
      if p.uart_write
      then record p { scr_emulation = some (put_char scr p.uart_write_value); uart_write = false }
      else p in
    if shown.uart_read
    then (clear_uart_buffer shown mem >>= λ d. some (record d.0 { uart_read = false }, d.1))
    else some (shown, mem)

uart_receive :
    Terminal
    → PeripheralEmulator
    → MemoryWrapper
    → ScreenEmulation
    → Option (PeripheralEmulator × MemoryWrapper)
uart_receive terminal p mem scr =
    let (polled, found) = check_input scr terminal in
    if found
    then (let (taken, key) = get_key_value polled in
        do
          d ←
              set_uart_buffer
                (record p {
                  scr_emulation = some taken;
                  uart_break = p.uart_break || is_break terminal key;
                })
                mem (sent_key terminal key)
          raise_uart_interrupt d.0 d.1)
    else some (record p { scr_emulation = some polled }, mem)

-- `scr_emulation` is null until `UartInit` has run.
unfoldable pub uart_emulation :
    Terminal → PeripheralEmulator → MemoryWrapper → Option (PeripheralEmulator × MemoryWrapper)
unfolding uart_transfer uart_receive sent_key is_break
uart_emulation terminal p mem = do
  scr ← p.scr_emulation
  d ← uart_transfer p mem scr
  scr ← d.0.scr_emulation
  if d.0.uart_full then some d else uart_receive terminal d.0 d.1 scr
