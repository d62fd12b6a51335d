-- ===== src/Peripheral.antt =====
-- The devices, PeripheralEmulator.h and PeripheralEmulator.cpp: the state, the accesses that the
-- processor reports, the timer and the host interface. The memory that the devices share with the
-- processor is handed in and out. `none` is a run that an assertion stops, or that follows a null
-- pointer.
pub mod Timer
pub mod Uart
pub mod Virtio
pub mod Cycle
use m99_riscv_emulator.Prelude.{
  ℕ, ◌+◌, ◌-◌, ◌*◌, ◌%◌, ◌^◌, ◌&&◌, ◌||◌, not, Bool, true, false, Option, none, some, ◌>>=◌, ltb,
  leb, ◌==◌, if◌then◌else◌, bit_and, bit_or, u32, u64, ◌>>>◌,
}
use m99_riscv_emulator.Memory.{MemoryWrapper, read32, read64, write64}
use m99_riscv_emulator.Screen.{ScreenEmulation}

-- `std::vector<uint8_t>`.
pub record DiskImage : Type 0 where
  pub size : ℕ
  pub content : ℕ → ℕ

pub record PeripheralEmulator : Type 0 where
  pub mxl : ℕ
  pub host_emulation_enable : Bool
  pub host_write : ℕ
  pub host_value : ℕ
  pub end_flag : Bool
  pub error_flag : Bool
  pub device_emulation_enable : Bool
  pub uart_write : Bool
  pub uart_read : Bool
  pub uart_full : Bool
  pub uart_write_value : ℕ
  pub uart_interrupt : Bool
  pub uart_break : Bool
  pub scr_emulation : Option ScreenEmulation
  pub elapsed_cycles : ℕ
  pub next_cycle : ℕ
  pub timercmp_update : Bool
  pub timer_interrupt : Bool
  pub disk_image : Option DiskImage
  pub virtio_write : Bool
  pub virtio_address : ℕ
  pub virtio_width : ℕ
  pub virtio_data : ℕ
  pub queue_num : ℕ
  pub virtio_interrupt : Bool

-- The constructor.
unfoldable pub peripheral : ℕ → PeripheralEmulator
peripheral mxl = record {
  mxl = mxl;
  host_emulation_enable = false;
  host_write = 0;
  host_value = 0;
  end_flag = false;
  error_flag = false;
  device_emulation_enable = false;
  uart_write = false;
  uart_read = false;
  uart_full = false;
  uart_write_value = 0;
  uart_interrupt = false;
  uart_break = false;
  scr_emulation = none;
  elapsed_cycles = 0;
  next_cycle = 0;
  timercmp_update = true;
  timer_interrupt = false;
  disk_image = none;
  virtio_write = false;
  virtio_address = 0;
  virtio_width = 0;
  virtio_data = 0;
  queue_num = 8;
  virtio_interrupt = false;
}

abbrev pub to_host0 : ℕ
to_host0 = 0x80001000

abbrev pub to_host1 : ℕ
to_host1 = 0x80003000

abbrev pub uart_base : ℕ
uart_base = 0x10000000

abbrev pub timer_cmp : ℕ
timer_cmp = 0x2004000

abbrev pub timer_mtime : ℕ
timer_mtime = 0x200bff8

abbrev pub virtio_base : ℕ
virtio_base = 0x10001000

abbrev pub virtio_end : ℕ
virtio_end = 0x100010FF

-- An access of `width` bytes at `address` reaches past `first` and starts at `last` or before.
abbrev touches : ℕ → ℕ → ℕ → ℕ → Bool
touches first last address width = ltb first (u64 (address + width)) && leb address last

-- The flags of `host_write_`.
host_bits : ℕ → ℕ → ℕ → ℕ
host_bits mxl address host_write =
    let place = if mxl == 1 then bit_and address 0xFFFFFFFF else address in
    bit_or (bit_or host_write (if place == to_host0 then 1 else 0))
      (if place == to_host1 then 2 else 0)

unfoldable pub check_device_write : PeripheralEmulator → ℕ → ℕ → ℕ → PeripheralEmulator
unfolding host_bits
check_device_write p address width data' =
    let uart = touches uart_base uart_base address width in
    let virtio = touches virtio_base virtio_end address width in
    record p {
      host_write = host_bits p.mxl address p.host_write;
      uart_write_value =
          if uart then bit_and (data' >>> ((uart_base - address) * 8)) 0xFF else p.uart_write_value;
      uart_write = p.uart_write || uart;
      virtio_address = if virtio then address else p.virtio_address;
      virtio_data = if virtio then data' else p.virtio_data;
      virtio_width = if virtio then width else p.virtio_width;
      virtio_write = p.virtio_write || virtio;
      timercmp_update =
          p.timercmp_update
          || (ltb timer_cmp (u64 (address + width)) && ltb address (timer_cmp + 8));
    }

unfoldable pub check_device_read : PeripheralEmulator → ℕ → ℕ → PeripheralEmulator
check_device_read p address width = record p {
  uart_read = p.uart_read || touches uart_base uart_base address width;
}

unfoldable pub memory_mapped_value_update :
    PeripheralEmulator → MemoryWrapper → Option MemoryWrapper
memory_mapped_value_update p mem = write64 mem timer_mtime p.elapsed_cycles

-- The comparator as the tick reads it: anew after a write to it.
comparator : PeripheralEmulator → MemoryWrapper → Option ℕ
comparator p mem = if p.timercmp_update then read64 mem timer_cmp else some p.next_cycle

unfoldable pub timer_tick : PeripheralEmulator → MemoryWrapper → Option PeripheralEmulator
unfolding comparator
timer_tick p mem = do
  next ← comparator p mem
  let elapsed = u64 (p.elapsed_cycles + 1)
  some (record p {
    elapsed_cycles = elapsed;
    next_cycle = next;
    timercmp_update = false;
    timer_interrupt = p.timer_interrupt || (elapsed == next);
  })

unfoldable pub clear_timer_interrupt : PeripheralEmulator → PeripheralEmulator
clear_timer_interrupt p = record p { timer_interrupt = false }

-- The word that the guest left at one of the two host addresses.
host_payload : PeripheralEmulator → MemoryWrapper → ℕ → Option ℕ
host_payload p mem address = if p.mxl == 1 then read32 mem address else read64 mem address

unfoldable pub host_device : ℕ → ℕ
host_device payload = bit_and (payload >>> 56) 0xFF

unfoldable pub host_command : ℕ → ℕ
host_command payload = bit_and (payload >>> 48) 0x3FFFF

-- A request on the first address: what it does to the flags. A system call, the console and the
-- unknown devices only print.
host_request : PeripheralEmulator → ℕ → ℕ → ℕ → PeripheralEmulator
host_request p payload device command =
    let value = bit_and payload 0xFFFFFFFFFFFF in
    if device == 0
    then if command == 0
      then if bit_and value 1 == 0
        then p
        else record p { host_value = value >>> 1; end_flag = true }
      else record p { error_flag = true; end_flag = true }
    else p

unfoldable pub host_emulation : PeripheralEmulator → MemoryWrapper → Option PeripheralEmulator
unfolding host_request host_payload
host_emulation p mem =
    if p.host_write == 0
    then some p
    else if not (bit_and p.host_write 0b10 == 0)
    then (host_payload p mem to_host1 >>= λ payload.
        some (record p { host_value = payload >>> 1; host_write = 0; end_flag = true }))
    else (host_payload p mem to_host0 >>= λ payload.
        let device = if p.mxl == 1 then 0 else host_device payload in
        let command = if p.mxl == 1 then 0 else host_command payload in
        some (record (host_request (record p { end_flag = false }) payload device command) {
          host_write = 0;
        }))
