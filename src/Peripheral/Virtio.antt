-- ===== src/Peripheral/Virtio.antt =====
-- The disk of PeripheralEmulator.cpp: one request of the virtio queue, and the copy between the
-- disk image and the guest's memory.
pub mod Copy
use m99_riscv_emulator.Prelude.{
  ℕ, zero, suc, ◌+◌, ◌-◌, ◌*◌, ◌/◌, ◌%◌, ◌^◌, Bool, true, false, not, Option, none, some, ◌>>=◌,
  ◌>>◌, assert, ◌||◌, ◌&&◌, ◌==◌, ltb, leb, if◌then◌else◌, bit_and, u16, u32, u64, of_int32,
}
use m99_riscv_emulator.Memory.{
  MemoryWrapper, update, read_byte, write_byte, read16, write16, read32, write32, read64,
}
use m99_riscv_emulator.Peripheral.{PeripheralEmulator, DiskImage, virtio_base}
use m99_riscv_emulator.Peripheral.Uart.{plic_claim_address}

pub record VRingDesc : Type 0 where
  pub addr : ℕ
  pub len : ℕ
  pub flags : ℕ
  pub next : ℕ

pub record OutHdr : Type 0 where
  pub type' : ℕ
  pub reserved : ℕ
  pub sector : ℕ

unfoldable pub virtio_init : MemoryWrapper → Option MemoryWrapper
virtio_init mem = do
  mem ← write32 mem virtio_base 0x74726976
  mem ← write32 mem (virtio_base + 0x4) 1
  mem ← write32 mem (virtio_base + 0x8) 2
  mem ← write32 mem (virtio_base + 0xc) 0x554d4551
  write32 mem (virtio_base + 0x34) 8

unfoldable pub read_desc : MemoryWrapper → ℕ → ℕ → Option VRingDesc
read_desc mem desc_address desc_index = do
  let address = u64 (desc_address + desc_index * 16)
  addr ← read64 mem address
  len ← read32 mem (u64 (address + 8))
  flags ← read16 mem (u64 (address + 12))
  next ← read16 mem (u64 (address + 14))
  some (record { addr = addr; len = len; flags = flags; next = next })

unfoldable pub read_outhdr : MemoryWrapper → ℕ → Option OutHdr
read_outhdr mem address = do
  kind ← read32 mem address
  reserved ← read32 mem (u64 (address + 4))
  sector ← read64 mem (u64 (address + 8))
  some (record { type' = kind; reserved = reserved; sector = sector })

-- The two loops of `disc_access`, with the bytes that are left and the offset of the next. Past the
-- end of the image the access to the vector is undefined.
unfoldable pub disk_write : ℕ → ℕ → DiskImage → MemoryWrapper → ℕ → ℕ → Option DiskImage
disk_write start buffer disk mem zero offset = some disk
disk_write start buffer disk mem (suc n) offset = do
  b ← read_byte mem (u64 (buffer + offset))
  assert (ltb (u64 (start + offset)) disk.size)
  disk_write start buffer (record disk { content = update disk.content (u64 (start + offset)) b })
      mem n (offset + 1)

unfoldable pub disk_read : ℕ → ℕ → DiskImage → MemoryWrapper → ℕ → ℕ → Option MemoryWrapper
disk_read start buffer disk mem zero offset = some mem
disk_read start buffer disk mem (suc n) offset = do
  assert (ltb (u64 (start + offset)) disk.size)
  mem ← write_byte mem (u64 (buffer + offset)) (disk.content (u64 (start + offset)))
  disk_read start buffer disk mem n (offset + 1)

unfoldable pub disc_access :
    DiskImage → MemoryWrapper → ℕ → ℕ → ℕ → Bool → Option (DiskImage × MemoryWrapper)
disc_access disk mem sector buffer_address len write =
    let start = u64 (sector * 512) in
    if write
    then (disk_write start buffer_address disk mem len 0 >>= λ disk. some (disk, mem))
    else (disk_read start buffer_address disk mem len 0 >>= λ mem. some (disk, mem))

-- The jumps to `ERROR` are a failed assertion.
unfoldable pub process_disc_access :
    DiskImage → MemoryWrapper → ℕ → ℕ → Option (DiskImage × MemoryWrapper)
process_disc_access disk mem desc_address desc_index = do
  first ← read_desc mem desc_address desc_index
  outhdr ← read_outhdr mem first.addr
  let write_access = outhdr.type' == 1
  assert (bit_and first.flags 1 == 1)
  second ← read_desc mem desc_address first.next
  assert (if write_access then bit_and second.flags 2 == 0 else not (bit_and second.flags 2 == 0))
  d ← disc_access disk mem outhdr.sector second.addr second.len write_access
  third ← read_desc d.1 desc_address second.next
  assert (third.len == 1 && bit_and third.flags 3 == 2)
  mem ← write_byte d.1 third.addr 0
  some (d.0, mem)

-- `queue_num_` is an `int`; the index of the available ring modulo zero is undefined.
unfoldable pub get_desc_index : MemoryWrapper → ℕ → ℕ → Option ℕ
get_desc_index mem queue_num avail_address = do
  available ← read16 mem (u64 (avail_address + 2))
  assert (not (queue_num == 0))
  let index = available % (if ltb queue_num (2 ^ 31) then queue_num else 2 ^ 32 - queue_num)
  assert (ltb queue_num (2 ^ 31) && ltb index queue_num)
  read16 mem (u64 (u64 (avail_address + 4) + index * 2))

unfoldable pub process_used_buffer : MemoryWrapper → ℕ → ℕ → Option MemoryWrapper
process_used_buffer mem used_address index = do
  current ← read16 mem (u64 (used_address + 2))
  mem ← write32 mem (u64 (u64 (used_address + 4) + current * 8)) index
  mem ← write32 mem (u64 (u64 (used_address + 4) + current * 8 + 4)) 3
  write16 mem (u64 (used_address + 2)) (u16 (current + 1))

-- The used ring starts at the next page boundary.
unfoldable pub used_ring : ℕ → ℕ → ℕ
used_ring avail_address queue_num =
    u64 (u64 (avail_address + of_int32 (u32 (2 * (2 + queue_num))) + 4095) / 4096 * 4096)

unfoldable pub virtio_disk_access :
    PeripheralEmulator → MemoryWrapper → ℕ → Option (PeripheralEmulator × MemoryWrapper)
virtio_disk_access p mem queue_address = do
  disk ← p.disk_image
  let avail_address = u64 (queue_address + u32 (p.queue_num * 16))
  desc_index ← get_desc_index mem p.queue_num avail_address
  d ← process_disc_access disk mem queue_address desc_index
  mem ← process_used_buffer d.1 (used_ring avail_address p.queue_num) desc_index
  some (record p { disk_image = some d.0 }, mem)

-- The write that the processor reported touches the register of four bytes at `place`.
wrote : PeripheralEmulator → ℕ → Bool
wrote p place =
    ltb place (u64 (p.virtio_address + p.virtio_width)) && ltb p.virtio_address (place + 4)

-- A write to the queue's selector sets the size that the device offers.
queue_select : PeripheralEmulator → MemoryWrapper → Option MemoryWrapper
unfolding wrote
queue_select p mem =
    if wrote p (virtio_base + 0x30)
    then (read32 mem (virtio_base + 0x30) >>= λ sel.
        write32 mem (virtio_base + 0x34) (if sel == 0 then 8 else 0))
    else some mem

-- A write to the notification register starts the request, and an interrupt follows it.
queue_notify : PeripheralEmulator → MemoryWrapper → Option (PeripheralEmulator × MemoryWrapper)
queue_notify p mem = do
  queue_number ← read32 mem (virtio_base + 0x50)
  assert (queue_number == 0)
  queue_num ← read32 mem (virtio_base + 0x38)
  assert (leb queue_num 8 || leb (2 ^ 31) queue_num)
  page_size ← read32 mem (virtio_base + 0x28)
  assert (page_size == 4096)
  pfn ← read32 mem (virtio_base + 0x40)
  d ← virtio_disk_access (record p { queue_num = queue_num }) mem (u32 (pfn * page_size))
  mem ← write32 d.1 plic_claim_address 1
  some (record d.0 { virtio_interrupt = true }, mem)

unfoldable pub virtio_emulation :
    PeripheralEmulator → MemoryWrapper → Option (PeripheralEmulator × MemoryWrapper)
unfolding queue_select queue_notify wrote
virtio_emulation p mem =
    if p.virtio_write
    then (let cleared = record p { virtio_write = false } in
        do
          mem ← queue_select cleared mem
          if wrote cleared (virtio_base + 0x50)
              then queue_notify cleared mem
              else some (cleared, mem))
    else some (p, mem)
